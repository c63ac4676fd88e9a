-- ===== src/WhatsApp/Once.antt =====
-- A message is staged once, whatever is staged again.
use nidaro.Base.{
  ℕ, suc, ◌≤◌, String, ◌≡◌, refl, sym, ap, ◌∙◌, inl, inr, Bool, true, false, ◌||◌, none, List, [],
  ◌∷◌, ◌++◌, arith, str_eq, eq_iff, leb, Bool-cases, any, mem, Option, ok,
}
use nidaro.Base.{
  ℕ, suc, ◌≤◌, String, ◌≡◌, refl, sym, ap, ◌∙◌, inl, inr, Bool, true, false, ◌||◌, none, List, [],
  ◌∷◌, ◌++◌, arith, str_eq, eq_iff, leb, Bool-cases, any,
}
use nidaro.Base.Table.{count}
use nidaro.Base.Counts.{count-append_one}
use nidaro.WhatsApp.Staging.{
  fits_columns, Incoming, WhatsAppEvent, State, has_wamid, new_row, stage,
}

-- No two staged rows with one wamid, and every identifier below the next one
abbrev pub WamidsUnique : {Json : Type 0} → State Json → Type 0
WamidsUnique s =
    ((wamid : String) → count (has_wamid wamid) s.events ≤ 1)
    × (any (λ r. leb s.next_id r.id) s.events ≡ false)

module _ {Json : Type 0} where
  count-none :
      (p : WhatsAppEvent Json → Bool) (xs : List (WhatsAppEvent Json))
      → any p xs ≡ false
      → count p xs ≡ 0
  count-none p [] h = refl
  count-none p (x ∷ xs) h = ground (arith, count-none p xs)

  any-snoc :
      (p : WhatsAppEvent Json → Bool) (xs : List (WhatsAppEvent Json)) (x : WhatsAppEvent Json)
      → any p (xs ++ x ∷ []) ≡ (any p xs || p x)
  any-snoc p [] x = ground arith
  any-snoc p (y ∷ xs) x = ground (arith, any-snoc p xs x)

  any-older :
      (n : ℕ) (xs : List (WhatsAppEvent Json))
      → any (λ r. leb n r.id) xs ≡ false
      → any (λ r. leb (suc n) r.id) xs ≡ false
  any-older n [] h = refl
  any-older n (x ∷ xs) h = ground (arith, any-older n xs)

  new_row-wamid :
      (empty : Json) (n : ℕ) (event : Incoming Json) (w : String)
      → has_wamid w (new_row empty n event) ≡ str_eq event.wamid w
  unfolding new_row
  new_row-wamid empty n event w = refl

  new_row-id : (empty : Json) (n : ℕ) (event : Incoming Json) → (new_row empty n event).id ≡ n
  unfolding new_row
  new_row-id empty n event = refl

  stage-has_wamid :
      (empty : Json) (event : Incoming Json) (s : State Json)
      → fits_columns event ≡ true
      → mem event.household_id s.households ≡ true
      → (any (has_wamid event.wamid) (stage empty event s).1.events ≡ true)
        × ((o : Option (WhatsAppEvent Json)) × ((stage empty event s).0 ≡ ok o))
  unfolding stage
  stage-has_wamid empty event s fit known =
      elim (Bool-cases (any (has_wamid event.wamid) s.events)) [
        | inl y ↦ rw (fit, y) (y, (none, refl))
        | inr n ↦
            rw (fit, n, known)
              (
                any-snoc (has_wamid event.wamid) s.events (new_row empty s.next_id event)
                    ∙ ground (
                      arith,
                      new_row-wamid empty s.next_id event event.wamid,
                      eq_iff event.wamid event.wamid,
                    ),
                (_, refl),
              )
      ]

  one_more :
      (empty : Json) (event : Incoming Json) (s : State Json) (x : String)
      → count (has_wamid x) s.events ≤ 1
      → any (has_wamid event.wamid) s.events ≡ false
      → count (has_wamid x) (s.events ++ new_row empty s.next_id event ∷ []) ≤ 1
  one_more empty event s x u n = elim (Bool-cases (str_eq event.wamid x)) [
    | inl y ↦ ground (
      arith,
      y,
      count-append_one (has_wamid x) s.events (new_row empty s.next_id event),
      new_row-wamid empty s.next_id event x,
      count-none (has_wamid x) s.events
          (ap (λ v. any (has_wamid v) s.events) (sym ((eq_iff event.wamid x).0 y)) ∙ n),
    )
    | inr other ↦ ground (
      arith,
      other,
      u,
      count-append_one (has_wamid x) s.events (new_row empty s.next_id event),
      new_row-wamid empty s.next_id event x,
    )
  ]

  stage-WamidsUnique :
      (empty : Json) (event : Incoming Json) (s : State Json)
      → WamidsUnique s
      → WamidsUnique (stage empty event s).1
  unfolding stage
  stage-WamidsUnique empty event s w = elim (Bool-cases (fits_columns event)) [
    | inr wide ↦ rw wide w
    | inl fit ↦ elim (Bool-cases (any (has_wamid event.wamid) s.events)) [
      | inl y ↦ rw (fit, y) (w.0, any-older s.next_id s.events w.1)
      | inr n ↦ elim (Bool-cases (mem event.household_id s.households)) [
        | inr unknown ↦ rw (fit, n, unknown) (w.0, any-older s.next_id s.events w.1)
        | inl known ↦
            rw (fit, n, known)
              (
                (λ x. one_more empty event s x (w.0 x) n),
                any-snoc (λ r. leb (suc s.next_id) r.id) s.events (new_row empty s.next_id event)
                    ∙ ground
                        (arith, any-older s.next_id s.events w.1, new_row-id empty s.next_id event),
              )
      ]
    ]
  ]

  stage-known :
      (empty : Json) (event : Incoming Json) (s : State Json)
      → fits_columns event ≡ true
      → any (has_wamid event.wamid) s.events ≡ true
      → ((stage empty event s).0 ≡ ok none) × ((stage empty event s).1.events ≡ s.events)
  unfolding stage
  stage-known empty event s fit y = rw (fit, y) (refl, refl)

  -- Staging keeps the staged messages' wamids different and their identifiers below the next one.
  -- For a known household and texts that fit in their columns it completes; afterwards the message
  -- is staged, and staging it again, with whatever else that fits it then carries, returns none and
  -- leaves the staged events as they are.
  pub stage_once :
      (empty : Json) (event again : Incoming Json) (s : State Json)
      → WamidsUnique s
      → again.wamid ≡ event.wamid
      → fits_columns event ≡ true
      → fits_columns again ≡ true
      → mem event.household_id s.households ≡ true
      → let out = stage empty event s in
        WamidsUnique out.1
        × ((o : Option (WhatsAppEvent Json)) × (out.0 ≡ ok o))
        × (any (has_wamid event.wamid) out.1.events ≡ true)
        × ((stage empty again out.1).0 ≡ ok none)
        × ((stage empty again out.1).1.events ≡ out.1.events)
  stage_once empty event again s w same fit fit_again known =
      let (staged, done) = stage-has_wamid empty event s fit known in
      let (nothing, kept) =
        stage-known empty again (stage empty event s).1 fit_again
          (ap (λ x. any (has_wamid x) (stage empty event s).1.events) same ∙ staged) in
      (stage-WamidsUnique empty event s w, done, staged, nothing, kept)
