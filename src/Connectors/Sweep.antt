-- ===== src/Connectors/Sweep.antt =====
-- What a sync of one connector reports, and that a sweep misses no config.
use nidaro.Base.{
  ℕ, String, ◌≡◌, refl, ap, ◌∙◌, subst, inl, inr, Bool, Option, List, [], ◌∷◌, ◌++◌, map,
  Bool-cases, keep, Result, ok, err, Result-cases,
}
use nidaro.Base.{
  ℕ, String, ◌≡◌, refl, ap, ◌∙◌, subst, inl, inr, Bool, Option, List, [], ◌∷◌, ◌++◌, map,
  Bool-cases, keep, Result, ok, err, Result-cases,
}
use nidaro.Base.{
  ℕ, String, ◌≡◌, refl, ap, ◌∙◌, subst, inl, inr, Bool, Option, List, [], ◌∷◌, ◌++◌, map,
  Bool-cases, keep, Result, ok, err, Result-cases,
}
use nidaro.Base.{err≢ok}
use mathlib.Core.List.{Perm, perm_middle, perm_append_comm, append_assoc, append-nil}
use mathlib.Core.List.Perm
use nidaro.Connectors.Store.{ConnectorConfig}
use nidaro.Connectors.Service.{Registry, due}
use nidaro.Connectors.Credentials.{Fernet, SecretBox}
use nidaro.Connectors.Runner.{
  sync_landed, outcome_of, Services, SyncOutcome, SweepReport, sync_connector, sync_landed,
  outcome_of, sweep, sweep_one, sync_due, is_wanted, noted,
}

abbrev pub key_of : ConnectorConfig → String × ℕ
key_of r = (r.connector, r.household_id)

-- The configs that a report speaks of
abbrev pub tally : SweepReport → List (String × ℕ)
tally report = map (λ o. (o.connector, o.household_id)) report.outcomes ++ report.errors

same_key :
    (p o : SyncOutcome)
    → ok p ≡ ok o
    → (o.connector ≡ p.connector) × (o.household_id ≡ p.household_id)
same_key p o e = (cc, cc)

map-snoc :
    {A B : Type 0} (f : A → B) (xs : List A) (x : A) (ys : List B)
    → map f (xs ++ x ∷ []) ++ ys ≡ map f xs ++ f x ∷ ys
map-snoc f [] x ys = refl
map-snoc f (z ∷ xs) x ys = ap (λ l. f z ∷ l) (map-snoc f xs x ys)

module _ {Nonce W : Type 0} (F : Fernet Nonce) (box : Option SecretBox) (registry : Registry W)
    (now : ℕ) where
  sync_connector-key :
      (c : String) (h : ℕ) (s : Services W) (o : SyncOutcome)
      → (sync_connector F box registry now c h s).0 ≡ ok o
      → (o.connector ≡ c) × (o.household_id ≡ h)
  unfolding sync_connector
  sync_connector-key c h s o e = elim (Result-cases (sync_landed F box registry now c h s).0) [
    | inl (landed, run) ↦ same_key (outcome_of F box registry now c h landed) o (rw run at e)
    | inr (x, raised) ↦ absurd (err≢ok (rw raised at e))
  ]

  tally-noted :
      (r : ConnectorConfig) (report : SweepReport) (res : Result SyncOutcome)
      → ((o : SyncOutcome) → res ≡ ok o → (o.connector, o.household_id) ≡ key_of r)
      → Perm (tally (noted F box registry now r report res)) (key_of r ∷ tally report)
  tally-noted r report (ok o) k =
      rw (map-snoc (λ x. (x.connector, x.household_id)) report.outcomes o report.errors, k o refl)
        (perm_middle (map (λ x. (x.connector, x.household_id)) report.outcomes) report.errors)
  tally-noted r report (err e) k =
      subst (λ l. Perm l (key_of r ∷ tally report))
        (append_assoc (map (λ x. (x.connector, x.household_id)) report.outcomes) report.errors
          (key_of r ∷ []))
        (perm_append_comm (tally report) (key_of r ∷ []))

  -- One round of the loop adds the key of a wanted config, and nothing for another.
  tally-sweep_one :
      (wanted : Option String) (r : ConnectorConfig) (report : SweepReport) (s : Services W)
      → Perm
          (tally (sweep_one F box registry now wanted r report s).0)
          (map key_of (keep (is_wanted F box registry now wanted) (r ∷ [])) ++ tally report)
  tally-sweep_one wanted r report s = elim (Bool-cases (is_wanted F box registry now wanted r)) [
    | inr n ↦ rw n (Perm.refl (tally report))
    | inl y ↦ rw y (
        tally-noted r report (sync_connector F box registry now r.connector r.household_id s).0
          (λ o e.
            let k = sync_connector-key r.connector r.household_id s o e in
            ap (λ c. (c, o.household_id)) k.0 ∙ ap (λ h. (r.connector, h)) k.1))
  ]

  tally-sweep :
      (wanted : Option String) (rs : List ConnectorConfig) (report : SweepReport) (s : Services W)
      → Perm
          (tally (sweep F box registry now wanted rs report s).0)
          (map key_of (keep (is_wanted F box registry now wanted) rs) ++ tally report)
  unfolding sweep
  tally-sweep wanted [] report s = Perm.refl (tally report)
  tally-sweep wanted (r ∷ rs) report s =
      let next = sweep_one F box registry now wanted r report s in
      let later = map key_of (keep (is_wanted F box registry now wanted) rs) in
      Perm.trans (tally-sweep wanted rs next.0 next.1) (
        Perm.trans (Perm.append_left later (tally-sweep_one wanted r report s))
          (elim (Bool-cases (is_wanted F box registry now wanted r)) [
            | inr n ↦ rw n (Perm.refl (later ++ tally report))
            | inl y ↦ rw y (perm_middle later (tally report))
          ]))

  -- A sweep always completes: its report has exactly one outcome or one error for each config that
  -- was due when it began and is of the wanted connector, whatever the other configs' syncs raise.
  pub sync_due_isolates :
      (order : ConnectorConfig → ConnectorConfig → Bool) (wanted : Option String) (moment : ℕ)
      (s : Services W)
      → Perm
          (tally (sync_due F box registry now order wanted moment s).0)
          (map key_of (keep (is_wanted F box registry now wanted) (due order moment s.connectors)))
  unfolding sync_due
  sync_due_isolates order wanted moment s =
      subst (Perm (tally (sync_due F box registry now order wanted moment s).0)) (append-nil _) (
        tally-sweep wanted (due order moment s.connectors) (record { outcomes = []; errors = [] })
          s)
