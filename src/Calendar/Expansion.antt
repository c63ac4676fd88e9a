-- ===== src/Calendar/Expansion.antt =====
-- On which dates `expand_event` of recurrence.py places an event.
use mathlib.Core.Bool.{true≢false}
use native.Mathlib.Decide.{dec_lt}
use nidaro.Base.{
  ℕ, zero, suc, ◌+◌, ◌≤◌, ◌<◌, max, ◌≡◌, ◌↔◌, refl, ap, sym, ◌∙◌, true, false, List, [], ◌∷◌, map,
  some, inl, inr, arith, mem, leb, leb→le, le→leb, Bool-cases, In, All, In-keep, keep-In, Option,
  ◌&&◌,
}
use nidaro.Calendar.Zones.{Local, Zones, weekday}
use nidaro.Calendar.Models.{Event}
use nidaro.Calendar.Anchor.{IsEarliest, first_weekday-IsEarliest}
use nidaro.Calendar.Recurrence.{
  OccurrenceView, daterange_loop, daterange, weekdays_of, occurrence_dates, view, expand_event,
  first_weekday_on_or_after,
}

In-daterange_loop :
    (fuel day to_date d : ℕ)
    → to_date < day + fuel
    → day ≤ d
    → d ≤ to_date
    → In d (daterange_loop fuel day to_date)
unfolding daterange_loop
In-daterange_loop zero day to_date d f a b = absurd (omega arith)
In-daterange_loop (suc fuel) day to_date d f a b = elim (dec_lt day d) [
  | yes p ↦
      rw (le→leb day to_date (omega arith))
        (inr (In-daterange_loop fuel (day + 1) to_date d (omega arith) (omega arith) b))
  | no p ↦ rw (le→leb day to_date (omega arith)) (inl (omega arith))
]

daterange_loop-In :
    (fuel day to_date d : ℕ) → In d (daterange_loop fuel day to_date) → (day ≤ d) × (d ≤ to_date)
unfolding daterange_loop
daterange_loop-In zero day to_date d m = elim m [ ]
daterange_loop-In (suc fuel) day to_date d m = elim (Bool-cases (leb day to_date)) [
  | inl y ↦ elim (rw y at m) [
    | inl e ↦ (omega arith, omega (arith, leb→le day to_date y))
    | inr k ↦ omega (arith, daterange_loop-In fuel (day + 1) to_date d k)
  ]
  | inr n ↦ absurd (rw n at m)
]

-- `_daterange` yields exactly the days of the closed window.
daterange_lem :
    (from_date to_date d : ℕ)
    → In d (daterange from_date to_date) ↔ ((from_date ≤ d) × (d ≤ to_date))
unfolding daterange
daterange_lem from_date to_date d = (
  daterange_loop-In _ from_date to_date d,
  λ h. In-daterange_loop _ from_date to_date d (omega arith) h.0 h.1,
)

-- A weekly event occurs in the window exactly on the wanted weekdays from its first date on.
pub occurrence_dates-weekly :
    (first_date w : ℕ) (ws : List ℕ) (from_date to_date d : ℕ)
    → In d (occurrence_dates first_date (w ∷ ws) from_date to_date)
      ↔ ((from_date ≤ d) × (d ≤ to_date) × (first_date ≤ d) × (mem (weekday d) (w ∷ ws) ≡ true))
unfolding occurrence_dates
occurrence_dates-weekly first_date w ws from_date to_date d = (
  λ m.
      let (i, h) = keep-In (λ day. mem (weekday day) (w ∷ ws)) d _ m in
      let (a, b) = (daterange_lem (max from_date first_date) to_date d).0 i in
      (omega arith, b, omega arith, h),
  λ h.
      In-keep (λ day. mem (weekday day) (w ∷ ws)) d _
        ((daterange_lem (max from_date first_date) to_date d).1 (omega arith, h.1)) h.3,
)

single_inside :
    (first_date from_date to_date d : ℕ)
    → (leb from_date first_date && leb first_date to_date) ≡ true
    → In d (first_date ∷ []) ↔ ((from_date ≤ d) × (d ≤ to_date) × (d ≡ first_date))
single_inside first_date from_date to_date d y =
    ((λ m. elim m [ inl e ↦ (ground arith, ground arith, e) | inr b ↦ absurd b ]), (λ h. inl h.2))

single_outside :
    (first_date from_date to_date d : ℕ)
    → (leb from_date first_date && leb first_date to_date) ≡ false
    → (from_date ≤ d) × (d ≤ to_date) × (d ≡ first_date)
    → ⊥
single_outside first_date from_date to_date d n h = ground arith

mem-head : (w : ℕ) (ws : List ℕ) → mem w (w ∷ ws) ≡ true
mem-head w ws = ground arith

some-inj : {a b : ℕ} → some a ≡ some b → a ≡ b
some-inj p = cc

anchored_from :
    {day reach found : ℕ} {wanted : List ℕ}
    → IsEarliest day reach wanted found
    → (d : ℕ) → day ≤ d
    → mem (weekday d) wanted ≡ true
    → found ≤ d
anchored_from {found = found} h d a b = elim (dec_lt d found) [
  | yes p ↦ absurd (true≢false (sym b ∙ h.least d a p))
  | no p ↦ omega arith
]

-- An occurrence that has both times, on one date, the end before the start.
abbrev pub EndsBeforeStart : OccurrenceView → Type 0
EndsBeforeStart v =
    (s : Local) × (f : Local) × (v.starts_at ≡ some s)
    × (v.ends_at ≡ some f)
    × (s.day ≡ f.day)
    × (f.clock < s.clock)

overnight_views :
    (s f : Local) (e : Event) (o : Option Local)
    → e.is_all_day ≡ false
    → f.clock < s.clock
    → (dates : List ℕ) → o ≡ some f
    → All EndsBeforeStart (map (view s o e) dates)
unfolding view
overnight_views s f e o timed earlier [] same = tt
overnight_views s f e o timed earlier (d ∷ ds) same = (
  (
    record { day = d; clock = s.clock },
    record { day = d; clock = f.clock },
    rw timed refl,
    rw (timed, same) refl,
    refl,
    earlier,
  ),
  overnight_views s f e o timed earlier ds same,
)

pub occurrence_dates-single :
    (first_date from_date to_date d : ℕ)
    → In d (occurrence_dates first_date [] from_date to_date)
      ↔ ((from_date ≤ d) × (d ≤ to_date) × (d ≡ first_date))
unfolding occurrence_dates
occurrence_dates-single first_date from_date to_date d =
    elim (Bool-cases (leb from_date first_date && leb first_date to_date)) [
      | inl y ↦ rw y (single_inside first_date from_date to_date d y)
      | inr n ↦ rw n ((λ m. absurd m), (λ h. single_outside first_date from_date to_date d n h))
    ]

-- On date `d` of a window, an event with this first date and these weekdays takes place.
abbrev pub OccursOn : ℕ → List ℕ → ℕ → Type 0
OccursOn first_date [] d = d ≡ first_date
OccursOn first_date (w ∷ ws) d = (first_date ≤ d) × (mem (weekday d) (w ∷ ws) ≡ true)

occurrence_dates_lem :
    (first_date : ℕ) (ws : List ℕ) (from_date to_date d : ℕ)
    → In d (occurrence_dates first_date ws from_date to_date)
      ↔ ((from_date ≤ d) × (d ≤ to_date) × OccursOn first_date ws d)
occurrence_dates_lem first_date [] from_date to_date d =
    occurrence_dates-single first_date from_date to_date d
occurrence_dates_lem first_date (w ∷ ws) from_date to_date d =
    let e = occurrence_dates-weekly first_date w ws from_date to_date d in
    ((λ m. let (a, b, c, h) = e.0 m in (a, b, (c, h))), (λ h. e.1 (h.0, h.1, h.2.0, h.2.1)))

map-view-dates :
    (s : Local) (f : Option Local) (e : Event) (dates : List ℕ)
    → map (λ v. v.occurrence_date) (map (view s f e) dates) ≡ dates
unfolding view
map-view-dates s f e [] = refl
map-view-dates s f e (d ∷ ds) = ap (λ l. d ∷ l) (map-view-dates s f e ds)

module _ (zones : Zones) where
  open zones use {Zone, to_local}

  -- An event is placed on a date of the closed window exactly when the date is its first local
  -- date (no weekdays), or not before that and on one of its weekdays.
  pub expand_event-exact :
      (e : Event) (tz : Zone) (from_date to_date d : ℕ)
      → In d (map (λ v. v.occurrence_date) (expand_event zones e tz from_date to_date)) ↔ (
          (from_date ≤ d)
          × (d ≤ to_date)
          × OccursOn (to_local tz e.starts_at).day (weekdays_of e) d)
  unfolding expand_event
  expand_event-exact e tz from_date to_date d =
      rw map-view-dates
        (occurrence_dates_lem (to_local tz e.starts_at).day (weekdays_of e) from_date to_date d)

  -- A weekly series whose first date is `first_weekday_on_or_after day` takes place on every
  -- wanted weekday from `day` on: anchoring at the first occurrence loses none.
  pub expand_event-anchored :
      (e : Event) (tz : Zone) (day to_date d w : ℕ) (ws : List ℕ)
      → weekdays_of e ≡ w ∷ ws
      → first_weekday_on_or_after day (w ∷ ws) ≡ some (to_local tz e.starts_at).day
      → w < 7
      → In d (map (λ v. v.occurrence_date) (expand_event zones e tz day to_date))
        ↔ ((day ≤ d) × (d ≤ to_date) × (mem (weekday d) (w ∷ ws) ≡ true))
  expand_event-anchored e tz day to_date d w ws same anchor lt =
      let (found, e1, first) = first_weekday-IsEarliest day (w ∷ ws) w lt (mem-head w ws) in
      let meets : (to_local tz e.starts_at).day ≡ found = some-inj (sym anchor ∙ e1) in
      let exact = expand_event-exact e tz day to_date d in
      (
        (λ m. let (a, b, c) = exact.0 m in (a, b, (rw same at c).1)),
        λ h. exact.1 (h.0, h.1, rw (same, meets) (anchored_from first d h.0 h.2, h.2)),
      )

  -- Where the event ends on a later local date at an earlier time of day, each of its occurrences
  -- ends before it starts, on the same date.
  pub expand_event-overnight :
      (e : Event) (tz : Zone) (from_date to_date i : ℕ)
      → e.is_all_day ≡ false
      → e.ends_at ≡ some i
      → (to_local tz e.starts_at).day < (to_local tz i).day
      → (to_local tz i).clock < (to_local tz e.starts_at).clock
      → All EndsBeforeStart (expand_event zones e tz from_date to_date)
  unfolding expand_event
  expand_event-overnight e tz from_date to_date i timed ends later earlier =
      overnight_views (to_local tz e.starts_at) (to_local tz i) e _ timed earlier
        (occurrence_dates (to_local tz e.starts_at).day (weekdays_of e) from_date to_date)
        (rw ends refl)
