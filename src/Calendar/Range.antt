-- ===== src/Calendar/Range.antt =====
-- The query window of `CalendarService.range` loses no occurrence, and the result is in order.
use mathlib.Core.List.{Perm}
use mathlib.Core.List.Perm
use native.Mathlib.Decide.{dec_lt}
use nidaro.Base.{
  ℕ, zero, suc, ◌+◌, ◌-◌, ◌≤◌, ◌<◌, ◌≡◌, refl, ap, Bool, true, false, ◌&&◌, List, [], ◌∷◌, arith,
  ok, keep, flat_map, ◌==◌, leb, ltb, inl, inr, ◌⊎◌, length, max, map, ◌↔◌, ◌||◌, subst,
}
use nidaro.Base.Sort.{sort-perm, sort-IsSorted, IsSorted, flat_map-sort-perm, flat_map-keep}
use nidaro.Calendar.Zones.{Zones, StartsAtMidnight}
use nidaro.Calendar.Models.{Event}
use nidaro.Calendar.Recurrence.{
  OccurrenceView, key_le, expand_event, expand_events, window_bounds, weekdays_of, validate_range,
  occurrence_dates, view, local_end, daterange, daterange_loop, max_range_days,
}
use nidaro.Calendar.Repository.{CalendarDb, in_window}
use nidaro.Calendar.Repository
use nidaro.Calendar.Service

daterange_loop-empty : (fuel a b : ℕ) → b < a → daterange_loop fuel a b ≡ []
unfolding daterange_loop
daterange_loop-empty zero a b h = refl
daterange_loop-empty (suc fuel) a b h = ground arith

occurrence_dates-empty :
    (first_date : ℕ) (ws : List ℕ) (from_date to_date : ℕ)
    → (to_date < first_date) ⊎ ((first_date < from_date) × (ws ≡ []))
    → occurrence_dates first_date ws from_date to_date ≡ []
unfolding occurrence_dates daterange
occurrence_dates-empty first_date [] from_date to_date (inl h) = ground arith
occurrence_dates-empty first_date [] from_date to_date (inr h) = ground arith
occurrence_dates-empty first_date (w ∷ ws) from_date to_date (inl h) = rw (
    daterange_loop-empty (suc to_date - max from_date first_date + 1) (max from_date first_date)
      to_date (omega arith))
occurrence_dates-empty first_date (w ∷ ws) from_date to_date (inr h) = cc

no_weekdays : (ws : List ℕ) → ltb 0 (length ws) ≡ false → ws ≡ []
no_weekdays [] h = refl
no_weekdays (w ∷ ws) h = ground arith

left_out :
    (mine : Bool) (s start end n : ℕ)
    → mine ≡ true
    → (mine && (ltb s end && (leb start s || ltb 0 n))) ≡ false
    → (end ≤ s) ⊎ ((s < start) × (ltb 0 n ≡ false))
left_out mine s start end n m h = ground arith

before-start : (i s d e : ℕ) → (i ≤ s) ↔ (d ≤ e) → s < i → e < d
before-start i s d e iff h = elim (dec_lt e d) [
  | yes p ↦ p
  | no p ↦ absurd (omega (arith, iff.1 (omega arith)))
]

not-ltb : (a b : ℕ) → b ≤ a → ltb a b ≡ false
not-ltb a b h = ground arith

key_le-total : (a b : OccurrenceView) → key_le a b ≡ false → key_le b a ≡ true
unfolding key_le
key_le-total a b h = ground arith

key_le_trans : (a b c : OccurrenceView) → key_le a b ≡ true → key_le b c ≡ true → key_le a c ≡ true
unfolding key_le
key_le_trans a b c h k = ground arith

module _ (zones : Zones) where
  open zones use {Zone, to_local, to_instant}

  -- An event of the household that the query leaves out has no occurrence in the window.
  outside-expand_event :
      (household from_date to_date : ℕ) (tz : Zone)
      → StartsAtMidnight zones tz from_date
      → StartsAtMidnight zones tz (to_date + 1)
      → (e : Event) → (e.household_id == household) ≡ true
      → in_window (window_bounds zones from_date to_date tz) household e ≡ false
      → expand_event zones e tz from_date to_date ≡ []
  unfolding in_window window_bounds expand_event
  outside-expand_event household from_date to_date tz first last e mine out =
      let end = last e.starts_at in
      let start = first e.starts_at in
      ap (map (view (to_local tz e.starts_at) (local_end zones tz e) e)) (
        occurrence_dates-empty (to_local tz e.starts_at).day (weekdays_of e) from_date to_date
          (elim (left_out (e.household_id == household) e.starts_at
            (to_instant tz (record { day = from_date; clock = 0 }))
            (to_instant tz (record { day = to_date + 1; clock = 0 })) (length (weekdays_of e)) mine
            out) [
              | inl late ↦ inl (omega (arith, end.0 late))
              | inr early ↦
                  inr (before-start _ _ _ _ start early.0, no_weekdays (weekdays_of e) early.1)
            ]))

  in_window-household :
      (bounds : ℕ × ℕ) (household : ℕ) (e : Event)
      → in_window bounds household e ≡ true
      → (e.household_id == household) ≡ true
  unfolding in_window
  in_window-household bounds household e h = ground arith

  abbrev occurrences : ℕ → ℕ → ℕ → CalendarDb → List Event → List OccurrenceView
  occurrences household from_date to_date db =
      flat_map (λ e.
        expand_event zones e (Service.household_timezone zones household db) from_date to_date)

  range-perm :
      (household from_date to_date : ℕ) (tz : Zone) (db : CalendarDb)
      → StartsAtMidnight zones tz from_date
      → StartsAtMidnight zones tz (to_date + 1)
      → Perm
          (expand_events zones
            (Repository.range zones household from_date to_date tz db)
            tz
            from_date
            to_date)
          (flat_map
            (λ e. expand_event zones e tz from_date to_date)
            (keep (λ e. e.household_id == household) db.events))
  unfolding expand_events Repository.range
  range-perm household from_date to_date tz db first last =
      let f = λ (e : Event). expand_event zones e tz from_date to_date in
      let window = in_window (window_bounds zones from_date to_date tz) household in
      Perm.trans (sort-perm key_le _) (
        Perm.trans (flat_map-sort-perm _ f (keep window db.events)) (
          subst (λ l. Perm (flat_map f (keep window db.events)) l)
            (flat_map-keep f (λ e. e.household_id == household) window
              (in_window-household (window_bounds zones from_date to_date tz) household)
              (outside-expand_event household from_date to_date tz first last) db.events)
            (Perm.refl _)))

  -- Where the household's zone starts the first day, and the day after the last, at midnight, a
  -- range of at most 62 days gives the occurrences of all of the household's events, each as
  -- often, in the order of date, wall clock and event. Nothing is written.
  pub range_complete :
      (household from_date to_date : ℕ) (db : CalendarDb)
      → to_date - from_date ≤ max_range_days
      → StartsAtMidnight zones (Service.household_timezone zones household db) from_date
      → StartsAtMidnight zones (Service.household_timezone zones household db) (to_date + 1)
      → (views : List OccurrenceView) × (Service.range zones household from_date to_date db
          ≡ (ok views, db))
        × Perm views (
            occurrences household from_date to_date db
              (keep (λ e. e.household_id == household) db.events))
        × IsSorted key_le views
  unfolding Service.range validate_range expand_events
  range_complete household from_date to_date db fits first last =
      let tz = Service.household_timezone zones household db in
      (
        expand_events zones (Repository.range zones household from_date to_date tz db) tz from_date
            to_date,
        rw (not-ltb max_range_days (to_date - from_date) fits) refl,
        range-perm household from_date to_date tz db first last,
        sort-IsSorted key_le key_le-total key_le_trans _,
      )
