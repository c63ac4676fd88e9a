-- ===== src/Google/Merge.antt =====
-- What the update of a fetched event keeps and what it changes.
use nidaro.Base.{
  String, ◌≡◌, refl, inl, inr, Bool, true, false, not, Option, none, some, ◌≢◌, Bool-cases, Result,
  ok,
}
use nidaro.Calendar.Zones.{Zones}
use nidaro.Google.Models.{GoogleEvent, UpdateFields, When, on_date, at_time, Moment, Given}
use nidaro.Google.Mapping.{parse_when}
use nidaro.Google.Bodies.{
  changed, merge_event_update, on_whole_day, switches, switched, moved, new_start, base_of,
  when_json,
}

module _ (zones : Zones) where
  open zones use {Zone, to_local, to_instant}

  abbrev pub wanted : Option Bool → Bool → Bool
  wanted none current = current
  wanted (some is_all_day) current = is_all_day

  not_switched :
      (o : Option Bool) (current : Bool)
      → switches zones o current ≡ false
      → wanted o current ≡ current
  not_switched none current e = refl
  not_switched (some true) true e = refl
  not_switched (some true) false e = cc
  not_switched (some false) true e = cc
  not_switched (some false) false e = refl

  does_switch :
      (o : Option Bool) (current : Bool)
      → switches zones o current ≡ true
      → wanted o current ≡ not current
  does_switch none current e = cc
  does_switch (some true) true e = cc
  does_switch (some true) false e = refl
  does_switch (some false) true e = refl
  does_switch (some false) false e = cc

  -- What an update leaves as it was fetched, texts that were not given included
  abbrev pub Keeps : GoogleEvent Zone → UpdateFields Zone → GoogleEvent Zone → Type 0
  Keeps old f new =
      (new.id ≡ old.id)
      × (new.status ≡ old.status)
      × (new.attendees ≡ old.attendees)
      × (new.recurrence ≡ old.recurrence)
      × (new.extended_properties ≡ old.extended_properties)
      × (f.title ≡ none → new.summary ≡ old.summary)
      × (f.description ≡ none → new.description ≡ old.description)
      × (f.location ≡ none → new.location ≡ old.location)

  abbrev pub InMode : Bool → GoogleEvent Zone → Type 0
  InMode is_all_day e =
      (on_whole_day zones e.start ≡ is_all_day) × (on_whole_day zones e.end_at ≡ is_all_day)

  moved-mode :
      (o : Option (Given Zone)) (w : Option (When Zone)) (tz : Zone) (mode : Bool)
      → on_whole_day zones w ≡ mode
      → on_whole_day zones (moved zones o w tz) ≡ mode
  unfolding when_json
  moved-mode none w tz mode e = e
  moved-mode (some g) none tz mode e = e
  moved-mode (some g) (some (on_date d)) tz mode e = e
  moved-mode (some g) (some (at_time m)) tz mode e = e

  new_start-some :
      (o : Option (Given Zone)) (w : Option (When Zone)) (tz : Zone)
      → w ≢ none
      → (m : Moment Zone) × (new_start zones o w tz ≡ some m)
  unfolding parse_when
  new_start-some (some g) w tz h = (_, refl)
  new_start-some none none tz h = absurd (h refl)
  new_start-some none (some (on_date d)) tz h = (_, refl)
  new_start-some none (some (at_time m)) tz h = (_, refl)

  changed-none : (o old : Option String) → o ≡ none → changed o old ≡ old
  changed-none none old e = refl
  changed-none (some a) old e = cc

  base_of-Keeps :
      (existing : GoogleEvent Zone) (f : UpdateFields Zone)
      → Keeps existing f (base_of zones existing f)
  base_of-Keeps existing f = (
    refl,
    refl,
    refl,
    refl,
    refl,
    changed-none f.title existing.summary,
    changed-none f.description existing.description,
    changed-none f.location existing.location,
  )

  abbrev Merged : GoogleEvent Zone → UpdateFields Zone → Bool → Result (GoogleEvent Zone) → Type 0
  Merged existing f mode r =
      (new : GoogleEvent Zone) × (r ≡ ok new) × InMode mode new × Keeps existing f new

  switched-Merged :
      (existing : GoogleEvent Zone) (f : UpdateFields Zone) (mode : Bool) (m : Moment Zone)
      → Merged existing f mode (switched zones (base_of zones existing f) mode (some m))
  unfolding when_json
  switched-Merged existing f false m = (_, refl, (refl, refl), base_of-Keeps existing f)
  switched-Merged existing f true m = (_, refl, (refl, refl), base_of-Keeps existing f)

  -- An update of a fetched event that has a start and an end, both dates or both times, completes.
  -- The result is of the mode that was asked for, or else of the event's own, at both ends; it keeps
  -- the texts that were not given, and the identity, guests, rules and markers in any case; and in a
  -- change of the mode the end that was asked for makes no difference.
  pub merge_event_update-modes :
      (existing : GoogleEvent Zone) (f : UpdateFields Zone) (tz : Zone) (st : When Zone)
      → existing.start ≡ some st
      → on_whole_day zones existing.end_at ≡ on_whole_day zones existing.start
      → let mode = wanted f.is_all_day (on_whole_day zones existing.start) in
        ((new : GoogleEvent Zone) × (merge_event_update zones existing f tz ≡ ok new)
          × InMode mode new
          × Keeps existing f new)
        × (mode ≢ on_whole_day zones existing.start
            → (ends_at : Option (Given Zone))
            → merge_event_update zones existing (record f { ends_at = ends_at }) tz
              ≡ merge_event_update zones existing f tz)
  unfolding merge_event_update parse_when when_json
  merge_event_update-modes existing f tz st e agree =
      elim (Bool-cases (switches zones f.is_all_day (on_whole_day zones existing.start))) [
        | inl y ↦
            let (m, starts) = new_start-some f.starts_at existing.start tz (λ n. cc) in
            rw (y, starts, does_switch f.is_all_day (on_whole_day zones existing.start) y)
              (
                switched-Merged existing f (not (on_whole_day zones existing.start)) m,
                (λ ne ends_at. refl),
              )
        | inr n ↦
            let same = not_switched f.is_all_day (on_whole_day zones existing.start) n in
            rw (n, same)
              (
                (
                  _,
                  refl,
                  (
                    moved-mode f.starts_at existing.start tz _ refl,
                    moved-mode f.ends_at existing.end_at tz _ agree,
                  ),
                  base_of-Keeps existing f,
                ),
                (λ ne. absurd (ne refl)),
              )
      ]
