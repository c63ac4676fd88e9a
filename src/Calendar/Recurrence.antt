-- ===== src/Calendar/Recurrence.antt =====
-- recurrence.py: read-time expansion of events to occurrences by date arithmetic.
use nidaro.Base.{
  ℕ, zero, suc, ◌+◌, ◌-◌, max, String, Bool, true, false, ◌&&◌, ◌||◌, List, [], ◌∷◌, map, Option,
  none, some, Result, ok, err, value_error, ltb, leb, ◌==◌, mem, keep, flat_map, if◌then◌else◌,
}
use nidaro.Base.Sort.{sort}
use nidaro.Calendar.Zones.{Local, Zones, weekday}
use nidaro.Calendar.Models.{Event}

abbrev pub max_range_days : ℕ
max_range_days = 62

pub record OccurrenceView : Type 0 where
  pub event_id : ℕ
  pub occurrence_date : ℕ
  pub title : String
  pub location : Option String
  pub participant_ids : List ℕ
  pub is_all_day : Bool
  pub starts_at : Option Local
  pub ends_at : Option Local

-- The `while` loop, a day a round.
unfoldable pub seek_weekday : ℕ → ℕ → List ℕ → Option ℕ
unfolding weekday
seek_weekday zero candidate wanted = none
seek_weekday (suc fuel) candidate wanted =
    let rest = seek_weekday fuel (candidate + 1) wanted in
    if mem (weekday candidate) wanted then some candidate else rest

-- A wanted weekday turns up within seven days, so seven rounds are enough; with no weekday in
-- 0..6 the code's loop does not end, and the result is `none`.
unfoldable pub first_weekday_on_or_after : ℕ → List ℕ → Option ℕ
unfolding seek_weekday
first_weekday_on_or_after day weekdays = seek_weekday 7 day weekdays

unfoldable pub validate_range : ℕ → ℕ → Result (Unit {0})
validate_range from_date to_date =
    if ltb max_range_days (to_date - from_date) then err value_error else ok tt

-- `_daterange`, with a round for each day of the window and one to stop.
unfoldable pub daterange_loop : ℕ → ℕ → ℕ → List ℕ
daterange_loop zero day to_date = []
daterange_loop (suc fuel) day to_date =
    let rest = daterange_loop fuel (day + 1) to_date in if leb day to_date then day ∷ rest else []

unfoldable pub daterange : ℕ → ℕ → List ℕ
unfolding daterange_loop
daterange from_date to_date = daterange_loop (suc to_date - from_date + 1) from_date to_date

abbrev pub weekdays_of : Event → List ℕ
weekdays_of e = elim e.recurrence_weekdays [ none ↦ [] | some days ↦ days ]

abbrev is_empty : List ℕ → Bool
is_empty [] = true
is_empty (x ∷ xs) = false

-- The occurrence of an event on one date.
unfoldable pub view : Local → Option Local → Event → ℕ → OccurrenceView
view start_local end_local e date = record {
  event_id = e.id;
  occurrence_date = date;
  title = e.title;
  location = e.location;
  participant_ids = sort leb e.participants;
  is_all_day = e.is_all_day;
  starts_at =
      if e.is_all_day then none else some (record { day = date; clock = start_local.clock });
  ends_at =
      if e.is_all_day
      then none
      else elim end_local [ none ↦ none | some l ↦ some (record { day = date; clock = l.clock }) ];
}

-- The dates on which an event with this first date occurs in the window.
unfoldable pub occurrence_dates : ℕ → List ℕ → ℕ → ℕ → List ℕ
unfolding daterange weekday
occurrence_dates first_date weekdays from_date to_date =
    if is_empty weekdays
    then (if leb from_date first_date && leb first_date to_date then first_date ∷ [] else [])
    else keep (λ day. mem (weekday day) weekdays) (daterange (max from_date first_date) to_date)

-- `_sort_key` and its order
abbrev wall_clock : OccurrenceView → ℕ
wall_clock v = elim v.starts_at [ none ↦ 0 | some l ↦ l.clock ]

unfoldable pub key_le : OccurrenceView → OccurrenceView → Bool
key_le a b =
    ltb a.occurrence_date b.occurrence_date
    || (a.occurrence_date == b.occurrence_date
        && (ltb (wall_clock a) (wall_clock b)
            || (wall_clock a == wall_clock b && leb a.event_id b.event_id)))

module _ (zones : Zones) where
  open zones use {Zone, to_local, to_instant}

  -- The window's calendar days as instants, without the end.
  unfoldable pub window_bounds : ℕ → ℕ → Zone → ℕ × ℕ
  window_bounds from_date to_date tz = (
    to_instant tz (record { day = from_date; clock = 0 }),
    to_instant tz (record { day = to_date + 1; clock = 0 }),
  )

  abbrev pub local_end : Zone → Event → Option Local
  local_end tz e = elim e.ends_at [ none ↦ none | some i ↦ some (to_local tz i) ]

  unfoldable pub expand_event : Event → Zone → ℕ → ℕ → List OccurrenceView
  expand_event e tz from_date to_date =
      map (view (to_local tz e.starts_at) (local_end tz e) e)
        (occurrence_dates (to_local tz e.starts_at).day (weekdays_of e) from_date to_date)

  unfoldable pub expand_events : List Event → Zone → ℕ → ℕ → List OccurrenceView
  expand_events events tz from_date to_date =
      sort key_le (flat_map (λ e. expand_event e tz from_date to_date) events)
