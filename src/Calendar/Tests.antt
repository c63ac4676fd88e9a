-- ===== src/Calendar/Tests.antt =====
-- The theorems of the calendar at small inputs.
use mathlib.Core.List.{Perm}
use nidaro.Base.{
  ℕ, ◌+◌, ◌*◌, ◌/◌, ◌%◌, ◌≤◌, String, ◌≡◌, ◌↔◌, refl, true, false, List, [], ◌∷◌, map, none, some,
  arith, text_length, In, All, ok, err, validation_error, inl, inr, mem, flat_map, keep,
}
use nidaro.Base.Sort.{IsSorted}
use nidaro.Calendar.Zones.{Zones, weekday}
use nidaro.Calendar.Models.{
  fits_mirror, Event, EventPayload, ExternalRecord, MirrorApplyReport, fields, foreign,
  model_validate, is_mirror,
}
use nidaro.Calendar.Anchor.{IsEarliest, first_weekday-IsEarliest}
use nidaro.Calendar.Recurrence.{OccurrenceView, first_weekday_on_or_after, expand_event, key_le}
use nidaro.Calendar.Expansion.{
  OccursOn, EndsBeforeStart, expand_event-exact, expand_event-anchored, expand_event-overnight,
}
use nidaro.Calendar.Repository.{CalendarDb}
use nidaro.Calendar.Service
use nidaro.Calendar.Service.{apply_external_records}
use nidaro.Calendar.Range.{range_complete}
use nidaro.Calendar.Mirror.Record.{IsUnique, mirrored, said_all}
use nidaro.Calendar.Mirror.Batch.{apply_complete, apply_aborts}
use nidaro.Calendar.Mirror.Scope.{is_outside, apply_leaves_others, apply_idempotent}

-- One zone without an offset, in seconds.
utc_midnight : (day i : ℕ) → (day * 86400 + 0 ≤ i) ↔ (day ≤ i / 86400)
utc_midnight day i = ((λ h. omega arith), (λ h. omega arith))

abbrev pub utc_only : Zones
utc_only = record {
  Zone = Unit {0};
  utc = tt;
  zone_info = λ name. some tt;
  to_local = λ z i. record { day = i / 86400; clock = i % 86400 };
  to_instant = λ z l. l.day * 86400 + l.clock;
}

-- Mondays and Thursdays from day 8 (a Monday) on, from 22:00 to 01:00 of the next day.
abbrev practice : Event
practice = record {
  id = 1;
  household_id = 7;
  external_connector = none;
  external_id = none;
  title = "Volleyball practice";
  description = none;
  starts_at = 8 * 86400 + 79200;
  ends_at = some (9 * 86400 + 3600);
  is_all_day = false;
  recurrence_weekdays = some (0 ∷ 3 ∷ []);
  location = none;
  status = "scheduled";
  participants = [];
}

abbrev dentist : Event
dentist = record practice {
  id = 2;
  recurrence_weekdays = none;
  starts_at = 9 * 86400;
  ends_at = none;
}

abbrev payload : EventPayload
payload = record {
  title = "Concert";
  starts_at = 900000;
  ends_at = none;
  description = none;
  location = none;
  is_all_day = false;
  recurrence_weekdays = none;
}

abbrev concert : ExternalRecord
concert = record {
  connector = "google_calendar";
  external_type = "calendar_event";
  external_id = "a/primary/1";
  payload = fields payload;
  content_hash = "";
  observed_at = 0;
  deleted = false;
}

abbrev called_off : ExternalRecord
called_off = record concert { deleted = true; payload = foreign }

abbrev malformed : ExternalRecord
malformed = record concert { payload = foreign }

abbrev family : CalendarDb
family = record {
  households = record { id = 7; timezone = "UTC" } ∷ [];
  members = [];
  events = practice ∷ dentist ∷ [];
  next_id = 3;
}

family-IsUnique : IsUnique family
unfolding is_mirror
family-IsUnique h c x = ground arith

concert_validates : model_validate (fields payload) ≡ ok payload
unfolding model_validate
concert_validates = refl

concert_fits : fits_mirror "google_calendar" "a/primary/1" payload ≡ true
unfolding fits_mirror text_length
concert_fits = refl

first_weekday-IsFirst_example :
    (found : ℕ) × (first_weekday_on_or_after 5 (3 ∷ []) ≡ some found)
    × IsEarliest 5 7 (3 ∷ []) found
first_weekday-IsFirst_example = first_weekday-IsEarliest 5 (3 ∷ []) 3 (omega arith) refl

expand_event-exact_example :
    In 11 (map (λ v. v.occurrence_date) (expand_event utc_only practice tt 9 20))
    ↔ ((9 ≤ 11) × (11 ≤ 20) × OccursOn 8 (0 ∷ 3 ∷ []) 11)
expand_event-exact_example = expand_event-exact utc_only practice tt 9 20 11

anchor : first_weekday_on_or_after 5 (0 ∷ 3 ∷ []) ≡ some 8
unfolding first_weekday_on_or_after weekday
anchor = refl

expand_event-anchored_example :
    In 11 (map (λ v. v.occurrence_date) (expand_event utc_only practice tt 5 20))
    ↔ ((5 ≤ 11) × (11 ≤ 20) × (mem (weekday 11) (0 ∷ 3 ∷ []) ≡ true))
expand_event-anchored_example =
    expand_event-anchored utc_only practice tt 5 20 11 0 (3 ∷ []) refl anchor (omega arith)

expand_event-overnight_example : All EndsBeforeStart (expand_event utc_only practice tt 8 20)
expand_event-overnight_example =
    expand_event-overnight utc_only practice tt 8 20 (9 * 86400 + 3600) refl refl (omega arith)
      (omega arith)

range_complete_example :
    (views : List OccurrenceView) × (Service.range utc_only 7 8 20 family ≡ (ok views, family))
    × Perm views (flat_map (λ e. expand_event utc_only e tt 8 20) (practice ∷ dentist ∷ []))
    × IsSorted key_le views
range_complete_example =
    range_complete utc_only 7 8 20 family (omega arith) (utc_midnight 8) (utc_midnight 21)

apply_complete_example :
    (report : MirrorApplyReport) × ((apply_external_records 7
        (concert ∷ called_off ∷ concert ∷ [])
        family).0
      ≡ ok report)
    × (report.applied + report.removed + report.skipped ≡ 3)
    × ((c x : String)
        → mirrored 7 c x (apply_external_records 7 (concert ∷ called_off ∷ concert ∷ []) family).1
          ≡ said_all c x (mirrored 7 c x family) (concert ∷ called_off ∷ concert ∷ []))
    × IsUnique (apply_external_records 7 (concert ∷ called_off ∷ concert ∷ []) family).1
apply_complete_example =
    apply_complete 7 (concert ∷ called_off ∷ concert ∷ []) family family-IsUnique
      (
        inr (inr (payload, concert_validates)),
        (inl refl, (inr (inr (payload, concert_validates)), tt)),
      )
      (concert_fits, (refl, (concert_fits, tt))) refl

malformed_refused : model_validate malformed.payload ≡ err validation_error
unfolding model_validate
malformed_refused = refl

apply_aborts_example :
    apply_external_records 7 (concert ∷ malformed ∷ called_off ∷ []) family
    ≡ (err validation_error, (apply_external_records 7 (concert ∷ []) family).1)
apply_aborts_example =
    apply_aborts 7 (concert ∷ []) (called_off ∷ []) malformed validation_error family
      (inr (inr (payload, concert_validates)), tt) (concert_fits, tt) refl refl refl
      (inl malformed_refused)

apply_leaves_others_example :
    keep (is_outside 7) (apply_external_records 7 (concert ∷ malformed ∷ []) family).1.events
    ≡ practice ∷ dentist ∷ []
apply_leaves_others_example = apply_leaves_others 7 (concert ∷ malformed ∷ []) family

apply_idempotent_example :
    let once = (apply_external_records 7 (concert ∷ called_off ∷ []) family).1 in
    (report : MirrorApplyReport) × ((apply_external_records 7 (concert ∷ called_off ∷ []) once).0
      ≡ ok report)
    × ((c x : String)
        → mirrored 7 c x (apply_external_records 7 (concert ∷ called_off ∷ []) once).1
          ≡ mirrored 7 c x once)
apply_idempotent_example =
    apply_idempotent 7 (concert ∷ called_off ∷ []) family family-IsUnique
      (inr (inr (payload, concert_validates)), (inl refl, tt)) (concert_fits, (refl, tt)) refl
