-- ===== src/Calendar/Service.antt =====
-- service.py: the calendar as the other parts of the program use it.
use nidaro.Base.{
  ℕ, ◌+◌, ◌-◌, String, not, List, [], ◌∷◌, Option, none, some, str_eq, ◌==◌, if◌then◌else◌, Exec,
  pure, lift, gets, ◌>>=◌, ◌>>◌,
}
use nidaro.Base.Table.{find}
use nidaro.Calendar.Zones.{Zones, resolve_timezone}
use nidaro.Calendar.Models.{Event, ExternalRecord, Household, MirrorApplyReport, model_validate}
use nidaro.Calendar.Recurrence.{OccurrenceView, validate_range, expand_events}
use nidaro.Calendar.Repository
use nidaro.Calendar.Repository.{CalendarDb, CreateEventRequest, upsert_mirror, remove_mirror}

abbrev pub no_changes : MirrorApplyReport
no_changes = record { applied = 0; removed = 0; skipped = 0 }

abbrev pub calendar_event : String
calendar_event = "calendar_event"

-- One round of the loop of `apply_external_records`.
unfoldable pub apply_record :
    ℕ → MirrorApplyReport → ExternalRecord → Exec CalendarDb MirrorApplyReport
unfolding remove_mirror upsert_mirror
apply_record household report r =
    if r.deleted
    then (do
      existed ← remove_mirror household r.connector r.external_id
      pure (
          if existed
          then record report { removed = report.removed + 1 }
          else record report { skipped = report.skipped + 1 }))
    else if not (str_eq r.external_type calendar_event)
    then pure (record report { skipped = report.skipped + 1 })
    else (do
      payload ← lift (model_validate r.payload)
      upsert_mirror household r.connector r.external_id payload
      pure (record report { applied = report.applied + 1 }))

unfoldable pub apply_from :
    ℕ → MirrorApplyReport → List ExternalRecord → Exec CalendarDb MirrorApplyReport
apply_from household report [] = pure report
apply_from household report (r ∷ records) =
    apply_record household report r >>= λ next. apply_from household next records

unfoldable pub apply_external_records : ℕ → List ExternalRecord → Exec CalendarDb MirrorApplyReport
unfolding apply_from
apply_external_records household records = apply_from household no_changes records

unfoldable pub get_mirror : ℕ → String → String → CalendarDb → Option Event
get_mirror household connector external db =
    Repository.get_by_external_identity household connector external db

unfoldable pub create_event : CreateEventRequest → Exec CalendarDb Event
create_event request = Repository.create request

-- The time zone name of the household, if there is one.
abbrev pub timezone_of : Option Household → Option String
timezone_of none = none
timezone_of (some h) = some h.timezone

module _ (zones : Zones) where
  open zones use {Zone, to_local}

  unfoldable pub household_timezone : ℕ → CalendarDb → Zone
  household_timezone household db =
      resolve_timezone zones (timezone_of (find (λ h. h.id == household) db.households))

  unfoldable pub range : ℕ → ℕ → ℕ → Exec CalendarDb (List OccurrenceView)
  unfolding household_timezone
  range household from_date to_date = do
    lift (validate_range from_date to_date)
    tz ← gets (household_timezone household)
    events ← gets (Repository.range zones household from_date to_date tz)
    pure (expand_events zones events tz from_date to_date)

  -- `now` is the clock's reading.
  unfoldable pub get_upcoming_events : ℕ → ℕ → ℕ → Exec CalendarDb (List OccurrenceView)
  unfolding household_timezone range
  get_upcoming_events now household days = do
    tz ← gets (household_timezone household)
    range household (to_local tz now).day ((to_local tz now).day + days - 1)
