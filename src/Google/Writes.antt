-- ===== src/Google/Writes.antt =====
-- writes.py: GoogleCalendarWriteService, which writes to Google and lands the answer in the calendar.
use nidaro.Base.{
  ℕ, String, Bool, true, false, ◌&&◌, Option, none, some, List, [], ◌∷◌, str_eq, ◌==◌,
  if◌then◌else◌, Exn, Result, ok, err, Exec, pure, raise, lift, gets, try_except, ◌>>=◌,
}
use Prim.Native.String.{◌++◌ as concat}
use nidaro.Base.{
  is_truthy, google_write_error, google_conflict, no_google_account, precondition_failed,
}
use nidaro.Base.Table.{find}
use nidaro.Calendar.Zones.{Zones, resolve_timezone}
use nidaro.Calendar.Models.{Event, ExternalRecord}
use nidaro.Calendar.Repository.{CalendarDb}
use nidaro.Calendar.Service.{apply_external_records, get_mirror, timezone_of}
use nidaro.Connectors.Store.{State}
use nidaro.Connectors.Service.{in_world}
use nidaro.Connectors.Credentials.{Fernet, SecretBox}
use nidaro.Google.Models.{GoogleAccountCredentials, GoogleEvent, Given, UpdateFields}
use nidaro.Google.Identity.{split_external_id}
use nidaro.Google.Http.{Session, Transport}
use nidaro.Google.Client.{
  delete_event as delete_on_google, get_event, insert_event, update_event as update_on_google,
}
use nidaro.Google.Accounts.{Google, credentials_for_household, in_calendar, in_session}
use nidaro.Google.Mapping.{connector_name, to_external_record, tombstone}
use nidaro.Google.Bodies.{build_event_body, merge_event_update}

-- `CreateEventRequest`, with its times as they were given
pub record CreateRequest (Zone : Type 0) : Type 0 where
  pub title : String
  pub starts_at : Given Zone
  pub ends_at : Option (Given Zone)
  pub description : Option String
  pub location : Option String
  pub is_all_day : Bool
  pub recurrence_weekdays : Option (List ℕ)

-- `hex` is the random part.
abbrev pub new_google_event_id : String → String
new_google_event_id hex = concat "nidaro" hex

abbrev pub recurs : Option (List ℕ) → Bool
recurs none = false
recurs (some []) = false
recurs (some (day ∷ days)) = true

abbrev pub first_of : List GoogleAccountCredentials → Result GoogleAccountCredentials
first_of [] = err no_google_account
first_of (account ∷ accounts) = ok account

abbrev pub is_account : String → String → GoogleAccountCredentials → Bool
is_account email calendar_id account =
    str_eq account.email email && str_eq account.calendar_id calendar_id

abbrev pub matching : Option GoogleAccountCredentials → Result GoogleAccountCredentials
matching none = err no_google_account
matching (some account) = ok account

-- The name that `_land` maps with
abbrev pub or_utc : Option String → String
or_utc none = "UTC"
or_utc (some name) = if is_truthy name then name else "UTC"

abbrev pub for_guests : List String → Option String
for_guests [] = none
for_guests (guest ∷ guests) = some "all"

abbrev pub landed_or : Option Event → Result Event
landed_or none = err google_write_error
landed_or (some mirror) = ok mirror

abbrev pub conflict : Exn → Exn
conflict precondition_failed = google_conflict
conflict e = e

abbrev pub household_timezone : ℕ → CalendarDb → Option String
household_timezone household db = timezone_of (find (λ h. h.id == household) db.households)

unfoldable pub land_record : ℕ → ExternalRecord → Exec CalendarDb Event
land_record household record_made = do
  report ← apply_external_records household (record_made ∷ [])
  mirror ← gets (get_mirror household connector_name record_made.external_id)
  lift (landed_or mirror)

module _ (zones : Zones) where
  open zones use {Zone}

  -- The body that a creation sends
  abbrev pub requested : String → CreateRequest Zone → List String → Zone → GoogleEvent Zone
  requested hex request attendees tz =
      build_event_body zones (new_google_event_id hex) request.title request.starts_at
        request.ends_at request.description request.location request.is_all_day
        request.recurrence_weekdays attendees tz

  module _ (hash : GoogleEvent Zone → String) {N : Type 0} (google : Transport Zone N) where
    abbrev pub in_google : {A : Type 0} → Exec (Session N) A → Exec (State (Google N)) A
    in_google m = in_world (in_session m)

    -- `_land`
    unfoldable pub land : ℕ → GoogleAccountCredentials → GoogleEvent Zone → Exec (Google N) Event
    land household account event g =
        let mapped =
          to_external_record zones hash account event (google.clock g.session.net)
            (or_utc (household_timezone household g.calendar)) in
        (lift mapped >>= λ made. in_calendar (land_record household made)) g

    module _ {Nonce : Type 0} (F : Fernet Nonce) (box : Option SecretBox)
        (order : String → String → Bool) where
      abbrev pub zone_of : ℕ → State (Google N) → Zone
      zone_of household s = resolve_timezone zones (household_timezone household s.world.calendar)

      unfoldable pub create_event :
          String → ℕ → CreateRequest Zone → List String → Exec (State (Google N)) Event
      create_event hex household request attendees =
          if recurs request.recurrence_weekdays then raise google_write_error else (do
            accounts ← credentials_for_household F box order household
            account ← lift (first_of accounts)
            tz ← gets (zone_of household)
            google_event ← in_google (
                insert_event google account (requested hex request attendees tz)
                  (for_guests attendees))
            in_world (land household account google_event))

      -- `_account_for`
      unfoldable pub account_for :
          ℕ → String → Exec (State (Google N)) (GoogleAccountCredentials × String)
      account_for household external_id = do
        parts ← lift (split_external_id external_id)
        accounts ← credentials_for_household F box order household
        account ← lift (matching (find (is_account parts.0 parts.1.0) accounts))
        pure (account, parts.1.1)

      unfoldable pub update_event : ℕ → String → UpdateFields Zone → Exec (State (Google N)) Event
      update_event household external_id changes = do
        found ← account_for household external_id
        tz ← gets (zone_of household)
        existing ← in_google (get_event google found.0 found.1)
        body ← lift (merge_event_update zones existing changes tz)
        updated ←
            try_except (in_google (update_on_google google found.0 found.1 body existing.etag))
              (λ e. raise (conflict e))
        in_world (land household found.0 updated)

      unfoldable pub delete_event : ℕ → String → Exec (State (Google N)) Bool
      delete_event household external_id = do
        found ← account_for household external_id
        done ← in_google (delete_on_google google found.0 found.1)
        observed_at ← gets (λ s. google.clock s.world.session.net)
        report ← in_world (
            in_calendar (apply_external_records household (tombstone external_id observed_at ∷ [])))
        pure (report.removed == 1)
