-- ===== src/Google/Mapping.antt =====
-- mapping.py: from Google's event JSON to the records of a sync. The hash of the canonical JSON is a
-- parameter on the fields that go into it.
use nidaro.Base.{
  ℕ, String, Bool, true, false, Option, none, some, List, if◌then◌else◌, Result, ok, err,
}
use nidaro.Base.{value_error, holds_text}
use nidaro.Base.Sort.{sort}
use nidaro.Calendar.Zones.{Local, Zones, resolve_timezone}
use nidaro.Calendar.Models.{ExternalRecord, fields, foreign}
use nidaro.Google.Models.{
  GoogleAccountCredentials, GoogleEvent, Moment, When, on_date, at_time, Recurrence,
}
use nidaro.Google.Identity.{external_id}

abbrev pub connector_name : String
connector_name = "google_calendar"

abbrev pub external_type : String
external_type = "calendar_event"

abbrev pub or_empty : Option String → String
or_empty none = ""
or_empty (some t) = t

abbrev pub midnight : ℕ → Local
midnight day = record { day = day; clock = 0 }

abbrev pub tombstone : String → ℕ → ExternalRecord
tombstone identity observed_at = record {
  connector = connector_name;
  external_type = external_type;
  external_id = identity;
  payload = foreign;
  content_hash = "";
  observed_at = observed_at;
  deleted = true;
}

module _ (zones : Zones) where
  open zones use {Zone, to_local, to_instant}

  -- The fields that `content_hash` reads
  pub record Semantic : Type 0 where
    pub attendees : List String
    pub extended_properties : Option String
    pub description : Option String
    pub end_at : Option (When Zone)
    pub location : Option String
    pub recurrence : List Recurrence
    pub start : Option (When Zone)
    pub status : Option String
    pub summary : Option String

  -- `order` is that of Python's texts, `digest` the hash of the canonical JSON.
  unfoldable pub content_hash :
      (String → String → Bool) → (Semantic → String) → GoogleEvent Zone → String
  content_hash order digest event = digest (record {
    attendees = sort order event.attendees;
    extended_properties = event.extended_properties;
    description = event.description;
    end_at = event.end_at;
    location = event.location;
    recurrence = event.recurrence;
    start = event.start;
    status = event.status;
    summary = event.summary;
  })

  unfoldable pub parse_when : Option (When Zone) → Zone → Option (Moment Zone) × Bool
  parse_when none tz = (none, false)
  parse_when (some (on_date day)) tz =
      (some (record { zone = tz; instant = to_instant tz (midnight day) }), true)
  parse_when (some (at_time moment)) tz = (some moment, false)

  abbrev pub instant_of : Option (Moment Zone) → Option ℕ
  instant_of none = none
  instant_of (some m) = some m.instant

  module _ (hash : GoogleEvent Zone → String) where
    abbrev pub live :
        String
        → GoogleEvent Zone
        → ℕ
        → Option (Moment Zone) × Bool
        → Option (Moment Zone)
        → Result ExternalRecord
    live identity event observed_at (none, is_all_day) ends_at = err value_error
    live identity event observed_at (some starts_at, is_all_day) ends_at = ok (record {
      connector = connector_name;
      external_type = external_type;
      external_id = identity;
      payload = fields (record {
        title = or_empty event.summary;
        starts_at = starts_at.instant;
        ends_at = instant_of ends_at;
        description = event.description;
        location = event.location;
        is_all_day = is_all_day;
        recurrence_weekdays = none;
      });
      content_hash = hash event;
      observed_at = observed_at;
      deleted = false;
    })

    abbrev pub is_cancelled : GoogleEvent Zone → Bool
    is_cancelled event = holds_text event.status "cancelled"

    unfoldable pub to_external_record :
        GoogleAccountCredentials → GoogleEvent Zone → ℕ → String → Result ExternalRecord
    unfolding parse_when
    to_external_record account event observed_at timezone =
        let identity = external_id account.email account.calendar_id (or_empty event.id) in
        let tz = resolve_timezone zones (some timezone) in
        if is_cancelled event
        then ok (tombstone identity observed_at)
        else live identity event observed_at (parse_when event.start tz)
            (parse_when event.end_at tz).0
