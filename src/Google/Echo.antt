-- ===== src/Google/Echo.antt =====
-- Google's echo of a created event carries what the family asked for.
use nidaro.Base.{ℕ, ◌+◌, String, ◌≡◌, refl, Bool, true, false, Option, none, some, List, ok}
use nidaro.Calendar.Zones.{Zones, resolve_timezone}
use nidaro.Calendar.Models.{fields}
use nidaro.Google.Models.{GoogleAccountCredentials, GoogleEvent, Given}
use nidaro.Google.Identity.{external_id}
use nidaro.Google.Mapping.{to_external_record, midnight, parse_when, connector_name, external_type}
use nidaro.Google.Bodies.{build_event_body, to_aware, date_of, when_json}

module _ (zones : Zones) where
  open zones use {Zone, to_local, to_instant}

  -- The instant at which a given time is shown: an all-day one at the midnight of its date
  abbrev pub shown_at : Bool → Zone → Given Zone → ℕ
  shown_at false tz given = (to_aware zones given tz).instant
  shown_at true tz given = to_instant tz (midnight (date_of zones (to_aware zones given tz)))

  abbrev pub shown_end : Bool → Zone → Given Zone → Option (Given Zone) → Option ℕ
  shown_end is_all_day tz starts_at (some given) = some (shown_at is_all_day tz given)
  shown_end false tz starts_at none = none
  shown_end true tz starts_at none =
      some (to_instant tz (midnight (date_of zones (to_aware zones starts_at tz) + 1)))

  module _ (hash : GoogleEvent Zone → String) where
    -- The record that the sync makes of a created event, as Google returns it, has the title,
    -- description, location and times that were asked for: a timed event at its instants, an all-day
    -- event at the midnights of its dates, up to the next day where no end was given.
    pub record-build_event_body :
        (account : GoogleAccountCredentials) (event_id title : String) (starts_at : Given Zone)
        (ends_at : Option (Given Zone)) (description location : Option String) (is_all_day : Bool)
        (weekdays : Option (List ℕ)) (attendees : List String) (observed_at : ℕ) (timezone : String)
        → let tz = resolve_timezone zones (some timezone) in
          let body =
            build_event_body zones event_id title starts_at ends_at description location is_all_day
              weekdays attendees tz in
          to_external_record zones hash account body observed_at timezone
          ≡ ok (record {
            connector = connector_name;
            external_type = external_type;
            external_id = external_id account.email account.calendar_id event_id;
            payload = fields (record {
              title = title;
              starts_at = shown_at is_all_day tz starts_at;
              ends_at = shown_end is_all_day tz starts_at ends_at;
              description = description;
              location = location;
              is_all_day = is_all_day;
              recurrence_weekdays = none;
            });
            content_hash = hash body;
            observed_at = observed_at;
            deleted = false;
          })
    unfolding to_external_record build_event_body parse_when when_json
    record-build_event_body account event_id title starts_at none description location false
          weekdays attendees observed_at timezone =
        refl
    record-build_event_body account event_id title starts_at none description location true weekdays
          attendees observed_at timezone =
        refl
    record-build_event_body account event_id title starts_at (some e) description location false
          weekdays attendees observed_at timezone =
        refl
    record-build_event_body account event_id title starts_at (some e) description location true
          weekdays attendees observed_at timezone =
        refl
