-- ===== src/Icloud/Tests.antt =====
-- The theorems of the iCloud connector on one calendar: a changed resource, one that is gone without
-- an etag, and one that the server lists as deleted.
use nidaro.Base.{
  ℕ, suc, ◌+◌, String, ◌≡◌, refl, true, false, none, some, List, [], ◌∷◌, ◌++◌, arith,
  if◌then◌else◌, Result, ok, text_length,
}
use nidaro.Base.Assoc.{lookup}
use nidaro.Base.Sort.{insert, sort}
use nidaro.Calendar.Models.{fits_mirror}
use nidaro.Calendar.Tests.{utc_only}
use nidaro.Calendar.Models.{ExternalRecord, MirrorApplyReport, fields}
use nidaro.Calendar.Repository.{CalendarDb}
use nidaro.Calendar.Service.{apply_external_records}
use nidaro.Calendar.Mirror.Record.{IsUnique, mirrored, said_all}
use nidaro.Calendar.Zones.{resolve_timezone, weekday}
use nidaro.Connectors.Store.{ConnectorContext, SyncResult}
use nidaro.Icloud.Ics.{
  Component, IcsEvent, Texts, decode_events, decode_when, ics_utc, parse_events,
}
use nidaro.Icloud.Events.{
  Projection, content_hash, external_id, record_payload, series_weekdays, text_in,
}
use nidaro.Icloud.Session.{
  CalDav, FetchedIcs, SyncChanges, calendar_urls, fetch, merge_tombstones, replied, slices,
  sync_changes, translated,
}
use nidaro.Icloud.Connector.{
  CalendarEntry, StateJson, forget, mirrored_ids, records_of, sync, sync_calendar, sync_calendars,
  take_resources,
}
use nidaro.Icloud.Memory.{all_records, remembered, sync_calendar-memory, tombstones_of}
use nidaro.Icloud.Accepting.{sync_lands}

abbrev plain : Texts
plain = record {
  strip = λ t. t;
  upper = λ t. t;
  lower = λ t. t;
  order = λ a b. true;
  iso = λ n. "";
}

abbrev swimming : Component
swimming = record {
  uid = some "swim";
  dtstart = some (ics_utc (record { day = 8; clock = 3600 }));
  dtend = none;
  recurrence_id = none;
  status = none;
  summary = some "Swimming";
  description = none;
  location = none;
  rrule = some (("freq", "WEEKLY" ∷ []) ∷ ("byday", "TH" ∷ "MO" ∷ []) ∷ []);
}

abbrev one_event : String → Result (List Component)
one_event t = ok (swimming ∷ [])

abbrev no_hash : Projection plain utc_only → String
no_hash p = ""

abbrev server : CalDav ℕ
server = record {
  calendars = λ w. (replied ("cal" ∷ []), suc w);
  sync_report = λ url token w. (
    replied (record {
      changed = ("a.ics", some "1") ∷ ("b.ics", none) ∷ [];
      deleted = "c.ics" ∷ [];
      sync_token = some "t2";
    }),
    suc w,
  );
  multiget_report = λ url hrefs w. (replied (("a.ics", some "ICS") ∷ []), suc w);
  query_report = λ url w. (replied [], suc w);
}

abbrev family : ConnectorContext
family = record {
  household_id = 7;
  timezone = "UTC";
  credentials = ("apple_id", "eva") ∷ ("app_specific_password", "secret") ∷ [];
}

abbrev known : CalendarEntry
known = record {
  token = some "t1";
  items = ("a.ics", "run" ∷ []) ∷ ("b.ics", "chess" ∷ []) ∷ ("d.ics", "yoga" ∷ []) ∷ [];
}

abbrev no_events : CalendarDb
no_events = record {
  households = record { id = 7; timezone = "UTC" } ∷ [];
  members = [];
  events = [];
  next_id = 0;
}

abbrev none_there : IsUnique no_events
none_there h c x = omega arith

abbrev decoded : IcsEvent plain utc_only
decoded = record {
  uid = "swim";
  title = "Swimming";
  starts_at = record { zone = tt; instant = 694_800 };
  ends_at = none;
  is_all_day = false;
  description = none;
  location = none;
  status = "scheduled";
  recurrence_id = none;
  rrule = some (("freq", "WEEKLY" ∷ []) ∷ ("byday", "TH" ∷ "MO" ∷ []) ∷ []);
}

abbrev changes_seen : SyncChanges
changes_seen = record {
  changed = ("a.ics", "1") ∷ [];
  deleted = "c.ics" ∷ "b.ics" ∷ [];
  token = some "t2";
}

abbrev a_fetched : FetchedIcs
a_fetched = record { href = "a.ics"; ics = "ICS" }

sync_calendar-memory_example :
    (items : List (String × List String)) × (sync_calendar plain utc_only no_hash one_event 5 server
        family "cal" known 0
      ≡ (
        ok (
          tombstones_of 5 known.items ("c.ics" ∷ "b.ics" ∷ [])
              ++ all_records plain utc_only no_hash one_event 5 (("a.ics", decoded ∷ []) ∷ []),
          record { token = some "t2"; items = items },
        ),
        2,
      ))
    × ((href : String)
        → lookup href items
          ≡ remembered plain utc_only no_hash one_event 5 href
              (if text_in href ("c.ics" ∷ "b.ics" ∷ []) then none else lookup href known.items)
              (("a.ics", decoded ∷ []) ∷ []))
unfolding sync_changes fetch translated merge_tombstones slices parse_events decode_events
    decode_when resolve_timezone
sync_calendar-memory_example =
    sync_calendar-memory plain utc_only no_hash one_event 5 server family "cal" known 0 1 2
      changes_seen (a_fetched ∷ []) (("a.ics", decoded ∷ []) ∷ []) refl refl (refl, refl, tt)
      ((refl, tt), (tt, tt))

abbrev any_json : StateJson
any_json = record { dumps = λ s. "state"; loads = λ t. none }

abbrev swim_record : ExternalRecord
swim_record = record {
  connector = "icloud_calendar";
  external_type = "calendar_event";
  external_id = "swim";
  payload = fields (record {
    title = "Swimming";
    starts_at = 694_800;
    ends_at = none;
    description = none;
    location = none;
    is_all_day = false;
    recurrence_weekdays = some (0 ∷ 3 ∷ []);
  });
  content_hash = "";
  observed_at = 5;
  deleted = false;
}

abbrev run_result : SyncResult
run_result = record { records = swim_record ∷ []; next_cursor = some "state" }

sync_lands_example :
    (report : MirrorApplyReport) × ((apply_external_records 7 run_result.records no_events).0
      ≡ ok report)
    × (report.applied + report.removed + report.skipped ≡ 1)
    × ((c x : String)
        → mirrored 7 c x (apply_external_records 7 run_result.records no_events).1
          ≡ said_all c x (mirrored 7 c x no_events) run_result.records)
unfolding sync calendar_urls sync_calendars sync_calendar sync_changes fetch translated
    merge_tombstones slices parse_events decode_events decode_when resolve_timezone forget
    take_resources records_of mirrored_ids external_id record_payload series_weekdays content_hash
    weekday sort insert text_length fits_mirror
sync_lands_example =
    sync_lands plain utc_only no_hash one_event 5 (λ user password. server) any_json family none 0
      run_result 7 no_events refl none_there (refl, tt) refl
