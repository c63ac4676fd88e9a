-- ===== src/Google/Tests.antt =====
-- The theorems of the Google connector on a household with one account, whose calendar Google serves
-- in two pages.
use nidaro.Base.{
  ℕ, suc, ◌+◌, ◌≤◌, ◌<◌, String, ◌≡◌, refl, true, false, Option, none, some, List, [], ◌∷◌, arith,
  str_eq, ◌==◌, if◌then◌else◌, length, ok, ◌≢◌, text_length,
}
use nidaro.Base.Assoc.{lookup}
use nidaro.Calendar.Models.{fits_mirror}
use nidaro.Calendar.Zones.{resolve_timezone}
use nidaro.Calendar.Tests.{utc_only}
use nidaro.Calendar.Models.{fields, ExternalRecord, MirrorApplyReport}
use nidaro.Calendar.Repository.{CalendarDb}
use nidaro.Calendar.Service.{apply_external_records}
use nidaro.Calendar.Mirror.Record.{IsUnique, mirrored}
use nidaro.Connectors.Store.{ConnectorContext}
use nidaro.Google.Models.{
  GoogleAccountCredentials, GoogleEvent, Given, UpdateFields, on_date, at_time,
}
use nidaro.Google.Http.{
  Body, Request, Session, Transport, Endpoint, event_list, event_item, primary_calendar,
  empty_event, read_response, read_tokens, is_valid, access_token_margin,
}
use nidaro.Google.Client.{get_access_token, list_events, request, refresh, remember, token_request}
use nidaro.Google.Identity.{external_id, split_external_id, split-external_id}
use nidaro.Google.Mapping.{tombstone, external_type, to_external_record, parse_when, connector_name}
use nidaro.Google.Bodies.{merge_event_update}
use nidaro.Google.Connector.{to_records, sync_account}
use nidaro.Google.Merge.{InMode, Keeps, merge_event_update-modes}
use nidaro.Google.Tokens.{Expires, get_access_token-reuse}
use nidaro.Google.Pages.{last_page, more_pages}
use nidaro.Google.Landing.{latest, sync_account-mirrors}

abbrev pub anna : GoogleAccountCredentials
anna = record {
  email = "anna@example.org";
  calendar_id = "primary";
  scopes = [];
  refresh_token = "refresh";
}

abbrev pub choir : GoogleEvent (Unit {0})
choir = record empty_event {
  id = some "choir";
  summary = some "Choir";
  start = some (at_time (record { zone = tt; instant = 700_000 }));
  end_at = some (at_time (record { zone = tt; instant = 707_200 }));
}

abbrev pub choir_cancelled : GoogleEvent (Unit {0})
choir_cancelled = record empty_event { id = some "choir"; status = some "cancelled" }

abbrev pub holiday : GoogleEvent (Unit {0})
holiday = record empty_event {
  id = some "holiday";
  summary = some "Holiday";
  start = some (on_date 12);
  end_at = some (on_date 14);
}

abbrev pub first_page : Body (Unit {0})
first_page = record {
  items = choir ∷ holiday ∷ [];
  next_page_token = some "2";
  next_sync_token = none;
  resource = empty_event;
}

abbrev pub second_page : Body (Unit {0})
second_page = record {
  items = choir_cancelled ∷ [];
  next_page_token = none;
  next_sync_token = some "sync-1";
  resource = empty_event;
}

abbrev pub as_event : GoogleEvent (Unit {0}) → Body (Unit {0})
as_event event = record {
  items = [];
  next_page_token = none;
  next_sync_token = none;
  resource = event;
}

abbrev pub echo : Option (GoogleEvent (Unit {0})) → Body (Unit {0})
echo none = as_event choir
echo (some event) = as_event event

abbrev pub answer_to : Endpoint → Request (Unit {0}) → Body (Unit {0})
answer_to (event_list calendar_id) r =
    if str_eq r.method "POST"
    then echo r.json
    else if length r.params == 4
    then second_page
    else first_page
answer_to (event_item calendar_id event_id) r = echo r.json
answer_to primary_calendar r = echo none

-- The world counts the exchanges; its clock stands still.
abbrev pub served : Transport (Unit {0}) ℕ
served = record {
  configured = true;
  http_request =
      λ r n. (ok (record { status_code = 200; content = some (answer_to r.endpoint r) }), suc n);
  token_post = λ grant n. (
    ok (record {
      token_status = 200;
      error_detail = "";
      access_token = "access";
      expires_in = 3600;
      new_refresh_token = some "refresh";
      scope = [];
    }),
    suc n,
  );
  clock = λ n. 40_000_000;
}

abbrev pub fresh : Session ℕ
fresh = record { tokens = []; net = 0 }

abbrev pub no_hash : GoogleEvent (Unit {0}) → String
no_hash event = ""

abbrev pub empty_calendar : CalendarDb
empty_calendar = record {
  households = record { id = 7; timezone = "UTC" } ∷ [];
  members = [];
  events = [];
  next_id = 0;
}

abbrev pub nobody_there : IsUnique empty_calendar
nobody_there h c x = omega arith

abbrev pub home : ConnectorContext
home = record { household_id = 7; timezone = "UTC"; credentials = [] }

get_access_token-reuse_example :
    let after = (get_access_token served "refresh" fresh).1 in
    ((expires : ℕ) × Expires served "refresh" "access" fresh after expires
      × ((n : ℕ)
          → 40_000_000 + access_token_margin < expires
          → get_access_token served "refresh" (record after { net = n })
            ≡ (ok "access", record after { net = n }))
      × ((n : ℕ)
          → expires ≤ 40_000_000 + access_token_margin
          → get_access_token served "refresh" (record after { net = n })
            ≡ refresh served "refresh" (record after { net = n })))
    × ((k : String) → str_eq "refresh" k ≡ false → lookup k after.tokens ≡ lookup k fresh.tokens)
unfolding get_access_token refresh remember token_request read_tokens is_valid
get_access_token-reuse_example = get_access_token-reuse served "refresh" "access" fresh refl

split-external_id_example :
    (split_external_id (external_id "anna@example.org" "primary" "choir")
      ≡ ok ("anna@example.org", ("primary", "choir")))
    × ((composite a b d : String)
        → split_external_id composite ≡ ok (a, (b, d))
        → external_id a b d ≡ composite)
split-external_id_example =
    split-external_id "anna@example.org" "primary" "choir" refl refl refl refl refl

abbrev no_changes_asked : UpdateFields (Unit {0})
no_changes_asked = record {
  title = none;
  description = none;
  location = none;
  starts_at = none;
  ends_at = none;
  is_all_day = none;
}

abbrev to_timed : UpdateFields (Unit {0})
to_timed = record no_changes_asked { is_all_day = some false }

merge_event_update-modes_example :
    ((new : GoogleEvent (Unit {0})) × (merge_event_update utc_only holiday to_timed tt ≡ ok new)
      × InMode utc_only false new
      × Keeps utc_only holiday to_timed new)
    × (false ≢ true
        → (ends_at : Option (Given (Unit {0})))
        → merge_event_update utc_only holiday (record to_timed { ends_at = ends_at }) tt
          ≡ merge_event_update utc_only holiday to_timed tt)
merge_event_update-modes_example =
    merge_event_update-modes utc_only holiday to_timed tt (on_date 12) refl refl

abbrev pub choir_record : ExternalRecord
choir_record = record {
  connector = connector_name;
  external_type = external_type;
  external_id = external_id "anna@example.org" "primary" "choir";
  payload = fields (record {
    title = "Choir";
    starts_at = 700_000;
    ends_at = some 707_200;
    description = none;
    location = none;
    is_all_day = false;
    recurrence_weekdays = none;
  });
  content_hash = "";
  observed_at = 40_000_000;
  deleted = false;
}

abbrev pub holiday_record : ExternalRecord
holiday_record = record choir_record {
  external_id = external_id "anna@example.org" "primary" "holiday";
  payload = fields (record {
    title = "Holiday";
    starts_at = 1_036_800;
    ends_at = some 1_209_600;
    description = none;
    location = none;
    is_all_day = true;
    recurrence_weekdays = none;
  });
}

abbrev pub gone_record : ExternalRecord
gone_record = tombstone (external_id "anna@example.org" "primary" "choir") 40_000_000

abbrev pub answered : List ExternalRecord
answered = choir_record ∷ holiday_record ∷ gone_record ∷ []

abbrev pub after_sync : Session ℕ
after_sync = record {
  tokens = ("refresh", record { token = "access"; expires_at = 3_640_000_000 }) ∷ [];
  net = 3;
}

sync_account-mirrors_example :
    (sync_account utc_only no_hash served 10 home anna none 40_000_000 fresh
      ≡ (ok (answered, "sync-1"), after_sync))
    × ((report : MirrorApplyReport) × ((apply_external_records 7 answered empty_calendar).0
          ≡ ok report)
        × (report.applied + report.removed + report.skipped ≡ 3))
    × ((id : String)
        → let x = external_id "anna@example.org" "primary" id in
          mirrored 7 connector_name x (apply_external_records 7 answered empty_calendar).1
          ≡ latest utc_only no_hash tt id
              (mirrored 7 connector_name x empty_calendar)
              (choir ∷ holiday ∷ choir_cancelled ∷ []))
unfolding list_events request get_access_token refresh remember token_request read_tokens is_valid
    read_response to_records to_external_record parse_when resolve_timezone text_length fits_mirror
    external_id
sync_account-mirrors_example =
    sync_account-mirrors utc_only no_hash served 10 2 home anna none 40_000_000 fresh after_sync
      (choir ∷ holiday ∷ choir_cancelled ∷ []) "sync-1" answered 7 empty_calendar
      (more_pages refl refl (last_page refl refl refl)) (omega arith) refl nobody_there
      (refl, (refl, (refl, tt))) refl
