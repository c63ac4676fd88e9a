-- ===== src/Google/WriteTests.antt =====
-- The theorems of the connector's runs and of the writes on the household of the other tests.
use nidaro.Base.{ℕ, String, ◌≡◌, refl, Bool, true, Option, none, some, List, [], ◌∷◌, All, ok}
use nidaro.Calendar.Tests.{utc_only}
use nidaro.Calendar.Zones.{resolve_timezone}
use nidaro.Connectors.Store.{State, SyncResult, get_ciphertext, credential_at}
use nidaro.Connectors.Credentials.{SecretBox, decrypt, get_secret}
use nidaro.Connectors.Cipher.{transparent}
use nidaro.Base.Sort.{sort, insert}
use nidaro.Google.Http.{is_valid, read_response, read_tokens}
use nidaro.Google.Client.{get_access_token, list_events, refresh, remember, request, token_request}
use nidaro.Google.Mapping.{connector_name, parse_when, to_external_record}
use nidaro.Google.Accounts.{Google, combine, credentials_for_household, list_for_household}
use nidaro.Google.Connector.{
  parse_cursor, stored_token, sync, sync_account, sync_account_resetting_stale_token, sync_pages,
  to_records,
}
use nidaro.Google.CursorText.{plain_json, plain_json-faithful}
use nidaro.Google.Resume.{Outcome, SavedFor, collected, none_left, sync_resumes, synced}
use nidaro.Google.Tests.{after_sync, anna, answered, empty_calendar, fresh, home, no_hash, served}

abbrev text_le : String → String → Bool
text_le a b = true

abbrev household_state : State (Google ℕ)
household_state = record {
  cursors = [];
  configs = [];
  credentials =
      record {
        household_id = 7;
        connector = connector_name;
        name = "anna@example.org";
        secret = transparent.fernet_encrypt "key" tt "refresh";
      }
      ∷ [];
  world = record {
    accounts =
        record {
          household_id = 7;
          google_email = "anna@example.org";
          calendar_id = "primary";
          granted_scopes = [];
        }
        ∷ [];
    calendar = empty_calendar;
    session = fresh;
  };
}

abbrev our_box : Option SecretBox
our_box = some (record { primary = "key"; previous = [] })

abbrev outcomes : List Outcome
outcomes = (anna, some (answered, "sync-1")) ∷ []

sync_resumes_example :
    (result : SyncResult) × ((sync utc_only no_hash served transparent our_box text_le plain_json 10
        home none household_state).0
      ≡ ok result)
    × (result.records ≡ collected outcomes)
    × All (SavedFor (parse_cursor plain_json result.next_cursor)) outcomes
unfolding credentials_for_household combine list_for_household sort insert get_secret get_ciphertext
    credential_at decrypt sync_account_resetting_stale_token sync_account sync_pages list_events
    request get_access_token refresh remember token_request read_tokens is_valid read_response
    to_records to_external_record parse_when resolve_timezone stored_token
sync_resumes_example =
    sync_resumes utc_only no_hash served transparent our_box text_le plain_json 10 home none
      household_state (anna ∷ []) outcomes after_sync plain_json-faithful refl
      (synced refl none_left) (tt, tt)
