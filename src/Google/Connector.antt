-- ===== src/Google/Connector.antt =====
-- connector.py: GoogleCalendarConnector. The loop over the pages of one account runs on fuel, the
-- most pages that a listing may have. The JSON text of the cursor is a parameter, and so is the hash
-- of an event.
use nidaro.Base.{
  ℕ, zero, suc, ◌-◌, String, Bool, Option, none, some, List, [], ◌∷◌, ◌++◌, str_eq, if◌then◌else◌,
  Exn, Result, ok, err, Exec, pure, raise, lift, gets, try_except, ◌>>=◌,
}
use nidaro.Base.{stale_cursor, invalid_grant, google_api_error, out_of_fuel}
use nidaro.Base.Assoc.{lookup, put}
use nidaro.Calendar.Zones.{Zones, resolve_timezone}
use nidaro.Calendar.Models.{ExternalRecord}
use nidaro.Connectors.Store.{ConnectorContext, State, SyncResult}
use nidaro.Connectors.Service.{in_world}
use nidaro.Connectors.Credentials.{Fernet, SecretBox}
use nidaro.Google.Models.{GoogleAccountCredentials, GoogleEvent}
use nidaro.Google.Http.{Session, Transport}
use nidaro.Google.Client.{list_events}
use nidaro.Google.Accounts.{Google, credentials_for_household, in_session}
use nidaro.Google.Mapping.{to_external_record}

pub record GoogleCursorEntry : Type 0 where
  pub calendar_id : String
  pub sync_token : String

abbrev pub GoogleSyncCursor : Type 0
GoogleSyncCursor = List (String × GoogleCursorEntry)

-- `model_dump_json` and `model_validate_json` of the cursor; `none` is a ValidationError.
pub record CursorJson : Type 0 where
  pub dump : GoogleSyncCursor → String
  pub validate : String → Option GoogleSyncCursor

abbrev or_no_accounts : Option GoogleSyncCursor → GoogleSyncCursor
or_no_accounts none = []
or_no_accounts (some c) = c

abbrev pub parse_cursor : CursorJson → Option String → GoogleSyncCursor
parse_cursor json none = []
parse_cursor json (some text) = or_no_accounts (json.validate text)

abbrev pub full_sync_days : ℕ
full_sync_days = 365

abbrev pub token_in : Option GoogleCursorEntry → String → Option String
token_in none calendar_id = none
token_in (some stored) calendar_id =
    if str_eq stored.calendar_id calendar_id then some stored.sync_token else none

-- The sync token that an account continues from
unfoldable pub stored_token : GoogleSyncCursor → GoogleAccountCredentials → Option String
stored_token state account = token_in (lookup account.email state) account.calendar_id

abbrev pub Gathered : Type 0
Gathered = List ExternalRecord × GoogleSyncCursor

-- What the loop over the accounts makes of one account's outcome
abbrev pub noted :
    GoogleAccountCredentials → Gathered → Result (List ExternalRecord × String) → Result Gathered
noted account (records, entries) (ok (fresh, token)) = ok (
  records ++ fresh,
  put account.email (record { calendar_id = account.calendar_id; sync_token = token }) entries,
)
noted account gathered (err invalid_grant) = ok gathered
noted account gathered (err e) = err e

abbrev pub cursor_text : CursorJson → GoogleSyncCursor → Option String
cursor_text json [] = none
cursor_text json (entry ∷ entries) = some (json.dump (entry ∷ entries))

-- The first failure of a generator over the events is the failure of the whole.
abbrev pub added :
    Result ExternalRecord → Result (List ExternalRecord) → Result (List ExternalRecord)
added (err e) rest = err e
added (ok r) (err e) = err e
added (ok r) (ok rs) = ok (r ∷ rs)

module _ (zones : Zones) where
  open zones use {Zone, to_local, to_instant}

  abbrev year_before : Zone → ℕ → ℕ
  year_before tz now =
      let wall = to_local tz now in
      to_instant tz (record { day = wall.day - full_sync_days; clock = wall.clock })

  -- A bound on the past for a full sync only
  abbrev pub time_min : Option String → Zone → ℕ → Option ℕ
  time_min none tz now = some (year_before tz now)
  time_min (some token) tz now = none

  module _ (hash : GoogleEvent Zone → String) where
    unfoldable pub to_records :
        GoogleAccountCredentials
        → ℕ
        → String
        → List (GoogleEvent Zone)
        → Result (List ExternalRecord)
    to_records account observed_at timezone [] = ok []
    to_records account observed_at timezone (event ∷ events) =
        added (to_external_record zones hash account event observed_at timezone)
          (to_records account observed_at timezone events)

    module _ {N : Type 0} (google : Transport Zone N) where
      abbrev finished :
          List ExternalRecord → Option String → Exec (Session N) (List ExternalRecord × String)
      finished records none = raise google_api_error
      finished records (some sync_token) = pure (records, sync_token)

      abbrev turn_page :
          (String → Exec (Session N) (List ExternalRecord × String))
          → List ExternalRecord
          → Option String
          → Option String
          → Exec (Session N) (List ExternalRecord × String)
      turn_page continue records none next_sync_token = finished records next_sync_token
      turn_page continue records (some page_token) next_sync_token = continue page_token

      -- The loop of `_sync_account`
      unfoldable pub sync_pages :
          ℕ
          → GoogleAccountCredentials
          → Option String
          → Option ℕ
          → ℕ
          → String
          → Option String
          → List ExternalRecord
          → Exec (Session N) (List ExternalRecord × String)
      sync_pages zero account sync_token bound observed_at timezone page_token records =
          raise out_of_fuel
      sync_pages (suc n) account sync_token bound observed_at timezone page_token records = do
        page ← list_events google account sync_token page_token bound
        fresh ← lift (to_records account observed_at timezone page.events)
        turn_page
            (λ next.
              sync_pages n account sync_token bound observed_at timezone (some next)
                (records ++ fresh))
            (records ++ fresh) page.next_page_token page.next_sync_token

      unfoldable pub sync_account :
          ℕ
          → ConnectorContext
          → GoogleAccountCredentials
          → Option String
          → ℕ
          → Exec (Session N) (List ExternalRecord × String)
      sync_account limit context account sync_token observed_at s =
          sync_pages limit account sync_token
            (time_min sync_token (resolve_timezone zones (some context.timezone))
              (google.clock s.net))
            observed_at context.timezone none [] s

      -- `except StaleCursorError`
      abbrev on_stale_token :
          ℕ
          → ConnectorContext
          → GoogleAccountCredentials
          → ℕ
          → Exn
          → Exec (Session N) (List ExternalRecord × String)
      on_stale_token limit context account observed_at stale_cursor =
          sync_account limit context account none observed_at
      on_stale_token limit context account observed_at e = raise e

      unfoldable pub sync_account_resetting_stale_token :
          ℕ
          → ConnectorContext
          → GoogleAccountCredentials
          → Option String
          → ℕ
          → Exec (Session N) (List ExternalRecord × String)
      sync_account_resetting_stale_token limit context account sync_token observed_at =
          try_except (sync_account limit context account sync_token observed_at)
            (on_stale_token limit context account observed_at)

      abbrev pub sync_one :
          ℕ
          → ConnectorContext
          → GoogleSyncCursor
          → ℕ
          → GoogleAccountCredentials
          → Gathered
          → Exec (Session N) Gathered
      sync_one limit context state observed_at account gathered s =
          let out =
            sync_account_resetting_stale_token limit context account (stored_token state account)
              observed_at s in
          (noted account gathered out.0, out.1)

      unfoldable pub sync_accounts :
          ℕ
          → ConnectorContext
          → GoogleSyncCursor
          → ℕ
          → List GoogleAccountCredentials
          → Gathered
          → Exec (Session N) Gathered
      sync_accounts limit context state observed_at [] gathered = pure gathered
      sync_accounts limit context state observed_at (account ∷ accounts) gathered =
          sync_one limit context state observed_at account gathered >>= λ next.
          sync_accounts limit context state observed_at accounts next

      unfoldable pub sync :
          {Nonce : Type 0}
          → Fernet Nonce
          → Option SecretBox
          → (String → String → Bool)
          → CursorJson
          → ℕ
          → ConnectorContext
          → Option String
          → Exec (State (Google N)) SyncResult
      sync F box order json limit context cursor = do
        accounts ← credentials_for_household F box order context.household_id
        observed_at ← in_world (gets (λ g. google.clock g.session.net))
        gathered ← in_world (
            in_session (
              sync_accounts limit context (parse_cursor json cursor) observed_at accounts ([], [])))
        pure (record { records = gathered.0; next_cursor = cursor_text json gathered.1 })
