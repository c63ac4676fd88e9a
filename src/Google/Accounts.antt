-- ===== src/Google/Accounts.antt =====
-- accounts.py: the table of consented accounts, and their refresh tokens in the credentials of the
-- connector framework.
use nidaro.Base.{
  ℕ, String, Bool, ◌&&◌, Option, none, some, List, [], ◌∷◌, str_eq, ◌==◌, if◌then◌else◌, is_some,
  keep, Result, ok, err, Exec, pure, raise, lift, modify, ◌>>=◌, ◌>>◌,
}
use nidaro.Base.{is_truthy, value_error, google_connection_error}
use nidaro.Base.Table.{find, save, remove}
use nidaro.Base.Sort.{sort}
use nidaro.Calendar.Repository.{CalendarDb}
use nidaro.Connectors.Store.{State, delete_credential}
use nidaro.Connectors.Service.{in_world}
use nidaro.Connectors.Credentials.{Fernet, SecretBox, get_secret, set_secret}
use nidaro.Google.Models.{GoogleCalendarAccount, GoogleAccountCredentials}
use nidaro.Google.Http.{Session, Transport, TokenReply, authorization_code}
use nidaro.Google.Client.{on_net, token_request, primary_calendar_for_token}
use nidaro.Google.Mapping.{connector_name}

-- The accounts, the calendar and the client's session, beside the connector tables
pub record Google (N : Type 0) : Type 0 where
  pub accounts : List GoogleCalendarAccount
  pub calendar : CalendarDb
  pub session : Session N

-- The WHERE clause of `_row`
unfoldable pub account_at : ℕ → String → GoogleCalendarAccount → Bool
account_at household email r = r.household_id == household && str_eq r.google_email email

abbrev email_le : (String → String → Bool) → GoogleCalendarAccount → GoogleCalendarAccount → Bool
email_le order a b = order a.google_email b.google_email

abbrev or_no_scopes : Option (List String) → List String
or_no_scopes none = []
or_no_scopes (some scopes) = scopes

abbrev pub paired : GoogleCalendarAccount → Option String → Result GoogleAccountCredentials
paired row none = err value_error
paired row (some refresh_token) = ok (record {
  email = row.google_email;
  calendar_id = row.calendar_id;
  scopes = row.granted_scopes;
  refresh_token = refresh_token;
})

module _ {N : Type 0} where
  -- GoogleCalendarAccountRepository
  unfoldable pub get_account : ℕ → String → Google N → Option GoogleCalendarAccount
  get_account household email g = find (account_at household email) g.accounts

  -- `order` is the database's order of texts.
  unfoldable pub list_for_household :
      (String → String → Bool) → ℕ → Google N → List GoogleCalendarAccount
  list_for_household order household g =
      sort (email_le order) (keep (λ r. r.household_id == household) g.accounts)

  unfoldable pub upsert_account : ℕ → String → String → List String → Google N → Google N
  upsert_account household email calendar_id granted_scopes g = record g {
    accounts =
        save (account_at household email)
          (record {
            household_id = household;
            google_email = email;
            calendar_id = calendar_id;
            granted_scopes = granted_scopes;
          })
          (λ r. record r { calendar_id = calendar_id; granted_scopes = granted_scopes }) g.accounts;
  }

  unfoldable pub delete_account : ℕ → String → Exec (Google N) Bool
  delete_account household email g = (
    ok (is_some (find (account_at household email) g.accounts)),
    record g { accounts = remove (account_at household email) g.accounts },
  )

  abbrev pub in_session : {A : Type 0} → Exec (Session N) A → Exec (Google N) A
  in_session m g = ((m g.session).0, record g { session = (m g.session).1 })

  -- A client of its own, with no tokens yet
  abbrev in_own_session : {A : Type 0} → Exec (Session N) A → Exec (Google N) A
  in_own_session m g =
      let own : Session N = record { tokens = []; net = g.session.net } in
      ((m own).0, record g { session = record { tokens = g.session.tokens; net = (m own).1.net } })

  abbrev pub in_calendar : {A : Type 0} → Exec CalendarDb A → Exec (Google N) A
  in_calendar m g = ((m g.calendar).0, record g { calendar = (m g.calendar).1 })

module _ {Nonce N : Type 0} (F : Fernet Nonce) (box : Option SecretBox) where
  -- GoogleCalendarAccountService
  unfoldable pub register :
      Nonce
      → ℕ
      → String
      → String
      → String
      → Option (List String)
      → Exec (State (Google N)) (Unit {0})
  unfolding upsert_account
  register draw household email refresh_token calendar_id granted_scopes = do
    set_secret F box draw household connector_name email refresh_token
    in_world (modify (upsert_account household email calendar_id (or_no_scopes granted_scopes)))

  -- The loop of `credentials_for_household`
  unfoldable pub combine :
      ℕ → List GoogleCalendarAccount → Exec (State (Google N)) (List GoogleAccountCredentials)
  combine household [] = pure []
  combine household (row ∷ rows) = do
    secret ← get_secret F box household connector_name row.google_email
    account ← lift (paired row secret)
    others ← combine household rows
    pure (account ∷ others)

  unfoldable pub credentials_for_household :
      (String → String → Bool) → ℕ → Exec (State (Google N)) (List GoogleAccountCredentials)
  unfolding combine list_for_household
  credentials_for_household order household s =
      combine household (list_for_household order household s.world) s

  -- Drop the credential and the row.
  unfoldable pub forget : ℕ → String → Exec (State (Google N)) Bool
  unfolding delete_account
  forget household email = do
    dropped ← delete_credential household connector_name email
    in_world (delete_account household email)

  module _ {Zone : Type 0} (google : Transport Zone N) where
    -- The end of `complete_connection`, once the account is known
    abbrev connect_as :
        Nonce → ℕ → String → List String → Option String → Exec (State (Google N)) (Unit {0})
    unfolding register
    connect_as draw household refresh_token scope none = raise google_connection_error
    connect_as draw household refresh_token scope (some email) =
        if is_truthy email
        then register draw household email refresh_token "primary" (some scope)
        else raise google_connection_error

    abbrev connect_with :
        Nonce → ℕ → TokenReply → Option String → Exec (State (Google N)) (Unit {0})
    connect_with draw household tokens none = raise google_connection_error
    connect_with draw household tokens (some refresh_token) = do
      calendar ← in_world (in_own_session (primary_calendar_for_token google refresh_token))
      connect_as draw household refresh_token tokens.scope calendar.id

    unfoldable pub complete_connection : Nonce → ℕ → String → Exec (State (Google N)) (Unit {0})
    unfolding register
    complete_connection draw household code = do
      tokens ←
          in_world (in_session (on_net google (token_request google (authorization_code code))))
      connect_with draw household tokens tokens.new_refresh_token
