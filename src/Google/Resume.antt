-- ===== src/Google/Resume.antt =====
-- Where the next run of the connector continues: the cursor that a run leaves.
use nidaro.Base.{
  ℕ, String, ◌≡◌, refl, sym, ap, ◌∙◌, subst, Bool, false, Option, none, some, List, [], ◌∷◌, ◌++◌,
  arith, str_eq, eq_iff, All, flat_map, ok, err,
}
use nidaro.Base.{invalid_grant}
use mathlib.Core.List.{append_assoc, append-nil}
use nidaro.Base.Assoc.{lookup, put, lookup-put_self, lookup-put_ne}
use nidaro.Calendar.Zones.{Zones}
use nidaro.Calendar.Models.{ExternalRecord}
use nidaro.Connectors.Store.{ConnectorContext, State, SyncResult}
use nidaro.Connectors.Credentials.{Fernet, SecretBox}
use nidaro.Google.Models.{GoogleAccountCredentials, GoogleEvent}
use nidaro.Google.Http.{Session, Transport}
use nidaro.Google.Accounts.{Google, credentials_for_household}
use nidaro.Google.Connector.{
  CursorJson, GoogleCursorEntry, GoogleSyncCursor, cursor_text, parse_cursor, stored_token,
  sync_account_resetting_stale_token, sync_accounts, sync,
}

-- An account with the records and the sync token of its pass, none where it must reconnect
abbrev pub Outcome : Type 0
Outcome = GoogleAccountCredentials × Option (List ExternalRecord × String)

abbrev records_of : Option (List ExternalRecord × String) → List ExternalRecord
records_of none = []
records_of (some (records, token)) = records

abbrev pub collected : List Outcome → List ExternalRecord
collected os = flat_map (λ o. records_of o.1) os

abbrev pub token_of : Option (List ExternalRecord × String) → Option String
token_of none = none
token_of (some (records, token)) = some token

abbrev entry_of : GoogleAccountCredentials → String → GoogleCursorEntry
entry_of account token = record { calendar_id = account.calendar_id; sync_token = token }

abbrev entered : GoogleSyncCursor → List Outcome → GoogleSyncCursor
entered entries [] = entries
entered entries ((account, none) ∷ os) = entered entries os
entered entries ((account, some (records, token)) ∷ os) =
    entered (put account.email (entry_of account token) entries) os

-- No two accounts have the same address.
abbrev pub Distinct : List Outcome → Type 0
Distinct [] = Unit
Distinct (o ∷ os) = All (λ p. str_eq o.0.email p.0.email ≡ false) os × Distinct os

abbrev pub SavedFor : GoogleSyncCursor → Outcome → Type 0
SavedFor entries (account, outcome) = stored_token entries account ≡ token_of outcome

abbrev Unknown : GoogleSyncCursor → Outcome → Type 0
Unknown entries o = lookup o.0.email entries ≡ none

other_way : (a b : String) → str_eq a b ≡ false → str_eq b a ≡ false
other_way a b h = ground (arith, eq_iff a b, eq_iff b a)

entered_others :
    (k : String) (entries : GoogleSyncCursor) (os : List Outcome)
    → All (λ p. str_eq k p.0.email ≡ false) os
    → lookup k (entered entries os) ≡ lookup k entries
entered_others k entries [] h = refl
entered_others k entries ((account, none) ∷ os) (h, hs) = entered_others k entries os hs
entered_others k entries ((account, some (records, token)) ∷ os) (h, hs) =
    entered_others k (put account.email (entry_of account token) entries) os hs
    ∙ lookup-put_ne account.email k (entry_of account token) entries (other_way k account.email h)

Unknown-put :
    (a : String) (e : GoogleCursorEntry) (entries : GoogleSyncCursor) (os : List Outcome)
    → All (λ p. str_eq a p.0.email ≡ false) os
    → All (Unknown entries) os
    → All (Unknown (put a e entries)) os
Unknown-put a e entries [] h u = tt
Unknown-put a e entries (o ∷ os) (h, hs) (u, us) =
    (lookup-put_ne a o.0.email e entries h ∙ u, Unknown-put a e entries os hs us)

entered-SavedFor :
    (entries : GoogleSyncCursor) (os : List Outcome)
    → Distinct os
    → All (Unknown entries) os
    → All (SavedFor (entered entries os)) os
unfolding stored_token
entered-SavedFor entries [] d u = tt
entered-SavedFor entries ((account, none) ∷ os) (d, ds) (u, us) =
    (rw (entered_others account.email entries os d ∙ u) refl, entered-SavedFor entries os ds us)
entered-SavedFor entries ((account, some (records, token)) ∷ os) (d, ds) (u, us) = (
  rw
      (
        entered_others account.email (put account.email (entry_of account token) entries) os d
            ∙ lookup-put_self account.email (entry_of account token) entries,
        (eq_iff account.calendar_id account.calendar_id).1 refl,
      )
      refl,
  entered-SavedFor (put account.email (entry_of account token) entries) os ds
      (Unknown-put account.email (entry_of account token) entries os d us),
)

parse-cursor_text :
    (json : CursorJson) (entries : GoogleSyncCursor)
    → ((c : GoogleSyncCursor) → json.validate (json.dump c) ≡ some c)
    → parse_cursor json (cursor_text json entries) ≡ entries
parse-cursor_text json [] faithful = refl
parse-cursor_text json (e ∷ entries) faithful = rw (faithful (e ∷ entries)) refl

module _ (zones : Zones) (hash : GoogleEvent zones.Zone → String) {N : Type 0}
    (google : Transport zones.Zone N) where
  -- One pass over the accounts, each of which either is synced, also after its token was refused as
  -- stale, or must reconnect
  pub data Outcomes (limit : ℕ) (context : ConnectorContext) (state : GoogleSyncCursor) (at : ℕ)
      : List GoogleAccountCredentials → Session N → List Outcome → Session N → Type 0 where
    none_left : {s : Session N} → Outcomes limit context state at [] s [] s
    synced :
        {account : GoogleAccountCredentials} {accounts : List GoogleAccountCredentials}
        {s between after : Session N} {records : List ExternalRecord} {token : String}
        {os : List Outcome}
        → sync_account_resetting_stale_token zones hash google limit context account
            (stored_token state account)
            at
            s
          ≡ (ok (records, token), between)
        → Outcomes limit context state at accounts between os after
        → Outcomes limit context state at
            (account ∷ accounts)
            s
            ((account, some (records, token)) ∷ os)
            after
    must_reconnect :
        {account : GoogleAccountCredentials} {accounts : List GoogleAccountCredentials}
        {s between after : Session N} {os : List Outcome}
        → sync_account_resetting_stale_token zones hash google limit context account
            (stored_token state account)
            at
            s
          ≡ (err invalid_grant, between)
        → Outcomes limit context state at accounts between os after
        → Outcomes limit context state at (account ∷ accounts) s ((account, none) ∷ os) after

  sync_accounts-Outcomes :
      (limit : ℕ) (context : ConnectorContext) (state : GoogleSyncCursor) (at : ℕ)
      (accounts : List GoogleAccountCredentials) (s after : Session N) (os : List Outcome)
      (records : List ExternalRecord) (entries : GoogleSyncCursor)
      → Outcomes limit context state at accounts s os after
      → sync_accounts zones hash google limit context state at accounts (records, entries) s
        ≡ (ok (records ++ collected os, entered entries os), after)
  unfolding sync_accounts
  sync_accounts-Outcomes limit context state at accounts s after os records entries none_left =
      ap (λ l. (ok (l, entries), s)) (sym (append-nil records))
  sync_accounts-Outcomes limit context state at _ s after _ records entries
        (synced {account = account} {accounts = accounts} {between = between} {records = fresh}
          {token = token} {os = os} pass rest) =
      rw pass (
        sync_accounts-Outcomes limit context state at accounts between after os (records ++ fresh)
          (put account.email (entry_of account token) entries) rest
        ∙ ap (λ l. (ok (l, entered (put account.email (entry_of account token) entries) os), after))
            (append_assoc records fresh (collected os)))
  sync_accounts-Outcomes limit context state at _ s after _ records entries
        (must_reconnect {accounts = accounts} {between = between} {os = os} pass rest) =
      rw pass (
        sync_accounts-Outcomes limit context state at accounts between after os records entries
          rest)

  module _ {Nonce : Type 0} (F : Fernet Nonce) (box : Option SecretBox)
      (order : String → String → Bool) (json : CursorJson) where
    -- A run over the household's accounts, whose addresses are different and of which each is synced or
    -- must reconnect, completes with the records of the synced ones in their order. The cursor that it
    -- returns reads back with the sync token of its pass for a synced account, and with none for an
    -- account that must reconnect, which is also so where it returns no cursor. The text of a cursor
    -- reads back as the cursor.
    pub sync_resumes :
        (limit : ℕ) (context : ConnectorContext) (cursor : Option String) (s : State (Google N))
        (accounts : List GoogleAccountCredentials) (os : List Outcome) (after : Session N)
        → ((c : GoogleSyncCursor) → json.validate (json.dump c) ≡ some c)
        → credentials_for_household F box order context.household_id s ≡ (ok accounts, s)
        → Outcomes limit context
            (parse_cursor json cursor)
            (google.clock s.world.session.net)
            accounts
            s.world.session
            os
            after
        → Distinct os
        → (result : SyncResult) × ((sync zones hash google F box order json limit context cursor
              s).0
            ≡ ok result)
          × (result.records ≡ collected os)
          × All (SavedFor (parse_cursor json result.next_cursor)) os
    unfolding sync
    sync_resumes limit context cursor s accounts os after faithful known pass distinct =
        let done =
          sync_accounts-Outcomes limit context (parse_cursor json cursor)
            (google.clock s.world.session.net) accounts s.world.session after os [] [] pass in
        rw (known, done)
          (
            record { records = collected os; next_cursor = cursor_text json (entered [] os) },
            refl,
            refl,
            subst (λ c. All (SavedFor c) os) (sym (parse-cursor_text json (entered [] os) faithful))
                (entered-SavedFor [] os distinct (all_unknown os)),
          )
      where
        all_unknown : (os : List Outcome) → All (Unknown []) os
        all_unknown [] = tt
        all_unknown (o ∷ os) = (refl, all_unknown os)
