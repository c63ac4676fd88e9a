-- ===== src/Connectors/Tests.antt =====
-- The theorems of the connectors at small inputs.
use nidaro.Base.{
  ℕ, suc, ◌+◌, ◌*◌, ◌≤◌, String, ◌≡◌, refl, ap, ◌∙◌, ◌↔◌, inl, inr, Bool, true, false, ◌&&◌, none,
  some, [], ◌∷◌, arith, str_eq, leb, ◌==◌, In, ok, err,
}
use nidaro.Base.{stale_cursor, other_error, credential_key_missing}
use mathlib.Core.Logic.{◌≢◌}
use nidaro.Base.Sort.{sort}
use mathlib.Core.Option
use nidaro.Base.Table.{count}
use nidaro.Connectors.Store.{
  ConnectorConfig, ConnectorContext, ConnectorCredential, State, SyncResult, get_config, get_cursor,
  config_at, cursor_at, all_enabled, stamp_synced, save_cursor, credential_at,
}
use nidaro.Connectors.Service.{Connector, Registry, get, sync, enable, disable, due}
use nidaro.Connectors.Credentials.{SecretBox, get_secret, set_secret, decrypt, rotate}
use nidaro.Connectors.Cursors.{CursorsUnique, kept, stamped}
use nidaro.Connectors.Sync.{sync_completed, sync_stale, sync_failed}
use nidaro.Connectors.Due.{due_exact, due-sync_completed}
use nidaro.Connectors.Intake.{disable-enable}
use nidaro.Connectors.Secrets.{get-set_secret, same_secret}
use nidaro.Connectors.Pending.{CredentialsUnique}
use nidaro.Connectors.Rotation.{rotate_readable, rotate_complete}
use nidaro.Connectors.Cipher.{transparent, transparent-IsAuthentic}

abbrev calendar_config : ConnectorConfig
calendar_config = record {
  household_id = 7;
  connector = "icloud";
  enabled = true;
  credential_names = "password" ∷ [];
  trigger_word = none;
  poll_seconds = 900;
  last_synced_at = some 1_000_000;
}

abbrev old_token : ConnectorCredential
old_token = record {
  household_id = 7;
  connector = "icloud";
  name = "password";
  secret = transparent.fernet_encrypt "old" tt "hunter2";
}

abbrev onboarded : State ℕ
onboarded = record {
  cursors = record { household_id = 7; connector = "icloud"; cursor = "41" } ∷ [];
  configs = calendar_config ∷ [];
  credentials = old_token ∷ [];
  world = 0;
}

abbrev family : ConnectorContext
family = record { household_id = 7; timezone = "Europe/Prague"; credentials = [] }

abbrev next_page : SyncResult
next_page = record { records = []; next_cursor = some "42" }

-- Three connectors: one that completes, one that refuses the cursor, one that fails.
abbrev calm : Connector ℕ
calm x cursor w = (ok next_page, suc w)

abbrev refusing : Connector ℕ
refusing x cursor w = (err stale_cursor, suc w)

abbrev broken : Connector ℕ
broken x cursor w = (err other_error, suc w)

abbrev only : Connector ℕ → Registry ℕ
only c = ("icloud", c) ∷ []

only-get : (c : Connector ℕ) → get "icloud" (only c) ≡ ok c
unfolding get
only-get c = refl

count_one : {Row : Type 0} (p : Row → Bool) (r : Row) → count p (r ∷ []) ≤ 1
count_one p r = ground arith

onboarded-CursorsUnique : CursorsUnique onboarded
onboarded-CursorsUnique h c =
    count_one (cursor_at h c) (record { household_id = 7; connector = "icloud"; cursor = "41" })

onboarded-CredentialsUnique : CredentialsUnique onboarded
onboarded-CredentialsUnique h c n = count_one (credential_at h c n) old_token

onboarded-config : get_config 7 "icloud" onboarded ≡ some calendar_config
unfolding get_config config_at
onboarded-config = refl

calendar_config-at :
    config_at 7 "icloud" (record calendar_config { last_synced_at = some 5_000_000 }) ≡ true
unfolding config_at
calendar_config-at = refl

sync_completed_example :
    let out = sync (only calm) true 5_000_000 "icloud" family none onboarded in
    (out.0 ≡ ok next_page)
    × (get_cursor 7 "icloud" out.1 ≡ kept (some "42") (get_cursor 7 "icloud" onboarded))
    × ((k : ℕ) (d : String)
        → (7 == k && str_eq "icloud" d) ≡ false
        → get_cursor k d out.1 ≡ get_cursor k d onboarded)
    × (get_config 7 "icloud" out.1
        ≡ Option.map (stamped 5_000_000) (get_config 7 "icloud" onboarded))
    × (out.1.credentials ≡ onboarded.credentials)
sync_completed_example =
    sync_completed (only calm) 5_000_000 "icloud" family none onboarded calm (only-get calm)
      next_page refl

sync_stale_example :
    let out = sync (only refusing) true 5_000_000 "icloud" family none onboarded in
    (out.0 ≡ err stale_cursor)
    × (get_cursor 7 "icloud" out.1 ≡ none)
    × ((k : ℕ) (d : String)
        → (7 == k && str_eq "icloud" d) ≡ false
        → get_cursor k d out.1 ≡ get_cursor k d onboarded)
    × (out.1.configs ≡ onboarded.configs)
sync_stale_example =
    sync_stale (only refusing) 5_000_000 "icloud" family none onboarded refusing (only-get refusing)
      onboarded-CursorsUnique refl

other_error≢stale_cursor : other_error ≢ stale_cursor
other_error≢stale_cursor e = cc

sync_failed_example :
    let out = sync (only broken) true 5_000_000 "icloud" family none onboarded in
    (out.0 ≡ err other_error)
    × (out.1.cursors ≡ onboarded.cursors)
    × (out.1.configs ≡ onboarded.configs)
    × (out.1.credentials ≡ onboarded.credentials)
sync_failed_example =
    sync_failed (only broken) 5_000_000 "icloud" family none onboarded broken (only-get broken)
      other_error other_error≢stale_cursor refl

abbrev by_household : ConnectorConfig → ConnectorConfig → Bool
by_household a b = leb a.household_id b.household_id

due_exact_example : In calendar_config (due by_household 902_000_000 onboarded) ↔ (
    In calendar_config onboarded.configs
    × (calendar_config.enabled ≡ true)
    × ((at : ℕ) → some 1_000_000 ≡ some at → at + 900 * 1_000_000 ≤ 902_000_000))
due_exact_example = due_exact by_household 902_000_000 onboarded calendar_config

resynced_due :
    In
      (record calendar_config { last_synced_at = some 5_000_000 })
      (due by_household 905_000_000
        (sync (only calm) true 5_000_000 "icloud" family none onboarded).1)
unfolding due sync get get_config config_at all_enabled sort stamp_synced save_cursor
resynced_due = inl refl

due-sync_completed_example : 5_000_000 + 900 * 1_000_000 ≤ 905_000_000
due-sync_completed_example =
    due-sync_completed by_household (only calm) 5_000_000 "icloud" family none onboarded calm
      (only-get calm) next_page refl (count_one (config_at 7 "icloud") calendar_config) 905_000_000
      (record calendar_config { last_synced_at = some 5_000_000 }) resynced_due calendar_config-at

disable-enable_example :
    ((disable 7 "icloud" onboarded).0 ≡ ok true)
    × ((get_config 7 "icloud" (disable 7 "icloud" onboarded).1
          ≡ some (record calendar_config { enabled = false }))
        × (((k : ℕ) (d : String)
              → (7 == k && str_eq "icloud" d) ≡ false
              → get_config k d (disable 7 "icloud" onboarded).1 ≡ get_config k d onboarded)
            × (get_config 7 "icloud"
                  (enable 7 "icloud" ("password" ∷ []) none 900 (disable 7 "icloud" onboarded).1).1
                ≡ some calendar_config)))
disable-enable_example =
    disable-enable 7 "icloud" onboarded calendar_config onboarded-config refl (omega arith)

-- The old key alone, and the new key in front of it
abbrev old_box : SecretBox
old_box = record { primary = "old"; previous = [] }

abbrev new_box : SecretBox
new_box = record { primary = "new"; previous = "old" ∷ [] }

get-set_secret_example :
    ((get_secret transparent
        (some new_box)
        7
        "icloud"
        "password"
        (set_secret transparent (some old_box) tt 7 "icloud" "password" "secret" onboarded).1).0
      ≡ ok (some "secret"))
    × (((k : ℕ) (d l : String)
          → same_secret 7 "icloud" "password" k d l ≡ false
          → (get_secret transparent
              (some new_box)
              k
              d
              l
              (set_secret transparent
                (some old_box)
                tt
                7
                "icloud"
                "password"
                "secret"
                onboarded).1).0
            ≡ (get_secret transparent (some new_box) k d l onboarded).0)
        × ((set_secret transparent none tt 7 "icloud" "password" "secret" onboarded
              ≡ (err credential_key_missing, onboarded))
            × (get_secret transparent none 7 "icloud" "password" onboarded
                ≡ (err credential_key_missing, onboarded))))
get-set_secret_example =
    get-set_secret transparent transparent-IsAuthentic old_box new_box tt 7 "icloud" "password"
      "secret" onboarded (inr (inl refl))

abbrev unordered : ConnectorCredential → ConnectorCredential → Bool
unordered a b = true

rotate_readable_example :
    (get_secret transparent
      (some new_box)
      7
      "icloud"
      "password"
      (rotate transparent unordered (some new_box) (λ i. tt) onboarded).1).0
    ≡ (get_secret transparent (some new_box) 7 "icloud" "password" onboarded).0
rotate_readable_example =
    rotate_readable transparent transparent-IsAuthentic unordered new_box (λ i. tt) onboarded 7
      "icloud" "password" onboarded-CredentialsUnique

old_token-opens : decrypt transparent new_box old_token.secret ≡ ok "hunter2"
unfolding decrypt
old_token-opens = refl

onboarded-opens :
    (r : ConnectorCredential)
    → In r onboarded.credentials
    → (m : String) × (decrypt transparent new_box r.secret ≡ ok m)
onboarded-opens r (inl e) =
    ("hunter2", ap (λ x. decrypt transparent new_box x.secret) e ∙ old_token-opens)
onboarded-opens r (inr m) = elim m [ ]

rotate_complete_example :
    ((rotate transparent unordered (some new_box) (λ i. tt) onboarded).0 ≡ ok 1)
    × ((reader : SecretBox) (h : ℕ) (c n : String)
        → In "new" (reader.primary ∷ reader.previous)
        → (get_secret transparent
            (some reader)
            h
            c
            n
            (rotate transparent unordered (some new_box) (λ i. tt) onboarded).1).0
          ≡ (get_secret transparent (some new_box) h c n onboarded).0)
rotate_complete_example =
    rotate_complete transparent transparent-IsAuthentic unordered new_box (λ i. tt) onboarded
      onboarded-CredentialsUnique onboarded-opens
