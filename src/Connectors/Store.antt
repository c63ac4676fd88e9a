-- ===== src/Connectors/Store.antt =====
-- connectors/models.py and connectors/repository.py: the three tables of the framework. Sessions and
-- row identifiers are left out; a row is known by its unique columns.
use nidaro.Base.{
  ℕ, String, Bool, ◌&&◌, List, Option, none, some, ok, is_some, keep, str_eq, ◌==◌, Exec, map,
}
use nidaro.Base.Table.{find, save, remove, alter}
use nidaro.Base.Sort.{sort}
use nidaro.Calendar.Models.{ExternalRecord}

-- `ConnectorContext`: the scope of one run, with the decrypted secrets by name.
pub record ConnectorContext : Type 0 where
  pub household_id : ℕ
  pub timezone : String
  pub credentials : List (String × String)

pub record SyncResult : Type 0 where
  pub records : List ExternalRecord
  pub next_cursor : Option String

pub record CursorRow : Type 0 where
  pub household_id : ℕ
  pub connector : String
  pub cursor : String

abbrev pub default_poll_seconds : ℕ
default_poll_seconds = 900

pub record ConnectorConfig : Type 0 where
  pub household_id : ℕ
  pub connector : String
  pub enabled : Bool
  pub credential_names : List String
  pub trigger_word : Option String
  pub poll_seconds : ℕ
  pub last_synced_at : Option ℕ

pub record ConnectorCredential : Type 0 where
  pub household_id : ℕ
  pub connector : String
  pub name : String
  pub secret : String

-- The tables, beside the rest of the world that a connector reads and writes.
pub record State (W : Type 0) : Type 0 where
  pub cursors : List CursorRow
  pub configs : List ConnectorConfig
  pub credentials : List ConnectorCredential
  pub world : W

-- The WHERE clauses of the three `_row` queries
unfoldable pub cursor_at : ℕ → String → CursorRow → Bool
cursor_at household connector r = r.household_id == household && str_eq r.connector connector

unfoldable pub config_at : ℕ → String → ConnectorConfig → Bool
config_at household connector r = r.household_id == household && str_eq r.connector connector

unfoldable pub credential_at : ℕ → String → String → ConnectorCredential → Bool
credential_at household connector name r =
    r.household_id == household && (str_eq r.connector connector && str_eq r.name name)

module _ {W : Type 0} where
  -- ConnectorCursorRepository
  unfoldable pub get_cursor : ℕ → String → State W → Option String
  get_cursor household connector s = elim (find (cursor_at household connector) s.cursors) [
    | none ↦ none
    | some r ↦ some r.cursor
  ]

  unfoldable pub save_cursor : ℕ → String → String → State W → State W
  save_cursor household connector cursor s = record s {
    cursors =
        save (cursor_at household connector)
          (record { household_id = household; connector = connector; cursor = cursor })
          (λ r. record r { cursor = cursor }) s.cursors;
  }

  unfoldable pub clear_cursor : ℕ → String → State W → State W
  clear_cursor household connector s = record s {
    cursors = remove (cursor_at household connector) s.cursors;
  }

  -- ConnectorConfigRepository
  unfoldable pub get_config : ℕ → String → State W → Option ConnectorConfig
  get_config household connector s = find (config_at household connector) s.configs

  unfoldable pub upsert_config :
      ℕ → String → Bool → List String → Option String → ℕ → State W → State W
  upsert_config household connector enabled names trigger poll s = record s {
    configs =
        save (config_at household connector)
          (record {
            household_id = household;
            connector = connector;
            enabled = enabled;
            credential_names = names;
            trigger_word = trigger;
            poll_seconds = poll;
            last_synced_at = none;
          })
          (λ r. record r {
            enabled = enabled;
            credential_names = names;
            trigger_word = trigger;
            poll_seconds = poll;
          })
          s.configs;
  }

  -- `order` is the database's ORDER BY, here and in `names`.
  unfoldable pub all_enabled :
      (ConnectorConfig → ConnectorConfig → Bool) → State W → List ConnectorConfig
  all_enabled order s = sort order (keep (λ r. r.enabled) s.configs)

  -- No-op when the connector was never onboarded.
  unfoldable pub stamp_synced : ℕ → String → ℕ → State W → State W
  stamp_synced household connector at s = record s {
    configs =
        alter (config_at household connector) (λ r. record r { last_synced_at = some at })
          s.configs;
  }

  -- ConnectorCredentialRepository
  unfoldable pub get_ciphertext : ℕ → String → String → State W → Option String
  get_ciphertext household connector name s =
      elim (find (credential_at household connector name) s.credentials) [
        | none ↦ none
        | some r ↦ some r.secret
      ]

  unfoldable pub save_ciphertext : ℕ → String → String → String → State W → State W
  save_ciphertext household connector name ciphertext s = record s {
    credentials =
        save (credential_at household connector name)
          (record {
            household_id = household;
            connector = connector;
            name = name;
            secret = ciphertext;
          })
          (λ r. record r { secret = ciphertext }) s.credentials;
  }

  unfoldable pub delete_credential : ℕ → String → String → Exec (State W) Bool
  delete_credential household connector name s = (
    ok (is_some (find (credential_at household connector name) s.credentials)),
    record s { credentials = remove (credential_at household connector name) s.credentials },
  )

  unfoldable pub names :
      (ConnectorCredential → ConnectorCredential → Bool) → ℕ → String → State W → List String
  names order household connector s =
      map (λ r. r.name)
        (sort order
          (keep (λ r. r.household_id == household && str_eq r.connector connector) s.credentials))
