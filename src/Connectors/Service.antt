-- ===== src/Connectors/Service.antt =====
-- connectors/registry.py and connectors/service.py: `ConnectorRegistry`, `ConnectorService` and
-- `ConnectorConfigService`. A connector is any action on the rest of the world; clock readings are
-- arguments.
use nidaro.Base.{
  ℕ, ◌+◌, ◌*◌, String, Bool, true, false, not, List, [], ◌∷◌, Option, none, some, Result, ok, err,
  Exn, stale_cursor, key_error, value_error, Exec, pure, raise, lift, gets, modify, try_except,
  ◌>>=◌, ◌>>◌, str_eq, ltb, leb, keep, if◌then◌else◌,
}
use nidaro.Connectors.Store.{
  ConnectorConfig, ConnectorContext, State, SyncResult, all_enabled, clear_cursor, get_config,
  get_cursor, save_cursor, stamp_synced, upsert_config,
}

abbrev pub Connector : Type 0 → Type 0
Connector W = ConnectorContext → Option String → Exec W SyncResult

-- `ConnectorRegistry`: connectors by name, registering a name again replaces it.
abbrev pub Registry : Type 0 → Type 0
Registry W = List (String × Connector W)

abbrev pub has_elapsed : ℕ → ℕ → Option ℕ → Bool
has_elapsed moment poll none = true
has_elapsed moment poll (some at) = leb (at + poll * 1_000_000) moment

-- `last_synced_at + timedelta(seconds=poll_seconds) <= moment`, or never synced
unfoldable pub is_due : ℕ → ConnectorConfig → Bool
is_due moment r = has_elapsed moment r.poll_seconds r.last_synced_at

module _ {W : Type 0} where
  unfoldable pub register : String → Connector W → Registry W → Registry W
  register name c [] = (name, c) ∷ []
  register name c ((n, d) ∷ rest) =
      if str_eq n name then (n, c) ∷ rest else (n, d) ∷ register name c rest

  unfoldable pub get : String → Registry W → Result (Connector W)
  get name [] = err key_error
  get name ((n, c) ∷ rest) = if str_eq n name then ok c else get name rest

  -- A connector runs beside the tables and does not write them.
  abbrev pub in_world : {A : Type 0} → Exec W A → Exec (State W) A
  in_world m s = ((m s.world).0, record s { world = (m s.world).1 })

  abbrev pub effective : ConnectorContext → String → Option String → State W → Option String
  effective context name none s = get_cursor context.household_id name s
  effective context name (some c) s = some c

  -- `except StaleCursorError`
  abbrev pub on_stale : ConnectorContext → String → Exn → Exec (State W) SyncResult
  on_stale context name stale_cursor = do
    modify (clear_cursor context.household_id name)
    raise stale_cursor
  on_stale context name e = raise e

  abbrev pub store_cursor : ConnectorContext → String → Option String → State W → State W
  store_cursor context name none s = s
  store_cursor context name (some c) s = save_cursor context.household_id name c s

  -- `stamps` says whether a config repository is wired.
  unfoldable pub sync :
      Registry W → Bool → ℕ → String → ConnectorContext → Option String → Exec (State W) SyncResult
  sync registry stamps now name context cursor = do
    start ← gets (effective context name cursor)
    result ←
        try_except (lift (get name registry) >>= λ c. in_world (c context start))
          (on_stale context name)
    modify (store_cursor context name result.next_cursor)
    if stamps then modify (stamp_synced context.household_id name now) else pure tt
    pure result

  -- `ConnectorConfigService`
  unfoldable pub enable : ℕ → String → List String → Option String → ℕ → Exec (State W) (Unit {0})
  enable household connector names trigger poll =
      if ltb poll 1
      then raise value_error
      else modify (upsert_config household connector true names trigger poll)

  abbrev disable_row : ℕ → String → Option ConnectorConfig → Exec (State W) Bool
  disable_row household connector none = pure false
  disable_row household connector (some r) = if not r.enabled then pure false else (do
    modify
        (upsert_config household connector false r.credential_names r.trigger_word r.poll_seconds)
    pure true)

  unfoldable pub disable : ℕ → String → Exec (State W) Bool
  disable household connector s =
      disable_row household connector (get_config household connector s) s

  unfoldable pub due :
      (ConnectorConfig → ConnectorConfig → Bool) → ℕ → State W → List ConnectorConfig
  unfolding is_due
  due order moment s = keep (is_due moment) (all_enabled order s)
