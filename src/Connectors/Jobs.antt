-- ===== src/Connectors/Jobs.antt =====
-- jobs/tasks.py: what the scheduled jobs run. The task queue is a third-party package; a dispatched
-- job is its connector and household. `connector_sync` is left out: its branch for icloud_calendar
-- passes a coroutine to dict, which raises before any sync.
use nidaro.Base.{
  ℕ, String, Bool, true, Option, none, some, List, [], ◌∷◌, map, str_eq, ◌==◌, if◌then◌else◌,
  length, keep, any, Exn, Result, ok, err, Exec, pure, ◌>>=◌,
}
use nidaro.Base.Table.{find}
use nidaro.Calendar.Models.{Household, MirrorApplyReport}
use nidaro.Calendar.Service.{apply_external_records}
use nidaro.Connectors.Store.{ConnectorConfig, SyncResult}
use nidaro.Connectors.Service.{Registry, due, sync}
use nidaro.Connectors.Runner.{Services, in_connectors, in_calendar}

-- The dicts that the bodies return
pub data Outcome : Type 0 where
  household_not_found no_applier no_household : Outcome
  counted : ℕ → Outcome
  mirrored : MirrorApplyReport → Outcome
  failed : Exn → Outcome

pub record TaskResult : Type 0 where
  pub connector : String
  pub household_id : ℕ
  pub outcome : Outcome

-- `household_id` in `services.household.get_household`
abbrev pub household_at : ℕ → Household → Bool
household_at household h = h.id == household

-- APPLIERS
unfoldable pub has_applier : String → Bool
has_applier name = str_eq name "google_calendar"

abbrev is_registered : {W : Type 0} → Registry W → String → Bool
is_registered registry name = any (λ e. str_eq e.0 name) registry

module _ {W : Type 0} (registry : Registry W) where
  unfoldable pub due_registered :
      (ConnectorConfig → ConnectorConfig → Bool) → ℕ → Services W → List ConnectorConfig
  due_registered order now s =
      keep (λ r. is_registered registry r.connector) (due order now s.connectors)

  -- Every due registered config is dispatched, once.
  unfoldable pub gather_due :
      (ConnectorConfig → ConnectorConfig → Bool) → ℕ → Services W → List (String × ℕ)
  unfolding due_registered
  gather_due order now s = map (λ r. (r.connector, r.household_id)) (due_registered order now s)

module _ {W : Type 0} (registry : Registry W) (now : ℕ) where
  -- One sync without credentials, in the household's time zone
  unfoldable pub plain_sync : String → Household → Exec (Services W) SyncResult
  plain_sync connector h = in_connectors (
      sync registry true now connector
        (record { household_id = h.id; timezone = h.timezone; credentials = [] }) none)

  abbrev sync_found : String → ℕ → Option Household → Exec (Services W) TaskResult
  sync_found connector household none =
      pure
        (record { connector = connector; household_id = household; outcome = household_not_found })
  sync_found connector household (some h) = do
    result ← plain_sync connector h
    pure (record {
      connector = connector;
      household_id = household;
      outcome = counted (length result.records);
    })

  unfoldable pub sync_household_now : String → ℕ → Exec (Services W) TaskResult
  sync_household_now connector household s =
      sync_found connector household (find (household_at household) s.calendar.households) s

  abbrev run_found : String → ℕ → Option Household → Exec (Services W) TaskResult
  run_found connector household none =
      pure (record { connector = connector; household_id = household; outcome = no_household })
  run_found connector household (some h) = do
    result ← plain_sync connector h
    report ← in_calendar (apply_external_records household result.records)
    pure (record { connector = connector; household_id = household; outcome = mirrored report })

  unfoldable pub run_connector_sync : String → ℕ → Exec (Services W) TaskResult
  run_connector_sync connector household s =
      if has_applier connector
      then run_found connector household (find (household_at household) s.calendar.households) s
      else pure (record { connector = connector; household_id = household; outcome = no_applier }) s

abbrev or_failed : String → ℕ → Result TaskResult → TaskResult
or_failed connector household (ok r) = r
or_failed connector household (err e) = record {
  connector = connector;
  household_id = household;
  outcome = failed e;
}

module _ {W : Type 0} where
  -- `_isolate`
  unfoldable pub isolate :
      (String → ℕ → Exec (Services W) TaskResult)
      → String
      → ℕ
      → Services W
      → TaskResult × Services W
  isolate run_one connector household s =
      let out = run_one connector household s in (or_failed connector household out.0, out.1)

  unfoldable pub run_each :
      (String → ℕ → Exec (Services W) TaskResult)
      → List ConnectorConfig
      → Services W
      → List TaskResult × Services W
  run_each run_one [] s = ([], s)
  run_each run_one (config ∷ configs) s =
      let first = isolate run_one config.connector config.household_id s in
      let rest = run_each run_one configs first.1 in (first.0 ∷ rest.0, rest.1)

  unfoldable pub run_due_connector_syncs :
      (ConnectorConfig → ConnectorConfig → Bool)
      → (String → ℕ → Exec (Services W) TaskResult)
      → ℕ
      → Services W
      → List TaskResult × Services W
  run_due_connector_syncs order run_one moment s =
      run_each run_one (due order moment s.connectors) s
