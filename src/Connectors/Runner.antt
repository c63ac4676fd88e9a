-- ===== src/Connectors/Runner.antt =====
-- connectors/runner.py: one sync of a household's connector with the landing of its records, and
-- the sweep over all that are due.
use nidaro.Base.{
  ℕ, ◌+◌, String, Bool, true, Option, none, some, List, [], ◌∷◌, ◌++◌, str_eq, ◌==◌, if◌then◌else◌,
  length, Result, ok, err, Exec, pure, gets, ◌>>=◌,
}
use nidaro.Base.{lookup_error}
use nidaro.Calendar.Models.{ExternalRecord, Household, MirrorApplyReport}
use nidaro.Calendar.Repository.{CalendarDb}
use nidaro.Calendar.Service.{apply_external_records, calendar_event, no_changes}
use nidaro.Base.Table.{find}
use nidaro.Connectors.Store.{ConnectorConfig, State, get_config}
use nidaro.Connectors.Service.{Registry, due, sync}
use nidaro.Connectors.Credentials.{Fernet, SecretBox, get_secret}

-- The connector tables beside the calendar's
pub record Services (W : Type 0) : Type 0 where
  pub connectors : State W
  pub calendar : CalendarDb

pub record SyncOutcome : Type 0 where
  pub connector : String
  pub household_id : ℕ
  pub records : ℕ
  pub applied : ℕ
  pub removed : ℕ
  pub skipped : ℕ

-- A failure is known by its connector and household; the text of the error is left out.
pub record SweepReport : Type 0 where
  pub outcomes : List SyncOutcome
  pub errors : List (String × ℕ)

-- `by_type.setdefault(external_type, []).append(record)`, in the order of insertion
unfoldable pub add_by_type :
    ExternalRecord → List (String × List ExternalRecord) → List (String × List ExternalRecord)
add_by_type r [] = (r.external_type, r ∷ []) ∷ []
add_by_type r ((t, records) ∷ groups) =
    let rest = add_by_type r groups in
    if str_eq t r.external_type then (t, records ++ r ∷ []) ∷ groups else (t, records) ∷ rest

unfoldable pub group_by_type :
    List ExternalRecord → List (String × List ExternalRecord) → List (String × List ExternalRecord)
group_by_type [] groups = groups
group_by_type (r ∷ records) groups = group_by_type records (add_by_type r groups)

abbrev plus : MirrorApplyReport → MirrorApplyReport → MirrorApplyReport
plus a b = record {
  applied = a.applied + b.applied;
  removed = a.removed + b.removed;
  skipped = a.skipped + b.skipped;
}

-- `_applier_for` knows calendar events only.
unfoldable pub land_group :
    ℕ → String → List ExternalRecord → MirrorApplyReport → Exec CalendarDb MirrorApplyReport
land_group household t records report =
    if str_eq t calendar_event
    then apply_external_records household records >>= (λ applied. pure (plus report applied))
    else pure (record report { skipped = report.skipped + length records })

unfoldable pub land_groups :
    ℕ → List (String × List ExternalRecord) → MirrorApplyReport → Exec CalendarDb MirrorApplyReport
land_groups household [] report = pure report
land_groups household ((t, records) ∷ groups) report =
    land_group household t records report >>= λ next. land_groups household groups next

module _ {W : Type 0} where
  abbrev pub in_connectors : {A : Type 0} → Exec (State W) A → Exec (Services W) A
  in_connectors m s = ((m s.connectors).0, record s { connectors = (m s.connectors).1 })

  abbrev pub in_calendar : {A : Type 0} → Exec CalendarDb A → Exec (Services W) A
  in_calendar m s = ((m s.calendar).0, record s { calendar = (m s.calendar).1 })

module _ {Nonce W : Type 0} (F : Fernet Nonce) (box : Option SecretBox) (registry : Registry W)
    (now : ℕ) where
  abbrev with_secret : String → Option String → List (String × String) → List (String × String)
  with_secret name none credentials = credentials
  with_secret name (some secret) credentials = (name, secret) ∷ credentials

  -- The secrets of the config's names; a name without a stored secret is passed over.
  unfoldable pub read_credentials :
      ℕ → String → List String → Exec (State W) (List (String × String))
  read_credentials household connector [] = pure []
  read_credentials household connector (name ∷ names) = do
    secret ← get_secret F box household connector name
    rest ← read_credentials household connector names
    pure (with_secret name secret rest)

  abbrev enabled_config : Option ConnectorConfig → Result ConnectorConfig
  enabled_config none = err lookup_error
  enabled_config (some r) = if r.enabled then ok r else err lookup_error

  abbrev timezone_of : Option Household → String
  timezone_of none = "UTC"
  timezone_of (some h) = h.timezone

  -- The run and the landing of its records, with how many there were
  unfoldable pub sync_landed : String → ℕ → Exec (Services W) (ℕ × MirrorApplyReport)
  sync_landed connector household = do
    config ← λ s. (enabled_config (get_config household connector s.connectors), s)
    credentials ← in_connectors (read_credentials household connector config.credential_names)
    row ← gets (λ s. find (λ h. h.id == household) s.calendar.households)
    result ← in_connectors (
        sync registry true now connector
          (record {
            household_id = household;
            timezone = timezone_of row;
            credentials = credentials;
          })
          none)
    report ← in_calendar (land_groups household (group_by_type result.records []) no_changes)
    pure (length result.records, report)

  abbrev pub outcome_of : String → ℕ → ℕ × MirrorApplyReport → SyncOutcome
  outcome_of connector household (records, report) = record {
    connector = connector;
    household_id = household;
    records = records;
    applied = report.applied;
    removed = report.removed;
    skipped = report.skipped;
  }

  unfoldable pub sync_connector : String → ℕ → Exec (Services W) SyncOutcome
  sync_connector connector household =
      sync_landed connector household >>= λ landed. pure (outcome_of connector household landed)

  abbrev pub noted : ConnectorConfig → SweepReport → Result SyncOutcome → SweepReport
  noted config report (ok outcome) = record report { outcomes = report.outcomes ++ outcome ∷ [] }
  noted config report (err e) = record report {
    errors = report.errors ++ (config.connector, config.household_id) ∷ [];
  }

  abbrev pub is_wanted : Option String → ConnectorConfig → Bool
  is_wanted none config = true
  is_wanted (some name) config = str_eq config.connector name

  abbrev pub sweep_one :
      Option String → ConnectorConfig → SweepReport → Services W → SweepReport × Services W
  sweep_one connector config report s =
      let out = sync_connector config.connector config.household_id s in
      if is_wanted connector config then (noted config report out.0, out.1) else (report, s)

  -- The loop of `sync_due`: a failure is noted and the loop goes on.
  unfoldable pub sweep :
      Option String → List ConnectorConfig → SweepReport → Services W → SweepReport × Services W
  sweep connector [] report s = (report, s)
  sweep connector (config ∷ configs) report s =
      let next = sweep_one connector config report s in sweep connector configs next.0 next.1

  unfoldable pub sync_due :
      (ConnectorConfig → ConnectorConfig → Bool)
      → Option String
      → ℕ
      → Services W
      → SweepReport × Services W
  sync_due order connector moment s =
      sweep connector (due order moment s.connectors) (record { outcomes = []; errors = [] }) s
