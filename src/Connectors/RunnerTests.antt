-- ===== src/Connectors/RunnerTests.antt =====
-- The theorems of the runner and of the jobs at small inputs.
use nidaro.Base.{
  ℕ, suc, ◌+◌, ◌≡◌, refl, Bool, true, false, none, List, [], ◌∷◌, map, length, keep, ok, err,
}
use nidaro.Base.{
  ℕ, suc, ◌+◌, ◌≡◌, refl, Bool, true, false, none, List, [], ◌∷◌, map, length, keep, ok, err,
}
use nidaro.Base.{other_error}
use mathlib.Core.List.{Perm}
use nidaro.Calendar.Models.{ExternalRecord, foreign, MirrorApplyReport}
use nidaro.Calendar.Repository.{CalendarDb, remove_mirror}
use nidaro.Calendar.Service.{no_changes, apply_external_records, apply_from, apply_record}
use nidaro.Connectors.Store.{ConnectorConfig}
use nidaro.Connectors.Service.{Connector, Registry, due}
use nidaro.Connectors.Runner.{
  Services, group_by_type, add_by_type, land_group, land_groups, sync_due, is_wanted,
}
use nidaro.Connectors.Counts.{land_groups-counts}
use nidaro.Connectors.Sweep.{key_of, tally, sync_due_isolates}
use nidaro.Connectors.Jobs.{run_connector_sync, run_due_connector_syncs}
use nidaro.Connectors.Dispatch.{task_key, run_due_isolates}
use nidaro.Connectors.Cipher.{transparent}

abbrev no_events : CalendarDb
no_events = record { households = []; members = []; events = []; next_id = 0 }

abbrev two_configs : Services ℕ
two_configs = record {
  connectors = record {
    cursors = [];
    configs =
        record {
          household_id = 7;
          connector = "google_calendar";
          enabled = true;
          credential_names = [];
          trigger_word = none;
          poll_seconds = 900;
          last_synced_at = none;
        }
        ∷ record {
          household_id = 8;
          connector = "whatsapp";
          enabled = true;
          credential_names = [];
          trigger_word = none;
          poll_seconds = 900;
          last_synced_at = none;
        }
        ∷ [];
    credentials = [];
    world = 0;
  };
  calendar = no_events;
}

abbrev broken_source : Connector ℕ
broken_source x cursor w = (err other_error, suc w)

abbrev sources : Registry ℕ
sources = ("google_calendar", broken_source) ∷ []

abbrev as_stored : ConnectorConfig → ConnectorConfig → Bool
as_stored a b = true

sync_due_isolates_example :
    Perm (tally (sync_due transparent none sources 5 as_stored none 10 two_configs).0) (
      map key_of (
        keep (is_wanted transparent none sources 5 none) (due as_stored 10 two_configs.connectors)))
sync_due_isolates_example =
    sync_due_isolates transparent none sources 5 as_stored none 10 two_configs

run_due_isolates_example :
    map task_key (run_due_connector_syncs as_stored (run_connector_sync sources 5) 10 two_configs).0
    ≡ map (λ r. (r.connector, r.household_id)) (due as_stored 10 two_configs.connectors)
run_due_isolates_example = run_due_isolates sources 5 as_stored 10 two_configs

abbrev vanished : ExternalRecord
vanished = record {
  connector = "google_calendar";
  external_type = "calendar_event";
  external_id = "a1";
  payload = foreign;
  content_hash = "";
  observed_at = 0;
  deleted = true;
}

abbrev received : List ExternalRecord
received = vanished ∷ record vanished { external_type = "message"; deleted = false } ∷ []

abbrev both_skipped : MirrorApplyReport
both_skipped = record { applied = 0; removed = 0; skipped = 2 }

received-landed :
    (land_groups 7 (group_by_type received []) no_changes no_events).0 ≡ ok both_skipped
unfolding land_groups land_group group_by_type add_by_type apply_external_records apply_from
    apply_record remove_mirror
received-landed = refl

land_groups-counts_example : 0 + (0 + 2) ≡ length received
land_groups-counts_example = land_groups-counts 7 received no_events both_skipped received-landed
