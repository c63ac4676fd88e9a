-- ===== src/Connectors/Dispatch.antt =====
-- What the hourly jobs report of the configs that are due.
use nidaro.Base.{
  ℕ, String, ◌≡◌, refl, ap, inl, inr, Bool, List, [], ◌∷◌, map, Bool-cases, Option-cases, ok,
  Result-cases,
}
use nidaro.Base.{err≢ok}
use nidaro.Base.Table.{find}
use nidaro.Calendar.Service.{apply_external_records}
use nidaro.Connectors.Store.{ConnectorConfig}
use nidaro.Connectors.Service.{Registry, due}
use nidaro.Connectors.Runner.{Services}
use nidaro.Connectors.Jobs.{
  TaskResult, has_applier, household_at, plain_sync, run_connector_sync, isolate, run_each,
  run_due_connector_syncs,
}

abbrev pub task_key : TaskResult → String × ℕ
task_key r = (r.connector, r.household_id)

task_key-ok : (p r : TaskResult) → ok p ≡ ok r → task_key r ≡ task_key p
task_key-ok p r e = ap task_key (same p r e)
  where
    same : (p r : TaskResult) → ok p ≡ ok r → r ≡ p
    same p r e = cc

module _ {W : Type 0} (registry : Registry W) (now : ℕ) where
  run_connector_sync-key :
      (c : String) (h : ℕ) (s : Services W) (r : TaskResult)
      → (run_connector_sync registry now c h s).0 ≡ ok r
      → task_key r ≡ (c, h)
  unfolding run_connector_sync
  run_connector_sync-key c h s r e = elim (Bool-cases (has_applier c)) [
    | inr n ↦ task_key-ok _ r (rw n at e)
    | inl y ↦ elim (Option-cases (find (household_at h) s.calendar.households)) [
      | inl missing ↦ task_key-ok _ r (rw (y, missing) at e)
      | inr (row, stored) ↦ elim (Result-cases (plain_sync registry now c row s).0) [
        | inr (x, raised) ↦ absurd (err≢ok (rw (y, stored, raised) at e))
        | inl (result, run) ↦
            elim (Result-cases
              (apply_external_records h result.records
                (plain_sync registry now c row s).1.calendar).0) [
                  | inr (x, raised) ↦ absurd (err≢ok (rw (y, stored, run, raised) at e))
                  | inl (report, landed) ↦ task_key-ok _ r (rw (y, stored, run, landed) at e)
                ]
      ]
    ]
  ]

  isolate-key :
      (c : String) (h : ℕ) (s : Services W)
      → task_key (isolate (run_connector_sync registry now) c h s).0 ≡ (c, h)
  unfolding isolate
  isolate-key c h s = elim (Result-cases (run_connector_sync registry now c h s).0) [
    | inl (r, done) ↦ rw done (run_connector_sync-key c h s r done)
    | inr (e, raised) ↦ rw raised refl
  ]

  run_each-keys :
      (rs : List ConnectorConfig) (s : Services W)
      → map task_key (run_each (run_connector_sync registry now) rs s).0
        ≡ map (λ r. (r.connector, r.household_id)) rs
  unfolding run_each
  run_each-keys [] s = refl
  run_each-keys (r ∷ rs) s = rw (isolate-key r.connector r.household_id s) (
      ap (λ l. (r.connector, r.household_id) ∷ l)
        (run_each-keys rs
          (isolate (run_connector_sync registry now) r.connector r.household_id s).1))

  -- The sweep job returns one result for each config that is due, in their order, whether its sync
  -- mirrored events, found no applier or household, or raised.
  pub run_due_isolates :
      (order : ConnectorConfig → ConnectorConfig → Bool) (moment : ℕ) (s : Services W)
      → map task_key (run_due_connector_syncs order (run_connector_sync registry now) moment s).0
        ≡ map (λ r. (r.connector, r.household_id)) (due order moment s.connectors)
  unfolding run_due_connector_syncs
  run_due_isolates order moment s = run_each-keys (due order moment s.connectors) s
