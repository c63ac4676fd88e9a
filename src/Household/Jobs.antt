-- ===== src/Household/Jobs.antt =====
-- jobs/models.py and jobs/service.py: `JobService`. Parameters and results of a job are JSON, which
-- no code here looks into. The clock is an argument, and one reading of it serves both time stamps of a start.
use nidaro.Base.{ℕ, suc, String, Bool, Option, none, some, List, [], ◌∷◌, ◌++◌, ◌==◌, if◌then◌else◌}
use nidaro.Base.{is_truthy}
use nidaro.Base.Table.{alter}

pub data JobStatus : Type 0 where
  queued running failed succeeded : JobStatus

pub record JobRun (Json : Type 0) : Type 0 where
  pub id : ℕ
  pub job_type : String
  pub status : JobStatus
  pub parameters : Json
  pub queued_at : ℕ
  pub started_at : Option ℕ
  pub finished_at : Option ℕ
  pub error : Option String
  pub result : Option Json

pub record State (Json : Type 0) : Type 0 where
  pub runs : List (JobRun Json)
  pub next_id : ℕ

-- `"failed" if error else "succeeded"`: an empty text is no error.
unfoldable pub final_status : Option String → JobStatus
final_status none = succeeded
final_status (some error) = if is_truthy error then failed else succeeded

module _ {Json : Type 0} where
  abbrev pub run_is : ℕ → JobRun Json → Bool
  run_is i r = r.id == i

  unfoldable pub start : String → Json → ℕ → State Json → ℕ × State Json
  start job_type parameters now s =
      let row : JobRun Json = record {
        id = s.next_id;
        job_type = job_type;
        status = running;
        parameters = parameters;
        queued_at = now;
        started_at = some now;
        finished_at = none;
        error = none;
        result = none;
      } in
      (row.id, record s { runs = s.runs ++ row ∷ []; next_id = suc s.next_id })

  abbrev pub finished : Option Json → Option String → ℕ → JobRun Json → JobRun Json
  finished result error now r = record r {
    status = final_status error;
    finished_at = some now;
    result = result;
    error = error;
  }

  -- A run that is not stored is left alone.
  unfoldable pub finish : ℕ → Option Json → Option String → ℕ → State Json → State Json
  finish run_id result error now s = record s {
    runs = alter (run_is run_id) (finished result error now) s.runs;
  }
