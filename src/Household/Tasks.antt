-- ===== src/Household/Tasks.antt =====
-- tasks/models.py, tasks/schemas.py, tasks/repository.py and tasks/service.py. The status is a text
-- in the source, and only these two are ever stored. Instants are in microseconds.
use nidaro.Base.{
  ℕ, suc, ◌+◌, ◌*◌, String, Bool, true, false, ◌&&◌, Option, none, some, List, [], ◌∷◌, ◌++◌, map,
  leb, ◌==◌, if◌then◌else◌, length, keep, Result, ok, err,
}
use nidaro.Base.{validation_error}
use nidaro.Base.Sort.{sort}

pub data Status : Type 0 where
  is_open is_done : Status

pub record CreateTaskRequest : Type 0 where
  pub household_id : ℕ
  pub title : String
  pub description : Option String
  pub due_at : Option ℕ
  pub priority : ℕ
  pub assignee_id : Option ℕ

pub record Task : Type 0 where
  pub id : ℕ
  pub household_id : ℕ
  pub title : String
  pub description : Option String
  pub due_at : Option ℕ
  pub status : Status
  pub priority : ℕ
  pub assignee_id : Option ℕ

pub record State : Type 0 where
  pub tasks : List Task
  pub next_id : ℕ

abbrev pub a_day : ℕ
a_day = 86_400_000_000

abbrev pub open_status : Status → Bool
open_status is_open = true
open_status is_done = false

abbrev pub due_by : ℕ → Option ℕ → Bool
due_by limit none = true
due_by limit (some at) = leb at limit

-- `Field(default=0, ge=0, le=10)`
unfoldable pub validate : CreateTaskRequest → Result CreateTaskRequest
validate request = if leb request.priority 10 then ok request else err validation_error

-- The WHERE clauses of `TaskRepository.open`
unfoldable pub is_listed : ℕ → ℕ → ℕ → Task → Bool
is_listed household now days r =
    (r.household_id == household && open_status r.status) && due_by (now + days * a_day) r.due_at

-- `order` is the database's ORDER BY.
unfoldable pub open_tasks : (Task → Task → Bool) → ℕ → ℕ → ℕ → State → List Task
open_tasks order household now days s = sort order (keep (is_listed household now days) s.tasks)

unfoldable pub create : CreateTaskRequest → State → Task × State
create request s =
    let row : Task = record {
      id = s.next_id;
      household_id = request.household_id;
      title = request.title;
      description = request.description;
      due_at = request.due_at;
      status = is_open;
      priority = request.priority;
      assignee_id = request.assignee_id;
    } in
    (row, record s { tasks = s.tasks ++ row ∷ []; next_id = suc s.next_id })

abbrev pub closed : ℕ → Task → Task
closed task_id r = if r.id == task_id then record r { status = is_done } else r

-- The UPDATE changes every row with the identifier, and reports whether it was one.
unfoldable pub complete : ℕ → State → Bool × State
complete task_id s = (
  length (keep (λ r. r.id == task_id) s.tasks) == 1,
  record s { tasks = map (closed task_id) s.tasks },
)
