-- ===== src/Household/Tests.antt =====
-- The theorems of the household's small tables at small inputs.
use nidaro.Base.{ℕ, String, ◌≡◌, Bool, false, none, some, [], ◌∷◌, leb, ◌==◌, ok, err}
use nidaro.Base.{value_error}
use nidaro.Household.Tasks
use nidaro.Household.Tasks.{Task, is_listed, open_tasks, complete, is_open}
use nidaro.Household.Conversations
use nidaro.Household.Conversations.{Conversation, load, save_history, with_history}
use nidaro.Household.Jobs
use nidaro.Household.Jobs.{JobRun, failed, start, finish, run_is, final_status}
use nidaro.Household.Laws.{load-save_history}

abbrev bins : Task
bins = record {
  id = 1;
  household_id = 7;
  title = "Take the bins out";
  description = none;
  due_at = none;
  status = is_open;
  priority = 0;
  assignee_id = none;
}

abbrev chores : Tasks.State
chores = record { tasks = bins ∷ record bins { id = 2; title = "Laundry" } ∷ []; next_id = 3 }

abbrev by_priority : Task → Task → Bool
by_priority a b = leb b.priority a.priority

abbrev dinner_chat : Conversation String
dinner_chat = record { id = 4; household_id = 7; title = none; message_history = "hello" ∷ [] }

abbrev chats : Conversations.State String
chats = record { conversations = dinner_chat ∷ []; next_id = 5 }

load-save_history_example :
    ((r : Conversation String)
      → load 4 chats ≡ some r
      → ((save_history 4 ("bye" ∷ []) chats).0 ≡ ok tt)
        × ((load 4 (save_history 4 ("bye" ∷ []) chats).1 ≡ some (with_history ("bye" ∷ []) r))
            × ((k : ℕ)
                → (k == 4) ≡ false
                → load k (save_history 4 ("bye" ∷ []) chats).1 ≡ load k chats)))
    × (load 4 chats ≡ none → save_history 4 ("bye" ∷ []) chats ≡ (err value_error, chats))
load-save_history_example = load-save_history 4 ("bye" ∷ []) chats

abbrev no_runs : Jobs.State String
no_runs = record { runs = []; next_id = 0 }
