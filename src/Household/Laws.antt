-- ===== src/Household/Laws.antt =====
-- What completing a task, saving a history and finishing a job run show afterwards.
use nidaro.Base.{
  ℕ, String, ◌≡◌, refl, ap, ◌∙◌, Bool, true, false, not, ◌&&◌, Option, none, some, List, [], ◌∷◌,
  ◌++◌, map, arith, ◌==◌, keep, ok, err,
}
use nidaro.Base.{
  ℕ, ◌≡◌, refl, ap, ◌∙◌, Bool, true, false, not, ◌&&◌, Option, none, some, List, [], ◌∷◌, ◌++◌, map,
  arith, ◌==◌, keep, ok, err,
}
use nidaro.Base.{value_error}
use mathlib.Core.Option
use nidaro.Base.Sort.{sort}
use nidaro.Base.Table.{find, find-alter_self, find-alter_ne}
use nidaro.Household.Tasks
use nidaro.Household.Tasks.{Task, is_listed, open_tasks, complete, closed, is_open, is_done}
use nidaro.Household.Conversations
use nidaro.Household.Conversations.{
  Conversation, load, save_history, saved, conversation_is, with_history,
}
use nidaro.Household.Jobs
use nidaro.Household.Jobs.{JobRun, final_status, run_is, start, finish, finished}

keep-closed :
    (i household now days : ℕ) (ts : List Task)
    → keep (is_listed household now days) (map (closed i) ts)
      ≡ keep (λ r. is_listed household now days r && not (r.id == i)) ts
unfolding is_listed
keep-closed i household now days [] = refl
keep-closed i household now days (r ∷ ts) = ground (arith, keep-closed i household now days ts)

-- Completing a task takes exactly the task with this identifier from every household's list of open
-- tasks, whatever its window, and leaves the others in their order.
pub open_tasks-complete :
    (order : Task → Task → Bool) (i household now days : ℕ) (s : Tasks.State)
    → open_tasks order household now days (complete i s).1
      ≡ sort order (keep (λ r. is_listed household now days r && not (r.id == i)) s.tasks)
unfolding open_tasks complete
open_tasks-complete order i household now days s =
    ap (sort order) (keep-closed i household now days s.tasks)

module _ {Message : Type 0} where
  save_history-found :
      (i : ℕ) (history : List Message) (s : Conversations.State Message)
      (o : Option (Conversation Message))
      → load i s ≡ o
      → save_history i history s ≡ saved i history s o
  unfolding load save_history
  save_history-found i history s o e = ap (saved i history s) e

  -- Saving the history of a stored conversation succeeds, loading it then shows that history and
  -- the rest of the row as it was, and every other conversation loads as before; for a conversation
  -- that is not stored it raises ValueError and writes nothing.
  pub load-save_history :
      (i : ℕ) (history : List Message) (s : Conversations.State Message)
      → ((r : Conversation Message)
          → load i s ≡ some r
          → ((save_history i history s).0 ≡ ok tt)
            × ((load i (save_history i history s).1 ≡ some (with_history history r))
                × ((k : ℕ) → (k == i) ≡ false → load k (save_history i history s).1 ≡ load k s)))
        × (load i s ≡ none → save_history i history s ≡ (err value_error, s))
  load-save_history i history s = (
    (λ r e. rw (save_history-found i history s (some r) e) (
      refl,
      (
        unfold load in
            find-alter_self (conversation_is i) (with_history history) s.conversations (λ x. refl)
            ∙ ap (Option.map (with_history history)) (unfold load in e),
        λ k ne.
            unfold load in
            find-alter_ne (conversation_is i) (conversation_is k) (with_history history)
              s.conversations (λ x h. ground arith) (λ x. refl),
      ),
    )),
    λ e. save_history-found i history s none e,
  )

module _ {Json : Type 0} where
  find-append_fresh :
      (i : ℕ) (r : JobRun Json) (xs : List (JobRun Json))
      → find (run_is i) xs ≡ none
      → run_is i r ≡ true
      → find (run_is i) (xs ++ r ∷ []) ≡ some r
  find-append_fresh i r [] h e = rw e refl
  find-append_fresh i r (x ∷ xs) h e = ground (arith, find-append_fresh i r xs)

  find-append_ne :
      (i : ℕ) (r : JobRun Json) (xs : List (JobRun Json))
      → run_is i r ≡ false
      → find (run_is i) (xs ++ r ∷ []) ≡ find (run_is i) xs
  find-append_ne i r [] e = rw e refl
  find-append_ne i r (x ∷ xs) e = ground (arith, find-append_ne i r xs e)

  -- A job that was started under an identifier not in use, and then finished, is stored with its
  -- type, parameters and both times, and counts as failed exactly if the error is a text that is
  -- not empty; every other run is stored as before.
  pub finish-start :
      (job_type : String) (parameters : Json) (now later : ℕ) (result : Option Json)
      (error : Option String) (s : Jobs.State Json)
      → find (run_is s.next_id) s.runs ≡ none
      → let run = start job_type parameters now s in
        let done = finish run.0 result error later run.1 in
        (find (run_is run.0) done.runs
          ≡ some (record {
            id = run.0;
            job_type = job_type;
            status = final_status error;
            parameters = parameters;
            queued_at = now;
            started_at = some now;
            finished_at = some later;
            error = error;
            result = result;
          }))
        × ((k : ℕ) → (k == run.0) ≡ false → find (run_is k) done.runs ≡ find (run_is k) s.runs)
  unfolding start finish
  finish-start job_type parameters now later result error s fresh =
      let run = start job_type parameters now s in
      (
        find-alter_self (run_is run.0) (finished result error later) run.1.runs (λ x. refl)
            ∙ ap (Option.map (finished result error later))
                (find-append_fresh run.0 _ s.runs fresh (ground arith)),
        λ k ne.
            find-alter_ne (run_is run.0) (run_is k) (finished result error later) run.1.runs
              (λ x h. ground arith) (λ x. refl)
            ∙ find-append_ne k _ s.runs (ground arith),
      )
