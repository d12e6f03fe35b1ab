-- ===== src/Evaluation/Manager.antt =====
-- The operations of `EvaluationManager` of app/evaluation/service.py on the runs in memory and in files.
-- A run's request and result are any types; times are numbers.
pub mod States
pub mod Reading
pub mod Lifecycle
pub mod Cancel
pub mod Retry
mod Tests
use showcase_host.Evaluation.Manager.States.{
  settle, finish, is_executing, progress, is_waiting, begin, step, TaskState, RunEvent, TaskState,
  ended, RunRecord, Run, is_active, is_retryable, is_waiting, is_executing, is_ended, new_run,
  settle_cancelled, RunEvent, begin, progress, finish, drop, settle, step,
}
use showcase_host.Evaluation.Manager.Reading.{Example, read_row}
use showcase_host.Prelude.{
  ℕ, suc, ◌+◌, String, Bool, true, false, not, ◌||◌, ◌&&◌, Option, none, some, List, [], ◌∷◌, ◌++◌,
  ltb, leb, ◌==◌, if◌then◌else◌, is_some, str_eq, str_leb, map, sort_by,
}
use showcase_host.Prelude.Results.{Result, ok, err, ◌>>=◌}
use showcase_host.Retrieval.{lookup, put}

-- The errors of `cancel` and `retry_failed`, as `ValueError`s.
pub data RunError : Type 0 where
  not_active not_finished no_sample nothing_failed : RunError
  cannot_recover : RunError

-- What `retry_failed` reads of a request and a result; `is_recoverable` is `validate_recovery`.
pub record Retrying (Q P : Type 0) : Type 0 where
  pub seed_of : Q → Option ℕ
  pub limit_of : Q → ℕ
  pub scored_of : P → ℕ
  pub is_recoverable : P → Bool

-- The runs in memory, and the files.
pub record Manager (Q P : Type 0) : Type 0 where
  pub runs : List (String × Run Q P)
  pub files : List (String × RunRecord Q P)

module _ {Q P : Type 0} where
  -- `_persist`, after a change of the record.
  unfoldable pub store_run : Run Q P → Manager Q P → Manager Q P
  store_run r m = record { runs = put r.row.id r m.runs; files = put r.row.id r.row m.files }

  unfoldable pub start :
      String → ℕ → Q → Option String → Option P → Manager Q P → Run Q P × Manager Q P
  unfolding new_run store_run
  start id now request retry_of previous m =
      let r = new_run id now request retry_of previous in (r, store_run r m)

  -- Whether the code that runs in a step calls `_persist`.
  abbrev pub persists : RunEvent P → TaskState → RunRecord Q P → Bool
  persists (begin now) task row = is_waiting task
  persists (progress completed total partial) task row = is_executing task
  persists (finish now ending) task row = is_executing task
  persists drop task row = false
  persists (settle now) task row = is_ended task && is_active row.status

  -- The object in memory changes in place; the file changes with `_persist`.
  unfoldable pub store_step : RunEvent P → Run Q P → Manager Q P → Run Q P × Manager Q P
  unfolding store_run
  store_step event r m =
      let next = step event r.task r.row in
      (
        next,
        if persists event r.task r.row
            then store_run next m
            else record m { runs = put next.row.id next m.runs },
      )

  unfoldable pub store_steps : List (RunEvent P) → Run Q P × Manager Q P → Run Q P × Manager Q P
  unfolding store_step
  store_steps [] (r, m) = (r, m)
  store_steps (event ∷ events) (r, m) = store_steps events (store_step event r m)

  -- The end of `cancel`.
  unfoldable pub settle_run : ℕ → Run Q P × Manager Q P → Run Q P × Manager Q P
  unfolding settle_cancelled store_run
  settle_run now (r, m) =
      let settled = record r { row = settle_cancelled now r.row } in
      (settled, if is_active r.row.status then store_run settled m else m)

  -- `cancel` of the run that `get` returned. `events` is what the loop does until the cancelled task has ended.
  unfoldable pub cancel_run :
      ℕ → List (RunEvent P) → Manager Q P → Run Q P → Result RunError (Run Q P × Manager Q P)
  unfolding store_steps settle_run
  cancel_run now events m r =
      if is_active r.row.status
      then ok (settle_run now (store_steps events (r, m)))
      else err not_active

  abbrev pub cancel_found :
      ℕ
      → List (RunEvent P)
      → Option (Run Q P) × Manager Q P
      → Result RunError (Option (Run Q P) × Manager Q P)
  cancel_found now events (none, m) = ok (none, m)
  cancel_found now events (some r, m) =
      cancel_run now events m r >>= λ settled. ok (some settled.0, settled.1)

  unfoldable pub retry_with :
      Retrying Q P
      → String
      → ℕ
      → RunRecord Q P
      → Manager Q P
      → Option ℕ
      → Option P
      → Result RunError (Run Q P × Manager Q P)
  unfolding start
  retry_with reads id now r m none result = err no_sample
  retry_with reads id now r m (some seed) none = err no_sample
  retry_with reads id now r m (some seed) (some result) =
      if not (reads.is_recoverable result)
      then err cannot_recover
      else if leb (reads.limit_of r.request) (reads.scored_of result)
      then err nothing_failed
      else ok (start id now r.request (some r.id) (some result) m)

  unfoldable pub retry_run :
      Retrying Q P
      → String
      → ℕ
      → RunRecord Q P
      → Manager Q P
      → Result RunError (Run Q P × Manager Q P)
  unfolding retry_with
  retry_run reads id now r m =
      if is_retryable r.status
      then retry_with reads id now r m (reads.seed_of r.request) r.result
      else err not_finished

  abbrev pub retry_found :
      Retrying Q P
      → String
      → ℕ
      → Option (Run Q P) × Manager Q P
      → Result RunError (Option (Run Q P) × Manager Q P)
  retry_found reads id now (none, m) = ok (none, m)
  retry_found reads id now (some r, m) =
      retry_run reads id now r.row m >>= λ started. ok (some started.0, started.1)

module _ {Q P : Type 0} (map_examples : (Example → Example) → P → P) where
  -- A run without a task counts as one whose task has ended.
  abbrev from_file : RunRecord Q P → Run Q P
  from_file row = record { row = read_row map_examples row; task = ended }

  abbrev read_run : String → Manager Q P → Option (RunRecord Q P) → Option (Run Q P) × Manager Q P
  read_run id m none = (none, m)
  read_run id m (some row) =
      (some (from_file row), record m { runs = put id (from_file row) m.runs })

  abbrev get_or_read : String → Manager Q P → Option (Run Q P) → Option (Run Q P) × Manager Q P
  get_or_read id m (some r) = (some r, m)
  get_or_read id m none = read_run id m (lookup id m.files)

  -- `get`.
  unfoldable pub get : String → Manager Q P → Option (Run Q P) × Manager Q P
  unfolding read_row
  get id m = get_or_read id m (lookup id m.runs)

  unfoldable pub cancel :
      String
      → ℕ
      → List (RunEvent P)
      → Manager Q P
      → Result RunError (Option (Run Q P) × Manager Q P)
  unfolding get cancel_run
  cancel id now events m = cancel_found now events (get id m)

  -- `retry_failed`, where `id` is the new run's.
  unfoldable pub retry_failed :
      Retrying Q P
      → String
      → String
      → ℕ
      → Manager Q P
      → Result RunError (Option (Run Q P) × Manager Q P)
  unfolding get retry_run
  retry_failed reads run_id id now m = retry_found reads id now (get run_id m)
