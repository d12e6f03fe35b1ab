-- ===== src/Evaluation/Manager/States.antt =====
-- The record of a run and the steps that change it: `_execute` of app/evaluation/service.py.
use showcase_host.Prelude.{
  ℕ, String, Bool, true, false, Option, none, some, List, [], ◌∷◌, ◌==◌, if◌then◌else◌,
}

pub data RunStatus : Type 0 where
  queued running succeeded completed_with_errors failed cancelled : RunStatus

-- Where the coroutine `_execute` stands. A run that was read from its file has no task.
pub data TaskState : Type 0 where
  not_started executing ended : TaskState

pub record RunRecord (Q P : Type 0) : Type 0 where
  pub id : String
  pub status : RunStatus
  pub created_at : ℕ
  pub started_at : Option ℕ
  pub finished_at : Option ℕ
  pub completed_examples : ℕ
  pub total_examples : Option ℕ
  pub request : Q
  pub result : Option P
  pub retry_of : Option String
  pub error : Option String

pub record Run (Q P : Type 0) : Type 0 where
  pub row : RunRecord Q P
  pub task : TaskState

-- How `self._runner.run` ends: with a result and its number of failed examples, cancelled, or by another
-- exception with the text of `evaluation_error`.
pub data Ending (P : Type 0) : Type 0 where
  returned : P → ℕ → Ending P
  was_cancelled : Ending P
  raised : String → Ending P

abbrev pub is_active : RunStatus → Bool
is_active queued = true
is_active running = true
is_active succeeded = false
is_active completed_with_errors = false
is_active failed = false
is_active cancelled = false

abbrev pub is_waiting : TaskState → Bool
is_waiting not_started = true
is_waiting executing = false
is_waiting ended = false

abbrev pub is_executing : TaskState → Bool
is_executing not_started = false
is_executing executing = true
is_executing ended = false

abbrev pub is_ended : TaskState → Bool
is_ended not_started = false
is_ended executing = false
is_ended ended = true

-- The statuses that `retry_failed` accepts.
abbrev pub is_retryable : RunStatus → Bool
is_retryable failed = true
is_retryable completed_with_errors = true
is_retryable cancelled = true
is_retryable queued = false
is_retryable running = false
is_retryable succeeded = false

module _ {Q P : Type 0} where
  unfoldable pub new_run : String → ℕ → Q → Option String → Option P → Run Q P
  new_run id now request retry_of previous = record {
    row = record {
      id = id;
      status = queued;
      created_at = now;
      started_at = none;
      finished_at = none;
      completed_examples = 0;
      total_examples = none;
      request = request;
      result = previous;
      retry_of = retry_of;
      error = none;
    };
    task = not_started;
  }

  -- The assignments of `_execute` before the `try`.
  unfoldable pub begin_run : ℕ → RunRecord Q P → RunRecord Q P
  begin_run now r = record r { status = running; started_at = some now }

  -- `progress`.
  unfoldable pub report : ℕ → ℕ → P → RunRecord Q P → RunRecord Q P
  report completed total partial r = record r {
    completed_examples = completed;
    total_examples = some total;
    result = some partial;
  }

  -- The end of the `try` statement, and the last assignment.
  unfoldable pub end_run : ℕ → Ending P → RunRecord Q P → RunRecord Q P
  end_run now (returned result failed_examples) r = record r {
    result = some result;
    status = if failed_examples == 0 then succeeded else completed_with_errors;
    finished_at = some now;
  }
  end_run now was_cancelled r = record r {
    status = cancelled;
    error = none;
    finished_at = some now;
  }
  end_run now (raised message) r = record r {
    status = failed;
    error = some message;
    finished_at = some now;
  }

  -- What `cancel` does once the task, if there is one, has ended.
  unfoldable pub settle_cancelled : ℕ → RunRecord Q P → RunRecord Q P
  settle_cancelled now r =
      if is_active r.status
      then record r { status = cancelled; error = none; finished_at = some now }
      else r

-- The steps of the event loop that concern a run. `drop` is the end of a task that was cancelled before its
-- coroutine began, or while it waits for a `_persist` outside of the `try`; `settle` is the end of `cancel`.
pub data RunEvent (P : Type 0) : Type 0 where
  begin : ℕ → RunEvent P
  progress : ℕ → ℕ → P → RunEvent P
  finish : ℕ → Ending P → RunEvent P
  drop : RunEvent P
  settle : ℕ → RunEvent P

module _ {Q P : Type 0} where
  -- A task begins once, reports while it executes and ends once; `cancel` settles a run whose task has ended.
  unfoldable pub step : RunEvent P → TaskState → RunRecord Q P → Run Q P
  unfolding begin_run report end_run settle_cancelled
  step (begin now) not_started r = record { row = begin_run now r; task = executing }
  step (begin now) executing r = record { row = r; task = executing }
  step (begin now) ended r = record { row = r; task = ended }
  step (progress completed total partial) executing r = record {
    row = report completed total partial r;
    task = executing;
  }
  step (progress completed total partial) not_started r = record { row = r; task = not_started }
  step (progress completed total partial) ended r = record { row = r; task = ended }
  step (finish now ending) executing r = record { row = end_run now ending r; task = ended }
  step (finish now ending) not_started r = record { row = r; task = not_started }
  step (finish now ending) ended r = record { row = r; task = ended }
  step drop not_started r = record { row = r; task = ended }
  step drop executing r = record { row = r; task = ended }
  step drop ended r = record { row = r; task = ended }
  step (settle now) ended r = record { row = settle_cancelled now r; task = ended }
  step (settle now) not_started r = record { row = r; task = not_started }
  step (settle now) executing r = record { row = r; task = executing }

  unfoldable pub run_events : List (RunEvent P) → Run Q P → Run Q P
  unfolding step
  run_events [] r = r
  run_events (event ∷ events) r = run_events events (step event r.task r.row)
