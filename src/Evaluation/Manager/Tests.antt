-- ===== src/Evaluation/Manager/Tests.antt =====
-- A run that is cancelled while it executes, and the retry of one that ended with errors.
use showcase_host.Prelude.{ℕ, true, Option, none, some, List, [], ◌∷◌, ◌≡◌, refl}
use showcase_host.Prelude.Results.{Result, ok, err}
use showcase_host.Evaluation.Manager.{
  Manager, RunError, Retrying, not_active, start, get, cancel, retry_failed,
}
use showcase_host.Evaluation.Manager.States.{
  Run, returned, was_cancelled, RunEvent, begin, progress, finish, drop, settle,
  completed_with_errors, cancelled, new_run, run_events,
}
use showcase_host.Evaluation.Manager.Lifecycle.{IsTimed, final_stays}
use showcase_host.Evaluation.Manager.Reading.{Example, missing, text, read_example}
use showcase_host.Evaluation.Manager.Cancel.{IsCancelled, cancel-IsCancelled}

-- The request is the limit, and the result the number of scored examples.
abbrev first : Run ℕ ℕ
first = new_run "a" 1 10 none none

abbrev worked : List (RunEvent ℕ)
worked = begin 2 ∷ progress 3 10 3 ∷ finish 5 (returned 8 2) ∷ []

abbrev later : List (RunEvent ℕ)
later = progress 4 10 4 ∷ begin 9 ∷ finish 9 was_cancelled ∷ []

ends_with_errors : (run_events worked first).row.status ≡ completed_with_errors
unfolding run_events new_run
ends_with_errors = refl

final_stays_example :
    IsTimed (run_events worked first).row
    × ((run_events later (run_events worked first)).row ≡ (run_events worked first).row)
unfolding run_events new_run
final_stays_example = final_stays "a" 1 10 none none worked later refl

abbrev started : Manager ℕ ℕ
started = (start "a" 1 10 none none (record { runs = []; files = [] })).1

abbrev until_cancelled : List (RunEvent ℕ)
until_cancelled = begin 2 ∷ finish 3 was_cancelled ∷ []

-- The results are numbers, and have no examples.
abbrev no_examples : (Example → Example) → ℕ → ℕ
no_examples f result = result

abbrev or_none : Result RunError (Option (Run ℕ ℕ) × Manager ℕ ℕ) → Run ℕ ℕ × Manager ℕ ℕ
or_none (ok (some r, m)) = (r, m)
or_none (ok (none, m)) = (first, m)
or_none (err e) = (first, record { runs = []; files = [] })

abbrev after_cancel : Run ℕ ℕ × Manager ℕ ℕ
after_cancel = or_none (cancel no_examples "a" 4 until_cancelled started)

cancels :
    cancel no_examples "a" 4 until_cancelled started ≡ ok (some after_cancel.0, after_cancel.1)
unfolding cancel start
cancels = refl

cancels_once : cancel no_examples "a" 9 [] after_cancel.1 ≡ err not_active
unfolding cancel start run_events
cancels_once = refl

cancel-IsCancelled_example :
    (old : Run ℕ ℕ) × ((get no_examples "a" started).0 ≡ some old)
    × IsCancelled 4 until_cancelled old after_cancel.0 after_cancel.1
cancel-IsCancelled_example =
    cancel-IsCancelled no_examples "a" 4 until_cancelled started after_cancel.1 after_cancel.0
      cancels

-- A task whose first `_persist` is interrupted leaves a run that `cancel` settles.
interrupted :
    (run_events (begin 2 ∷ drop ∷ settle 3 ∷ []) first).row
    ≡ record (run_events (begin 2 ∷ []) first).row { status = cancelled; finished_at = some 3 }
unfolding run_events new_run
interrupted = refl

-- An answer of an older file takes its text from the other entry.
reads_old_answer :
    read_example (record {
      candidate_answer = text "def f";
      raw_response = missing;
      response_status = missing;
    })
    ≡ record {
      candidate_answer = text "def f";
      raw_response = text "def f";
      response_status = missing;
    }
unfolding read_example
reads_old_answer = refl

abbrev reads : Retrying ℕ ℕ
reads = record {
  seed_of = λ q. some 7;
  limit_of = λ q. q;
  scored_of = λ p. p;
  is_recoverable = λ p. true;
}

abbrev finished : Manager ℕ ℕ
finished = record { runs = ("a", run_events worked first) ∷ []; files = [] }

abbrev after_retry : Run ℕ ℕ × Manager ℕ ℕ
after_retry = or_none (retry_failed no_examples reads "a" "b" 20 finished)
