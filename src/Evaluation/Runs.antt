-- ===== src/Evaluation/Runs.antt =====
-- `EvaluationRunner.run` of app/evaluation/service.py: the attempts at the examples of a run, and the
-- summary. What an attempt at an example gives is a parameter.
pub mod Recovery
pub mod Details
pub mod Errors
pub mod Slots
pub mod Invariant
pub mod Completion
pub mod Passes
pub mod Settled
pub mod Outcome
mod Tests
use showcase_host.Evaluation.Runs.Recovery.{RecoveryError, SavedResult, start_details}
use showcase_host.Evaluation.Runs.Details.{
  ExampleStatus, succeeded, retrying, failed, Detail, has_scores, is_retrying, is_failed, Progress,
  item_at, set_item, count_some,
}
use showcase_host.Evaluation.Runs.Errors.{Exc, group, max_of, Leaf, evaluation_error}
use showcase_host.Prelude.{
  ℕ, suc, zero, ◌+◌, ◌-◌, ◌*◌, ◌^◌, max, String, Bool, true, false, not, ◌||◌, ◌&&◌, Option, none,
  some, List, [], ◌∷◌, ◌++◌, map, ltb, leb, ◌==◌, if◌then◌else◌, or_else, is_some, any, filter,
  length, str_eq, concat, str_take,
}
use showcase_host.Prelude.Results.{Result, ok, err, ◌>>=◌, fold_result}

-- The sleep before a round, in the unit of the settings.
unfoldable retry_delay : ℕ → ℕ → List Leaf → ℕ
retry_delay base attempt leaves =
    max (base * 2 ^ (attempt - 2)) (max_of (map (λ (l : Leaf). or_else l.retry_after 0) leaves))

abbrev status_after : ℕ → ℕ → ExampleStatus
status_after max_retries attempt = if leb attempt max_retries then retrying else failed

unfoldable pub attempt_detail : {S : Type 0} → ℕ → ℕ → ℕ → List String → Result Exc S → Detail S
unfolding evaluation_error
attempt_detail max_retries index attempt errors (ok scores) = record {
  index = index;
  status = succeeded;
  attempts = attempt;
  error = none;
  retry_errors = errors;
  scores = some scores;
}
attempt_detail max_retries index attempt errors (err exc) = record {
  index = index;
  status = status_after max_retries attempt;
  attempts = attempt;
  error = some (evaluation_error exc);
  retry_errors = errors ++ evaluation_error exc ∷ [];
  scores = none;
}

-- The update of a detail under the lock.
unfoldable pub save_attempt : {S : Type 0} → ℕ → Detail S → Bool → Progress S → Progress S
save_attempt index detail final p = record {
  details = set_item index detail p.details;
  completed = if final then p.completed + 1 else p.completed;
}

-- `exc is None or evaluation_example_max_retries == 0`.
abbrev pub is_final_first : {S : Type 0} → ℕ → Detail S → Bool
is_final_first max_retries detail = has_scores detail || max_retries == 0

module _ {S : Type 0} (max_retries : ℕ) (attempt_at : ℕ → ℕ → Result Exc S) where
  unfoldable pub run_attempt : ℕ → ℕ → List String → Detail S
  unfolding attempt_detail
  run_attempt index attempt errors =
      attempt_detail max_retries index attempt errors (attempt_at index attempt)

  unfoldable pub first_attempt : ℕ → Progress S → Progress S
  unfolding run_attempt save_attempt
  first_attempt index p =
      let detail = run_attempt index 1 [] in
      save_attempt index detail (is_final_first max_retries detail) p

  -- A round of `retry_failed`, of which the first has the number 2: it goes on while the detail that it saved
  -- last is to be retried.
  unfoldable pub retry_round : ℕ → Progress S → Detail S → Progress S
  unfolding run_attempt save_attempt
  retry_round index p before =
      let attempt = before.attempts + 1 in
      let detail = run_attempt index attempt before.retry_errors in
      save_attempt index detail (has_scores detail || ltb max_retries attempt) p

  -- The next step of the task of an example; a task without a detail makes the first attempt.
  unfoldable pub advance_first : ℕ → Progress S → Option (Detail S) → Progress S
  unfolding first_attempt
  advance_first index p none = first_attempt index p
  advance_first index p (some detail) = p

  unfoldable pub advance_retry : ℕ → Progress S → Option (Detail S) → Progress S
  unfolding retry_round
  advance_retry index p none = p
  advance_retry index p (some detail) =
      if is_retrying detail.status then retry_round index p detail else p

  -- The first group of tasks, in the order in which the scheduler lets them end.
  unfoldable pub first_pass : List ℕ → Progress S → Progress S
  unfolding advance_first
  first_pass [] p = p
  first_pass (index ∷ order) p =
      first_pass order (
        if ltb index (length p.details) then advance_first index p (item_at index p.details) else p)

  -- The second group, of which the scheduler interleaves the rounds.
  unfoldable pub retry_pass : List ℕ → Progress S → Progress S
  unfolding advance_retry
  retry_pass [] p = p
  retry_pass (index ∷ order) p = retry_pass order (advance_retry index p (item_at index p.details))

abbrev pub start_progress : {S : Type 0} → List (Option (Detail S)) → Progress S
start_progress details = record { details = details; completed = count_some details }

-- The counts of `_result`.
pub record Summary : Type 0 where
  pub scored_examples : ℕ
  pub failed_examples : ℕ
  pub retrying_examples : ℕ
  pub retried_examples : ℕ

unfoldable summary_of : {S : Type 0} → List (Detail S) → Summary
summary_of details = record {
  scored_examples = length (filter has_scores details);
  failed_examples = length (filter (λ d. is_failed d.status) details);
  retrying_examples = length (filter (λ d. is_retrying d.status) details);
  retried_examples = length (filter (λ d. ltb 1 d.attempts) details);
}

-- `run`, where `firsts` and `retries` are the orders in which the tasks end their rounds.
unfoldable pub run :
    {S C : Type 0}
    → ℕ
    → (ℕ → ℕ → Result Exc S)
    → (C → Bool)
    → ℕ
    → String
    → Option (SavedResult S C)
    → List ℕ
    → List ℕ
    → Result RecoveryError (Progress S)
run max_retries attempt_at same_settings count fingerprint previous firsts retries =
    start_details same_settings count fingerprint previous >>= λ details. ok (
      retry_pass max_retries attempt_at retries
        (first_pass max_retries attempt_at firsts (start_progress details)))
