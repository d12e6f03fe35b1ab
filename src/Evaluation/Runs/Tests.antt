-- ===== src/Evaluation/Runs/Tests.antt =====
-- Runs of three examples: one succeeds at once, one at its second attempt, one never.
use showcase_host.Prelude.{
  ℕ, zero, suc, ◌<◌, ◌≤◌, true, none, some, List, [], ◌∷◌, ◌≡◌, refl, In, inl, inr, map, arith,
}
use showcase_host.Prelude.Results.{Result, ok, err}
use showcase_host.Evaluation.Runs.{first_pass, retry_pass, run}
use showcase_host.Evaluation.Runs.Recovery.{
  place_detail, recover_detail, validate_recovery, SavedResult, RecoveryError, start_details,
}
use showcase_host.Evaluation.Runs.Details.{Detail, Progress, succeeded, item_at, somes}
use showcase_host.Evaluation.Runs.Errors.{
  exception_leaves, Exc, exception, group, no_more, and_then, evaluation_error,
}
use showcase_host.Evaluation.Runs.Settled.{occurrences}
use showcase_host.Evaluation.Runs.Outcome.{IsSettled, run-IsSettled, run_keeps_scored}

abbrev timeout : Exc
timeout = exception "TimeoutError" "" none none

abbrev attempt_at : ℕ → ℕ → Result Exc ℕ
attempt_at zero attempt = ok 10
attempt_at (suc zero) (suc zero) = err timeout
attempt_at (suc zero) attempt = ok 20
attempt_at (suc (suc n)) attempt = err timeout

grouped_error :
    evaluation_error (
      group (
        and_then timeout
          (and_then (exception "ValueError" "bad" (some ("OSError", "")) none) no_more)))
    ≡ "TimeoutError: no details; ValueError: bad (caused by OSError: no details)"
unfolding evaluation_error exception_leaves
grouped_error = refl

abbrev saved_detail : Detail ℕ
saved_detail = record {
  index = 0;
  status = succeeded;
  attempts = 1;
  error = none;
  retry_errors = [];
  scores = some 99;
}

abbrev saved : SavedResult ℕ ℕ
saved = record {
  sample_fingerprint = some "f";
  retrieval = some 1;
  examples = (some 0, saved_detail) ∷ [];
}

abbrev firsts : List ℕ
firsts = 2 ∷ 0 ∷ 1 ∷ []

abbrev retries : List ℕ
retries = 1 ∷ 2 ∷ 2 ∷ 0 ∷ 1 ∷ 0 ∷ []

abbrev or_nothing : Result RecoveryError (Progress ℕ) → Progress ℕ
or_nothing (ok p) = p
or_nothing (err e) = record { details = []; completed = 0 }

abbrev outcome : Progress ℕ
outcome = or_nothing (run 2 attempt_at (λ _. true) 3 "f" (some saved) firsts retries)

returns : run 2 attempt_at (λ _. true) 3 "f" (some saved) firsts retries ≡ ok outcome
unfolding run start_details validate_recovery recover_detail place_detail
returns = refl

attempts_made : map (λ (d : Detail ℕ). d.attempts) (somes outcome.details) ≡ 1 ∷ 2 ∷ 3 ∷ []
unfolding run start_details validate_recovery recover_detail place_detail retry_pass first_pass
attempts_made = refl

changed_sample :
    run 2 attempt_at (λ _. true) 3 "g" (some saved) firsts retries
    ≡ err RecoveryError.sample_changed
unfolding run start_details validate_recovery
changed_sample = refl

each_first : (m : ℕ) → m < 3 → In m firsts
each_first zero h = inr (inl refl)
each_first (suc zero) h = inr (inr (inl refl))
each_first (suc (suc zero)) h = inl refl
each_first (suc (suc (suc m))) h = absurd (omega (arith, h))

each_retried : (m : ℕ) → m < 3 → 2 ≤ occurrences m retries
each_retried zero h = omega arith
each_retried (suc zero) h = omega arith
each_retried (suc (suc zero)) h = omega arith
each_retried (suc (suc (suc m))) h = absurd (omega (arith, h))

run-IsSettled_example : IsSettled 2 3 outcome
run-IsSettled_example =
    run-IsSettled 2 attempt_at (λ _. true) 3 "f" (some saved) firsts retries ((λ _. refl), tt)
      outcome returns each_first each_retried

run_keeps_scored_example : item_at 0 outcome.details ≡ some saved_detail
run_keeps_scored_example =
    run_keeps_scored 2 attempt_at (λ _. true) 3 "f" saved firsts retries outcome ((λ _. refl), tt)
      returns 0 saved_detail (inl refl) refl
