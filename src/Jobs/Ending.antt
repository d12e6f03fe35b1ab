-- ===== src/Jobs/Ending.antt =====
-- What `_fail_or_retry` and `_succeed` of the three services write into a job table, by its columns.
use showcase_host.Prelude.{
  ℕ, ◌+◌, ◌^◌, ◌≤◌, ◌<◌, ◌≡◌, ◌≢◌, refl, ◌∙◌, ◌⊎◌, inl, inr, String, Bool, true, false, none, some,
  List, Bool-cases, arith, str_take, ltb,
}
use showcase_host.Jobs.{
  Job, queued, succeeded, failed, seconds, get_job, update_job, record_failure, fail_or_retry,
  mark_succeeded, succeed,
}
use showcase_host.Jobs.Table.{KeepsId, get_job-update}
use showcase_host.Jobs.Events.Keys.{record_failure-KeepsId, mark_succeeded-KeepsId}

-- Of two tables, only the row with an id differs, as a relation says.
pub record IsUpdated {X : Type 0} (id : ℕ) (R : Job X → Job X → Type 0)
    (before after : List (Job X)) : Type 0 where
  pub row :
      (j : Job X) → get_job id before ≡ some j → (k : Job X) × (get_job id after ≡ some k) × R j k
  pub no_row : get_job id before ≡ none → get_job id after ≡ none
  pub others : (k : ℕ) → k ≢ id → get_job k after ≡ get_job k before

-- The failure is recorded: the row waits for its next attempt if the error is transient and attempts are left;
-- else it has failed.
abbrev pub IsFailed : {X : Type 0} → ℕ → ℕ → String × String × Bool → Job X → Job X → Type 0
IsFailed now max_attempts (code, message, transient) j k =
    ((transient ≡ true)
      × (j.attempt_count < max_attempts)
      × (k ≡ record j {
        error_code = some (str_take 64 code);
        error_message = some (str_take 1000 message);
        lease_expires_at = none;
        status = queued;
        next_attempt_at = some (now + seconds (2 ^ j.attempt_count));
      }))
    ⊎ (((transient ≡ false) ⊎ (max_attempts ≤ j.attempt_count))
        × (k ≡ record j {
          error_code = some (str_take 64 code);
          error_message = some (str_take 1000 message);
          lease_expires_at = none;
          status = failed;
          finished_at = some now;
        }))

-- The row has succeeded with some columns.
abbrev pub IsSucceeded : {X : Type 0} → ℕ → X → Job X → Job X → Type 0
IsSucceeded now columns j k = k ≡ record j {
  status = succeeded;
  finished_at = some now;
  lease_expires_at = none;
  error_code = none;
  error_message = none;
  details = columns;
}

module _ {X : Type 0} where
  pub update_job-IsUpdated :
      (id : ℕ) (f : Job X → Job X) (R : Job X → Job X → Type 0) (jobs : List (Job X))
      → KeepsId f
      → ((j : Job X) → R j (f j))
      → IsUpdated id R jobs (update_job id f jobs)
  update_job-IsUpdated id f R jobs keeps related = record {
    row = λ j found. (f j, ground (arith, get_job-update id id f jobs keeps, found), related j);
    no_row = λ missing. ground (arith, get_job-update id id f jobs keeps, missing);
    others = λ k other. ground (arith, get_job-update k id f jobs keeps, other);
  }

  -- One update after another.
  pub IsUpdated-then :
      (id : ℕ) (R S T : Job X → Job X → Type 0) (a b c : List (Job X))
      → ((i j k : Job X) → R i j → S j k → T i k)
      → IsUpdated id R a b
      → IsUpdated id S b c
      → IsUpdated id T a c
  IsUpdated-then id R S T a b c both first second = record {
    row = λ j found.
        let (k, there, one) = first.row j found in
        let (l, here, two) = second.row k there in (l, here, both j k l one two);
    no_row = λ missing. second.no_row (first.no_row missing);
    others = λ k other. second.others k other ∙ first.others k other;
  }

  record_failure-IsFailed :
      (now max_attempts : ℕ) (code message : String) (transient : Bool) (j : Job X)
      → IsFailed now max_attempts
          (code, message, transient)
          j
          (record_failure now max_attempts code message transient j)
  unfolding record_failure
  record_failure-IsFailed now max_attempts code message false j = inr (inl refl, refl)
  record_failure-IsFailed now max_attempts code message true j =
      elim (Bool-cases (ltb j.attempt_count max_attempts)) [
        | inl left ↦ rw left (inl (refl, ground (arith, left), refl))
        | inr spent ↦ rw spent (inr (inr (ground (arith, spent)), refl))
      ]

  pub fail_or_retry-IsUpdated :
      (now max_attempts id : ℕ) (code message : String) (transient : Bool) (jobs : List (Job X))
      → IsUpdated id
          (IsFailed now max_attempts (code, message, transient))
          jobs
          (fail_or_retry now max_attempts id code message transient jobs)
  unfolding fail_or_retry
  fail_or_retry-IsUpdated now max_attempts id code message transient jobs =
      update_job-IsUpdated id _ _ jobs
        (record_failure-KeepsId now max_attempts code message transient)
        (record_failure-IsFailed now max_attempts code message transient)

  mark_succeeded-IsSucceeded :
      (now : ℕ) (g : X → X) (j : Job X) → IsSucceeded now (g j.details) j (mark_succeeded now g j)
  unfolding mark_succeeded
  mark_succeeded-IsSucceeded now g j = refl

  pub succeed-IsUpdated :
      (now id : ℕ) (g : X → X) (jobs : List (Job X))
      → IsUpdated id (λ j k. IsSucceeded now (g j.details) j k) jobs (succeed now id g jobs)
  unfolding succeed
  succeed-IsUpdated now id g jobs =
      update_job-IsUpdated id _ _ jobs (mark_succeeded-KeepsId now g)
        (mark_succeeded-IsSucceeded now g)
