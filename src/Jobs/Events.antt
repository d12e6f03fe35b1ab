-- ===== src/Jobs/Events.antt =====
-- Interleavings: what the runners, the workers and the operators do to one job table, as a sequence
-- of the operations of app/services/{ingestion,chunking,embeddings}.py.
pub mod Keys
pub mod Sound
pub mod Leases
pub mod Attempts
use showcase_host.Prelude.{
  ℕ, String, Bool, Option, none, some, List, [], ◌∷◌, ◌≡◌, refl, is_some, All, arith,
}
use showcase_host.Jobs.{
  Job, JobStatus, update_job, claim_next, refresh_lease, heartbeat, fail_or_retry, succeed,
  requeue_failed,
}

-- The runner's two settings.
pub record Policy : Type 0 where
  pub lease_seconds : ℕ
  pub max_attempts : ℕ

-- Each with the time at which it runs, and with the row that it is about.
pub data Event (X : Type 0) : Type 0 where
  claim : ℕ → (ℕ → Bool) → Event X
  refresh beat : ℕ → ℕ → Event X
  fail : ℕ → ℕ → String → String → Bool → Event X
  finish : ℕ → ℕ → (X → X) → Event X
  requeue : ℕ → (X → X) → Event X

module _ {X : Type 0} (p : Policy) where
  -- The new table, with the id that a claim returned.
  unfoldable pub apply : Event X → List (Job X) → Option ℕ × List (Job X)
  apply (claim now locked) jobs = claim_next now p.lease_seconds locked jobs
  apply (refresh now id) jobs = (none, refresh_lease now p.lease_seconds id jobs)
  apply (beat now id) jobs = (none, heartbeat now p.lease_seconds id jobs)
  apply (fail now id code message transient) jobs =
      (none, fail_or_retry now p.max_attempts id code message transient jobs)
  apply (finish now id g) jobs = (none, succeed now id g jobs)
  apply (requeue id g) jobs = (none, requeue_failed id g jobs)

  unfoldable pub run : List (Event X) → List (Job X) → List (Job X)
  run [] jobs = jobs
  run (e ∷ es) jobs = run es (apply e jobs).1
