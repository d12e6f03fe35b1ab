-- ===== src/Jobs/Ensure.antt =====
-- The jobs that are made once for a key: `ensure_chunking_job` and `ensure_embedding_job` of
-- app/services/{chunking,embeddings}.py.
use showcase_host.Prelude.{
  refl, inr, inl, arith, ◌⊎◌, ◌≡◌, ℕ, Bool, Option, none, some, List, [], ◌∷◌, ◌++◌, find,
}
use showcase_host.Jobs.{true, Job, queued}

-- A row as the database makes it.
abbrev pub new_job : {C : Type 0} → ℕ → ℕ → C → Job C
new_job id now columns = record {
  id = id;
  status = queued;
  attempt_count = 0;
  next_attempt_at = none;
  lease_expires_at = none;
  error_code = none;
  error_message = none;
  created_at = now;
  started_at = none;
  finished_at = none;
  details = columns;
}

abbrev job_or_insert :
    {C : Type 0} → ℕ → ℕ → C → List (Job C) → Option (Job C) → Job C × List (Job C)
job_or_insert id now columns jobs (some job) = (job, jobs)
job_or_insert id now columns jobs none =
    (new_job id now columns, jobs ++ new_job id now columns ∷ [])

-- Select the row of a unique key, or insert one. An `IntegrityError` of the insertion means that another
-- transaction has inserted the row since, which the second selection returns.
abbrev pub ensure_job : {C : Type 0} → (C → Bool) → ℕ → ℕ → C → List (Job C) → Job C × List (Job C)
ensure_job is_key id now columns jobs =
    job_or_insert id now columns jobs (find (λ j. is_key j.details) jobs)

-- What `ensure_job` returns is the row that its selection finds afterwards, and at most a new last row.
pub record IsEnsured {C : Type 0} (is_key : C → Bool) (before : List (Job C)) (job : Job C)
    (after : List (Job C)) : Type 0 where
  pub found : find (λ (j : Job C). is_key j.details) after ≡ some job
  pub kept : (after ≡ before) ⊎ (after ≡ before ++ job ∷ [])

find-append :
    {A : Type 0} (p : A → Bool) (xs : List A) (a : A)
    → find p xs ≡ none
    → p a ≡ true
    → find p (xs ++ a ∷ []) ≡ some a
find-append p [] a h k = rw k refl
find-append p (x ∷ xs) a h k = ground (arith, find-append p xs a)

module _ {C : Type 0} (is_key : C → Bool) (id now : ℕ) (columns : C)
    (own : is_key columns ≡ true) where
  inserted :
      (jobs : List (Job C)) (o : Option (Job C))
      → find (λ (j : Job C). is_key j.details) jobs ≡ o
      → IsEnsured is_key jobs
          (job_or_insert id now columns jobs o).0
          (job_or_insert id now columns jobs o).1
  inserted jobs none h = record {
    found = find-append (λ (j : Job C). is_key j.details) jobs (new_job id now columns) h own;
    kept = inr refl;
  }
  inserted jobs (some job) h = record { found = h; kept = inl refl }

  pub ensure_job-IsEnsured :
      (jobs : List (Job C))
      → IsEnsured is_key jobs
          (ensure_job is_key id now columns jobs).0
          (ensure_job is_key id now columns jobs).1
  ensure_job-IsEnsured jobs = inserted jobs (find (λ (j : Job C). is_key j.details) jobs) refl
