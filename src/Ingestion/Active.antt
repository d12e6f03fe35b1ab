-- ===== src/Ingestion/Active.antt =====
-- A repository has one active ingestion job at most.
use showcase_host.Prelude.{
  some_eq, subst, ◌<◌, ℕ, ◌≤◌, String, Bool, true, Option, none, some, List, [], ◌∷◌, ◌++◌, ◌≡◌,
  refl, ==_iff, find, filter, length, inl, inr, Bool-cases, arith,
}
use showcase_host.Jobs.{Job}
use showcase_host.Ingestion.{new_job}
use showcase_host.Ingestion.Tables.{
  IngestionColumns, is_active_for, new_columns, active_or_new, enqueue_ingestion,
}

-- How many active jobs a repository has.
abbrev count_active : ℕ → List (Job IngestionColumns) → ℕ
count_active repository_id jobs = length (filter (is_active_for repository_id) jobs)

-- The job is in the table, and it is the repository's only active one.
pub record IsOnlyActive (repository_id : ℕ) (job : Job IngestionColumns)
    (jobs : List (Job IngestionColumns)) : Type 0 where
  pub stored : find (is_active_for repository_id) jobs ≡ some job
  pub active : is_active_for repository_id job ≡ true
  pub only : count_active repository_id jobs ≡ 1

find-active :
    (p : Job IngestionColumns → Bool) (jobs : List (Job IngestionColumns))
    (job : Job IngestionColumns)
    → find p jobs ≡ some job
    → (p job ≡ true) × (0 < length (filter p jobs))
find-active p [] job = λ h. absurd (cc h)
find-active p (j ∷ jobs) job = elim (Bool-cases (p j)) [
  | inl found ↦ rw found (λ h. (subst (λ x. p x ≡ true) (some_eq _ _ h) found, omega arith))
  | inr other ↦ rw other (find-active p jobs job)
]

none-active :
    (p : Job IngestionColumns → Bool) (jobs : List (Job IngestionColumns))
    (job : Job IngestionColumns)
    → find p jobs ≡ none
    → p job ≡ true
    → (find p (jobs ++ job ∷ []) ≡ some job) × (length (filter p (jobs ++ job ∷ [])) ≡ 1)
none-active p [] job h a = rw a (refl, omega arith)
none-active p (j ∷ jobs) job h a = ground (arith, h, none-active p jobs job)

module _ (id now repository_id user_id : ℕ) (model : Option String) where
  new-is_active :
      is_active_for repository_id (new_job id now (new_columns repository_id user_id model)) ≡ true
  new-is_active = rw ((==_iff repository_id repository_id).1 refl) refl

  -- An enqueued job is the only active one of its repository, if there was at most one.
  active_or_new-IsOnlyActive :
      (jobs : List (Job IngestionColumns)) (found : Option (Job IngestionColumns))
      → count_active repository_id jobs ≤ 1
      → find (is_active_for repository_id) jobs ≡ found
      → IsOnlyActive repository_id
          (active_or_new id now (new_columns repository_id user_id model) jobs found).0
          (active_or_new id now (new_columns repository_id user_id model) jobs found).1
  active_or_new-IsOnlyActive jobs (some job) few h =
      let (active, some_active) = find-active (is_active_for repository_id) jobs job h in
      record { stored = h; active = active; only = omega (arith, few, some_active) }
  active_or_new-IsOnlyActive jobs none few h =
      let (stored, only) = none-active (is_active_for repository_id) jobs _ h new-is_active in
      record { stored = stored; active = new-is_active; only = only }

  -- If the repository has at most one active job, then `enqueue_ingestion` returns an active job of it,
  -- which is stored, and the repository has exactly that one.
  pub enqueue_ingestion-IsOnlyActive :
      (jobs : List (Job IngestionColumns))
      → count_active repository_id jobs ≤ 1
      → IsOnlyActive repository_id
          (enqueue_ingestion id now repository_id user_id model jobs).0
          (enqueue_ingestion id now repository_id user_id model jobs).1
  unfolding enqueue_ingestion
  enqueue_ingestion-IsOnlyActive jobs few = active_or_new-IsOnlyActive jobs _ few refl
