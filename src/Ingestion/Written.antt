-- ===== src/Ingestion/Written.antt =====
-- What single steps of `IngestionProcessor.process` of app/services/ingestion.py write.
use showcase_host.Prelude.{
  Bool, Bool-cases, inl, inr, [], ◌∷◌, ◌==◌, ap, ◌∙◌, subst, ℕ, String, Option, none, some, List,
  ◌++◌, ◌≡◌, refl, find, arith,
}
use showcase_host.Snapshots.Store.{Storage, StoredSnapshot}
use showcase_host.Jobs.{
  reset_failed, is_failed, update_job, requeue_failed, Job, succeed, extend_lease, refresh_lease,
}
use showcase_host.Jobs.Ensure.{ensure_job-IsEnsured}
use showcase_host.Jobs.Ending.{
  IsUpdated, IsFailed, IsSucceeded, IsUpdated-then, update_job-IsUpdated, fail_or_retry-IsUpdated,
  succeed-IsUpdated,
}
use showcase_host.Jobs.Events.Keys.{extend_lease-KeepsId}
use showcase_host.Chunking.Columns.{
  reset_columns, ChunkingColumns, ensure_chunking_job, is_chunking_key, new_columns_key,
}
use showcase_host.Repositories.{Repository}
use showcase_host.Ingestion.Endings.{Commit, observed_rows, HasSnapshot, IsRecorded}
use showcase_host.Ingestion.{
  IngestionError, Inputs, describe, fail_ingestion, set_snapshot, renew_jobs, add_snapshot,
  observe_commit,
}
use showcase_host.Ingestion.Tables.{IngestionColumns, SourceSnapshot, World}

pub append_same : {A : Type 0} {xs ys : List A} (zs : List A) → xs ≡ ys → xs ++ zs ≡ ys ++ zs
append_same zs e = ap (λ l. l ++ zs) e

-- The row has another lease.
abbrev IsRenewed : Job IngestionColumns → Job IngestionColumns → Type 0
IsRenewed j k = (until : Option ℕ) × (k ≡ record j { lease_expires_at = until })

-- The row has a commit and another lease.
abbrev IsHeld : String → Job IngestionColumns → Job IngestionColumns → Type 0
IsHeld sha j k =
    (until : Option ℕ) × (k
      ≡ record j { details = record j.details { commit_sha = some sha }; lease_expires_at = until })

refresh_lease-IsUpdated :
    (now lease id : ℕ) (jobs : List (Job IngestionColumns))
    → IsUpdated id IsRenewed jobs (refresh_lease now lease id jobs)
unfolding refresh_lease extend_lease
refresh_lease-IsUpdated now lease id jobs =
    update_job-IsUpdated id _ IsRenewed jobs (extend_lease-KeepsId now lease) (λ j. (_, refl))

-- A change of a row that keeps its key leaves a row with the key.
find_updated :
    (P : ChunkingColumns → Bool) (id : ℕ) (f : Job ChunkingColumns → Job ChunkingColumns)
    (jobs : List (Job ChunkingColumns)) (c : Job ChunkingColumns)
    → ((j : Job ChunkingColumns) → P (f j).details ≡ P j.details)
    → find (λ j. P j.details) jobs ≡ some c
    → (d : Job ChunkingColumns) × (find (λ j. P j.details) (update_job id f jobs) ≡ some d)
find_updated P id f [] c keeps e = absurd (cc e)
find_updated P id f (j ∷ jobs) c keeps e = elim (Bool-cases (P j.details)) [
  | inl found ↦ elim (Bool-cases (j.id == id)) [
    | inl here ↦ rw here (f j, rw (keeps j ∙ found) refl)
    | inr elsewhere ↦ rw elsewhere (j, rw found refl)
  ]
  | inr other ↦ elim (Bool-cases (j.id == id)) [
    | inl here ↦ rw here (c, rw (keeps j ∙ other) (rw other at e))
    | inr elsewhere ↦
        let (d, later) = find_updated P id f jobs c keeps (rw other at e) in
        rw elsewhere (d, rw other later)
  ]
]

reset_failed-same :
    (snapshot_id : ℕ) (profile_key : String) (j : Job ChunkingColumns)
    → is_chunking_key snapshot_id profile_key (reset_failed reset_columns j).details
      ≡ is_chunking_key snapshot_id profile_key j.details
unfolding reset_failed reset_columns
reset_failed-same snapshot_id profile_key j = elim (Bool-cases (is_failed j.status)) [
  | inl e ↦ rw e refl
  | inr e ↦ rw e refl
]

module _ (i : Inputs) (id : ℕ) where
  -- The commit is observed, and only the job's row and the repositories differ.
  pub record IsObserved (c : Commit) (w u : World) : Type 0 where
    pub same_snapshots : u.snapshots ≡ w.snapshots
    pub same_chunking : u.chunking_jobs ≡ w.chunking_jobs
    pub same_embedding : u.embedding_jobs ≡ w.embedding_jobs
    pub repositories : u.repositories ≡ observed_rows (some c) w.repositories
    pub storage : u.storage ≡ w.storage
    pub held : IsUpdated id (IsHeld c.sha) w.jobs u.jobs

  pub renewed :
      (c : Commit) (a b : List (Job IngestionColumns))
      → IsUpdated id (IsHeld c.sha) a b
      → IsUpdated id (IsHeld c.sha) a (refresh_lease i.now i.lease id b)
  renewed c a b h =
      IsUpdated-then id (IsHeld c.sha) IsRenewed (IsHeld c.sha) a b _
        (λ j k l (until, e) (later, f).
          (later, f ∙ ap (λ (x : Job IngestionColumns). record x { lease_expires_at = later }) e))
        h (refresh_lease-IsUpdated i.now i.lease id b)

  pub observe_commit-IsObserved :
      (w : World) (c : Commit) → IsObserved c w (observe_commit i id c.repository c.remote c.sha w)
  unfolding observe_commit
  observe_commit-IsObserved w c = record {
    same_snapshots = refl;
    same_chunking = refl;
    same_embedding = refl;
    repositories = refl;
    storage = refl;
    held =
        renewed c w.jobs _
          (update_job-IsUpdated id _ (IsHeld c.sha) w.jobs (λ j. refl) (λ j. (_, refl)));
  }

  pub fail_ingestion-IsRecorded :
      (w : World) (e : IngestionError)
      → IsRecorded i id e none w.storage w (fail_ingestion i id e w)
  unfolding fail_ingestion
  fail_ingestion-IsRecorded w e = record {
    same_snapshots = refl;
    same_chunking = refl;
    same_embedding = refl;
    repositories = refl;
    storage = refl;
    recorded =
        fail_or_retry-IsUpdated i.now i.max_attempts id (describe i id e).0 (describe i id e).1
          (describe i id e).2 w.jobs;
  }

  pub fail_ingestion-IsRecorded_observed :
      (w u : World) (c : Commit) (e : IngestionError) (files : Storage)
      → IsObserved c w u
      → IsRecorded i id e (some c) files w (fail_ingestion i id e (record u { storage = files }))
  unfolding fail_ingestion
  fail_ingestion-IsRecorded_observed w u c e files o = record {
    same_snapshots = o.same_snapshots;
    same_chunking = o.same_chunking;
    same_embedding = o.same_embedding;
    repositories = o.repositories;
    storage = refl;
    recorded =
        IsUpdated-then id (IsHeld c.sha) (IsFailed i.now i.max_attempts (describe i id e)) _ w.jobs
          u.jobs _
          (λ j k l (until, same) failed.
            subst (λ x. IsFailed i.now i.max_attempts (describe i id e) x l) same failed)
          o.held
          (fail_or_retry-IsUpdated i.now i.max_attempts id (describe i id e).0 (describe i id e).1
            (describe i id e).2 u.jobs);
  }

  pub succeeds :
      (c : Commit) (snapshot_id : ℕ) (a b : List (Job IngestionColumns))
      → IsUpdated id (IsHeld c.sha) a b
      → IsUpdated id
          (HasSnapshot i.now c.sha snapshot_id)
          a
          (succeed i.now id (set_snapshot i id snapshot_id) b)
  succeeds c snapshot_id a b h =
      IsUpdated-then id (IsHeld c.sha)
        (λ j k. IsSucceeded i.now (set_snapshot i id snapshot_id j.details) j k)
        (HasSnapshot i.now c.sha snapshot_id) a b _
        (λ j k l (until, same) done.
          subst (λ x. IsSucceeded i.now (set_snapshot i id snapshot_id x.details) x l) same done)
        h (succeed-IsUpdated i.now id (set_snapshot i id snapshot_id) b)

  pub chunked :
      (repository : Repository) (sha : String) (stored : StoredSnapshot) (w : World)
      → find
          (λ (j : Job ChunkingColumns). is_chunking_key i.next_snapshot i.profile_key j.details)
          (add_snapshot i id repository sha stored w).chunking_jobs
        ≡ some
            (ensure_chunking_job i.next_chunking i.now i.next_snapshot i.profile_key
              w.chunking_jobs).0
  unfolding add_snapshot ensure_chunking_job
  chunked repository sha stored w =
      (ensure_job-IsEnsured (is_chunking_key i.next_snapshot i.profile_key) i.next_chunking i.now _
        (new_columns_key i.next_snapshot i.profile_key) w.chunking_jobs).found

  pub renew_jobs-same :
      (s : SourceSnapshot) (model : Option String) (chunking : Job ChunkingColumns) (w : World)
      → ((renew_jobs i id s model chunking w).snapshots ≡ w.snapshots)
        × ((renew_jobs i id s model chunking w).repositories ≡ w.repositories)
        × ((renew_jobs i id s model chunking w).storage ≡ w.storage)
        × ((renew_jobs i id s model chunking w).jobs ≡ w.jobs)
  renew_jobs-same s model chunking w = (ground arith, ground arith, ground arith, ground arith)

  pub renew_jobs-chunked :
      (s : SourceSnapshot) (model : Option String) (chunking : Job ChunkingColumns) (w : World)
      (c : Job ChunkingColumns)
      → find
          (λ (j : Job ChunkingColumns). is_chunking_key s.id i.profile_key j.details)
          w.chunking_jobs
        ≡ some c
      → (d : Job ChunkingColumns) × (find
            (λ (j : Job ChunkingColumns). is_chunking_key s.id i.profile_key j.details)
            (renew_jobs i id s model chunking w).chunking_jobs
          ≡ some d)
  unfolding requeue_failed
  renew_jobs-chunked s model chunking w c e = elim (Bool-cases (is_failed chunking.status)) [
    | inl lost ↦ rw lost (
        find_updated (is_chunking_key s.id i.profile_key) chunking.id _ w.chunking_jobs c
          (reset_failed-same s.id i.profile_key) e)
    | inr other ↦ (c, ground (arith, other, e))
  ]

  pub ensured :
      (s : SourceSnapshot) (w : World)
      → find
          (λ (j : Job ChunkingColumns). is_chunking_key s.id i.profile_key j.details)
          (ensure_chunking_job i.next_chunking i.now s.id i.profile_key w.chunking_jobs).1
        ≡ some (ensure_chunking_job i.next_chunking i.now s.id i.profile_key w.chunking_jobs).0
  unfolding ensure_chunking_job
  ensured s w =
      (ensure_job-IsEnsured (is_chunking_key s.id i.profile_key) i.next_chunking i.now _
        (new_columns_key s.id i.profile_key) w.chunking_jobs).found
