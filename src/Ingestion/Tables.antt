-- ===== src/Ingestion/Tables.antt =====
-- The rows of ingestion jobs and snapshots, `enqueue_ingestion` and `_enforce_retention` of
-- app/services/ingestion.py.
use showcase_host.Prelude.{
  ℕ, String, Bool, not, ◌||◌, ◌&&◌, Option, none, some, List, [], ◌∷◌, ◌++◌, map, leb, ◌==◌,
  if◌then◌else◌, any, filter, find, str_eq, sort_by,
}
use showcase_host.Snapshots.{Limits, SnapshotError}
use showcase_host.Snapshots.Store.{Storage, delete}
use showcase_host.Jobs.{Job, is_queued, is_running}
use showcase_host.Jobs.Ensure.{new_job}
use showcase_host.Chunking.Columns.{ChunkingColumns, EmbeddingColumns}
use showcase_host.Embeddings.Calls.{drop}
use showcase_host.Repositories.{Repository, SourceRepository}

-- The columns of `ingestion_jobs` that the other job tables have not.
pub record IngestionColumns : Type 0 where
  pub repository_id : ℕ
  pub requested_by_user_id : ℕ
  pub commit_sha : Option String
  pub snapshot_id : Option ℕ
  pub embedding_model_override : Option String

pub record SourceSnapshot : Type 0 where
  pub id : ℕ
  pub repository_id : ℕ
  pub commit_sha : String
  pub archive_key : String
  pub manifest_key : String
  pub file_count : ℕ
  pub total_bytes : ℕ
  pub created_at : ℕ

-- The `where` of `enqueue_ingestion`.
abbrev pub is_active_for : ℕ → Job IngestionColumns → Bool
is_active_for repository_id job =
    job.details.repository_id == repository_id && (is_queued job.status || is_running job.status)

abbrev pub new_columns : ℕ → ℕ → Option String → IngestionColumns
new_columns repository_id user_id model = record {
  repository_id = repository_id;
  requested_by_user_id = user_id;
  commit_sha = none;
  snapshot_id = none;
  embedding_model_override = model;
}

abbrev pub active_or_new :
    ℕ
    → ℕ
    → IngestionColumns
    → List (Job IngestionColumns)
    → Option (Job IngestionColumns)
    → Job IngestionColumns × List (Job IngestionColumns)
active_or_new id now columns jobs (some active) = (active, jobs)
active_or_new id now columns jobs none =
    (new_job id now columns, jobs ++ new_job id now columns ∷ [])

-- `enqueue_ingestion`. An `IntegrityError` means that another transaction has inserted an active job, which
-- the second selection returns as the first would have.
unfoldable pub enqueue_ingestion :
    ℕ
    → ℕ
    → ℕ
    → ℕ
    → Option String
    → List (Job IngestionColumns)
    → Job IngestionColumns × List (Job IngestionColumns)
enqueue_ingestion id now repository_id user_id model jobs =
    active_or_new id now (new_columns repository_id user_id model) jobs
      (find (is_active_for repository_id) jobs)

pub record World : Type 0 where
  pub jobs : List (Job IngestionColumns)
  pub repositories : List Repository
  pub snapshots : List SourceSnapshot
  pub chunking_jobs : List (Job ChunkingColumns)
  pub embedding_jobs : List (Job EmbeddingColumns)
  pub storage : Storage

abbrev pub update_row : ℕ → (Repository → Repository) → List Repository → List Repository
update_row id f [] = []
update_row id f (r ∷ rs) = if r.id == id then f r ∷ rs else r ∷ update_row id f rs

-- The assignments to the repository.
abbrev pub observe : SourceRepository → String → Repository → Repository
observe remote sha r = record r {
  owner = remote.owner;
  name = remote.name;
  full_name = remote.full_name;
  is_private = remote.is_private;
  default_branch = remote.default_branch;
  last_observed_sha = some sha;
}

abbrev pub has_commit : ℕ → String → SourceSnapshot → Bool
has_commit repository_id sha s = s.repository_id == repository_id && str_eq s.commit_sha sha

-- `order_by(created_at.desc())`.
abbrev pub by_newest : SourceSnapshot → SourceSnapshot → Bool
by_newest a b = leb b.created_at a.created_at

abbrev pub is_of_repository : ℕ → SourceSnapshot → Bool
is_of_repository repository_id s = s.repository_id == repository_id

-- The snapshots that are past `offset(retention_count)`.
unfoldable pub outdated : ℕ → ℕ → List SourceSnapshot → List SourceSnapshot
outdated count repository_id snapshots =
    drop count (sort_by by_newest (filter (is_of_repository repository_id) snapshots))

abbrev pub is_among : List SourceSnapshot → ℕ → Bool
is_among old id = any (λ (s : SourceSnapshot). s.id == id) old

-- The deletion of a row of `source_snapshots` does `ON DELETE SET NULL` of the ingestion jobs and
-- `ON DELETE CASCADE` of the other jobs.
abbrev pub forget_snapshot : List SourceSnapshot → Job IngestionColumns → Job IngestionColumns
forget_snapshot old job = elim job.details.snapshot_id [
  | none ↦ job
  | some id ↦
      if is_among old id
      then record job { details = record job.details { snapshot_id = none } }
      else job
]

unfoldable pub delete_snapshots : List SourceSnapshot → World → World
delete_snapshots old w = record w {
  jobs = map (forget_snapshot old) w.jobs;
  snapshots = filter (λ (s : SourceSnapshot). not (is_among old s.id)) w.snapshots;
  chunking_jobs =
      filter (λ (j : Job ChunkingColumns). not (is_among old j.details.snapshot_id))
        w.chunking_jobs;
  embedding_jobs =
      filter (λ (j : Job EmbeddingColumns). not (is_among old j.details.snapshot_id))
        w.embedding_jobs;
}

-- The files of the snapshots, one snapshot after the other, up to an error.
unfoldable pub delete_files :
    Limits → List SourceSnapshot → Option SnapshotError × Storage → Option SnapshotError × Storage
unfolding delete
delete_files limits [] r = r
delete_files limits (s ∷ old) (some e, storage) = (some e, storage)
delete_files limits (s ∷ old) (none, storage) =
    delete_files limits old (delete limits s.archive_key s.manifest_key storage)

-- The commit; an error is logged, and the session rolled back, but the files that were deleted are gone.
abbrev pub end_retention : List SourceSnapshot → World → Option SnapshotError × Storage → World
end_retention old w (some e, storage) = record w { storage = storage }
end_retention old w (none, storage) = record (delete_snapshots old w) { storage = storage }

unfoldable pub enforce_retention : Limits → ℕ → ℕ → World → World
unfolding outdated delete_snapshots delete_files
enforce_retention limits count repository_id w =
    let old = outdated count repository_id w.snapshots in
    end_retention old w (delete_files limits old (none, w.storage))
