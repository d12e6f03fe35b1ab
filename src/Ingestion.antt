-- ===== src/Ingestion.antt =====
-- `IngestionProcessor.process` of app/services/ingestion.py, over the tables of the child. What GitHub answers
-- is a parameter; the snapshot store and the two ensured jobs are those of the other modules.
pub mod Tables
pub mod Active
pub mod Retention
pub mod Endings
pub mod Written
pub mod Outcomes
mod Tests
use showcase_host.Ingestion.Tables.{
  IngestionColumns, SourceSnapshot, enqueue_ingestion, World, update_row, observe, has_commit,
  enforce_retention,
}
use showcase_host.Prelude.{
  ℕ, suc, ◌+◌, String, Bool, true, false, not, ◌||◌, ◌&&◌, Option, none, some, List, [], ◌∷◌, ◌++◌,
  map, leb, ◌==◌, if◌then◌else◌, any, filter, find, str_eq, str_of, sort_by,
}
use showcase_host.Prelude.Results.{Result, ok, err}
use showcase_host.Snapshots.{SnapshotError, Archive, Limits}
use showcase_host.Snapshots as Snapshots
use showcase_host.Snapshots.Store.{Storage, StoredSnapshot, validate_and_publish}
use showcase_host.Jobs.{
  Job, JobStatus, queued, running, succeeded, failed, get_job, update_job, is_queued, is_running,
  is_failed, succeed, fail_or_retry, refresh_lease, requeue_failed,
}
use showcase_host.Jobs.Ensure.{new_job}
use showcase_host.Chunking.Columns.{
  ChunkingColumns, EmbeddingColumns, ensure_chunking_job, ensure_embedding_job, reset_columns,
}
use showcase_host.Embeddings.Calls.{drop}
use showcase_host.Repositories.{Repository, SourceRepository}

-- A `SourceControlError`, a `SnapshotError`, or any other exception.
pub data IngestionError : Type 0 where
  source_control : String → String → Bool → IngestionError
  snapshot : SnapshotError → IngestionError
  repository_missing : IngestionError
  internal : IngestionError

-- What the processor uses: the answers of GitHub for this job, the texts of snapshot errors, the settings.
pub record Inputs : Type 0 where
  pub create_token : Result IngestionError String
  pub get_repository : String → Result IngestionError SourceRepository
  pub resolve_sha : String → SourceRepository → Result IngestionError String
  pub download : String → SourceRepository → String → Result IngestionError Archive
  pub error_text : SnapshotError → String × String
  pub sha256 : List ℕ → String
  pub limits : Limits
  pub profile_key : String
  pub now : ℕ
  pub lease : ℕ
  pub max_attempts : ℕ
  pub retention_count : ℕ
  pub next_snapshot : ℕ
  pub next_chunking : ℕ
  pub next_embedding : ℕ

module _ (i : Inputs) (id : ℕ) where
  abbrev pub describe : IngestionError → String × String × Bool
  describe (source_control code message transient) = (code, message, transient)
  describe (snapshot e) = ((i.error_text e).0, (i.error_text e).1, false)
  describe repository_missing = ("repository_missing", "Repository no longer exists", false)
  describe internal = ("ingestion_internal_error", "Repository ingestion failed", true)

  unfoldable pub fail_ingestion : IngestionError → World → World
  fail_ingestion e w =
      let (code, message, transient) = describe e in
      record w { jobs = fail_or_retry i.now i.max_attempts id code message transient w.jobs }

  abbrev pub set_snapshot : ℕ → IngestionColumns → IngestionColumns
  set_snapshot snapshot_id columns = record columns { snapshot_id = some snapshot_id }

  -- The jobs that a snapshot which is already stored needs.
  abbrev pub renew_jobs : SourceSnapshot → Option String → Job ChunkingColumns → World → World
  renew_jobs s model chunking w =
      if is_failed chunking.status
      then record w { chunking_jobs = requeue_failed chunking.id reset_columns w.chunking_jobs }
      else if is_done chunking.status
      then record w {
        embedding_jobs =
            (ensure_embedding_job i.next_embedding i.now s.id i.profile_key model
              w.embedding_jobs).1;
      }
      else w
    where
      is_done : JobStatus → Bool
      is_done succeeded = true
      is_done queued = false
      is_done running = false
      is_done failed = false

  unfoldable pub reuse_snapshot : Job IngestionColumns → SourceSnapshot → World → World
  reuse_snapshot job s w =
      let (chunking, chunking_jobs) =
        ensure_chunking_job i.next_chunking i.now s.id i.profile_key w.chunking_jobs in
      let renewed =
        renew_jobs s job.details.embedding_model_override chunking
          (record w { chunking_jobs = chunking_jobs }) in
      record renewed { jobs = succeed i.now id (set_snapshot s.id) renewed.jobs }

  abbrev new_snapshot : Repository → String → StoredSnapshot → SourceSnapshot
  new_snapshot repository sha stored = record {
    id = i.next_snapshot;
    repository_id = repository.id;
    commit_sha = sha;
    archive_key = stored.archive_key;
    manifest_key = stored.manifest_key;
    file_count = stored.file_count;
    total_bytes = stored.total_bytes;
    created_at = i.now;
  }

  -- The new rows that are committed.
  unfoldable pub add_snapshot : Repository → String → StoredSnapshot → World → World
  add_snapshot repository sha stored w = record w {
    snapshots = w.snapshots ++ new_snapshot repository sha stored ∷ [];
    chunking_jobs =
        (ensure_chunking_job i.next_chunking i.now i.next_snapshot i.profile_key w.chunking_jobs).1;
    jobs = succeed i.now id (set_snapshot i.next_snapshot) w.jobs;
  }

  unfoldable pub end_publication :
      Repository → String → World → Snapshots.Result StoredSnapshot × Storage → World
  unfolding fail_ingestion add_snapshot enforce_retention
  end_publication repository sha w (Snapshots.err e, storage) =
      fail_ingestion (snapshot e) (record w { storage = storage })
  end_publication repository sha w (Snapshots.ok stored, storage) =
      enforce_retention i.limits i.retention_count repository.id
        (add_snapshot repository sha stored (record w { storage = storage }))

  unfoldable pub end_download : Repository → String → World → Result IngestionError Archive → World
  unfolding fail_ingestion end_publication
  end_download repository sha w (err e) = fail_ingestion e w
  end_download repository sha w (ok archive) =
      let w' = record w { jobs = refresh_lease i.now i.lease id w.jobs } in
      end_publication repository sha w' (
        validate_and_publish i.sha256 i.limits (str_of repository.github_repository_id) sha archive
          w'.storage)

  -- After the commit of the observed repository, by whether the commit has a snapshot.
  unfoldable pub with_existing :
      Job IngestionColumns
      → Repository
      → String
      → SourceRepository
      → String
      → World
      → Option SourceSnapshot
      → World
  unfolding reuse_snapshot end_download
  with_existing job repository token remote sha w (some s) = reuse_snapshot job s w
  with_existing job repository token remote sha w none =
      end_download repository sha w (i.download token remote sha)

  -- The commit of the first `_refresh_lease`.
  unfoldable pub observe_commit : Repository → SourceRepository → String → World → World
  observe_commit repository remote sha w = record w {
    repositories = update_row repository.id (observe remote sha) w.repositories;
    jobs = refresh_lease i.now i.lease id (
        update_job id
          (λ (j : Job IngestionColumns). record j {
            details = record j.details { commit_sha = some sha };
          })
          w.jobs);
  }

  unfoldable pub with_sha :
      Job IngestionColumns
      → Repository
      → String
      → SourceRepository
      → World
      → Result IngestionError String
      → World
  unfolding fail_ingestion with_existing observe_commit
  with_sha job repository token remote w (err e) = fail_ingestion e w
  with_sha job repository token remote w (ok sha) =
      with_existing job repository token remote sha (observe_commit repository remote sha w)
        (find (has_commit repository.id sha) w.snapshots)

  unfoldable pub with_remote :
      Job IngestionColumns
      → Repository
      → String
      → World
      → Result IngestionError SourceRepository
      → World
  unfolding fail_ingestion with_sha
  with_remote job repository token w (err e) = fail_ingestion e w
  with_remote job repository token w (ok remote) =
      if remote.id == repository.github_repository_id
      then with_sha job repository token remote w (i.resolve_sha token remote)
      else fail_ingestion
          (source_control "repository_mismatch" "GitHub repository identity changed" false) w

  unfoldable pub with_token :
      Job IngestionColumns → Repository → World → Result IngestionError String → World
  unfolding fail_ingestion with_remote
  with_token job repository w (err e) = fail_ingestion e w
  with_token job repository w (ok token) =
      with_remote job repository token w (i.get_repository token)

  unfoldable pub with_repository : Job IngestionColumns → World → Option Repository → World
  unfolding fail_ingestion with_token
  with_repository job w none = fail_ingestion repository_missing w
  with_repository job w (some repository) = with_token job repository w i.create_token

  unfoldable pub ingest_job : World → Option (Job IngestionColumns) → World
  unfolding with_repository
  ingest_job w none = w
  ingest_job w (some job) =
      if is_running job.status
      then with_repository job w
          (find (λ (r : Repository). r.id == job.details.repository_id) w.repositories)
      else w

  -- `IngestionProcessor.process`.
  unfoldable pub ingest : World → World
  unfolding ingest_job
  ingest w = ingest_job w (get_job id w.jobs)
