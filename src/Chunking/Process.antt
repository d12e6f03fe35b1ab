-- ===== src/Chunking/Process.antt =====
-- `ChunkingProcessor.process` of app/services/chunking.py, with its two sessions.
pub mod Publishing
pub mod Collected
pub mod Finished
pub mod Endings
pub mod Outcomes
pub mod Omitted
mod Tests
use showcase_host.Chunking.Process.Publishing.{is_supported, publish, garbage_collect}
use showcase_host.Prelude.{
  sum_by, ℕ, suc, ◌+◌, String, Bool, true, false, not, ◌||◌, ◌&&◌, Option, none, some, List, [],
  ◌∷◌, ◌++◌, ltb, ◌==◌, if◌then◌else◌, or_else, is_some, any, filter, find, length, str_eq, concat,
}
use showcase_host.Prelude.Results.{Result, ok, err, ◌>>=◌, fold_result}
use showcase_host.Snapshots.{ManifestEntry}
use showcase_host.Retrieval.{lookup, put}
use showcase_host.Chunking.Columns.{ChunkingColumns, EmbeddingColumns, ensure_embedding_job}
use showcase_host.Jobs.{
  queued, Job, get_job, is_running, is_failed, succeed, fail_or_retry, refresh_lease,
}
use showcase_host.Chunking.Files.{ChunkedFile, skip_reason, find_reusable}
use showcase_host.Chunking.Publish.{publish_entry}
use showcase_host.Chunking.Publish.Tables.{
  SnapshotChunkFile, WorkerEvent, ChunkStore, CodeChunk, ProcessError, snapshot_missing,
  no_chunkable_files, internal, worker_error, incomplete_worker_result, Functions, Publication,
  Progress,
}

-- What the code gives to `_fail_or_retry`: the code, the message and whether a retry may help.
abbrev pub describe : ProcessError → String × String × Bool
describe snapshot_missing = ("snapshot_missing", "Source snapshot no longer exists", false)
describe no_chunkable_files =
    ("no_chunkable_files", "Snapshot contains no successfully chunked code files", false)
describe internal = ("chunking_internal_error", "Repository chunking failed", true)
describe (worker_error message) = ("chunking_worker_error", message, true)
describe (incomplete_worker_result path) =
    ("incomplete_worker_result", concat ("Worker omitted " ∷ path ∷ []), true)

-- The tables; a snapshot is its repository.
pub record World (O X : Type 0) : Type 0 where
  pub jobs : List (Job ChunkingColumns)
  pub embedding_jobs : List (Job EmbeddingColumns)
  pub snapshots : List (ℕ × ℕ)
  pub store : ChunkStore O X

-- What `process` uses: `materialize` of the snapshot's files or an error, the worker's events or its
-- error, the model of the latest ingestion, the times and the settings.
pub record Inputs (O X : Type 0) : Type 0 where
  pub functions : Functions O X
  pub open functions use *
  pub materialize : ℕ → Option (List ManifestEntry)
  pub worker : List ManifestEntry → Result String (List (WorkerEvent O X))
  pub embedding_model : ℕ → Option String
  pub embedding_id : ℕ
  pub now : ℕ
  pub lease : ℕ
  pub max_attempts : ℕ

abbrev pub repository_of : ℕ → List (ℕ × ℕ) → Option ℕ
repository_of id [] = none
repository_of id ((snapshot_id, repository_id) ∷ rest) =
    if snapshot_id == id then some repository_id else repository_of id rest

module _ {O X : Type 0} (i : Inputs O X) (id : ℕ) where
  abbrev pub publication_of : ChunkingColumns → ℕ → Publication O X
  publication_of columns repository_id = record {
    functions = i.functions;
    snapshot_id = columns.snapshot_id;
    repository_id = repository_id;
    profile_key = columns.profile_key;
  }

  unfoldable pub fail_job : ProcessError → World O X → World O X
  fail_job e w =
      let (code, message, transient) = describe e in
      record w { jobs = fail_or_retry i.now i.max_attempts id code message transient w.jobs }

  -- The commit, and after it the collection and its commit.
  unfoldable pub commit :
      Job ChunkingColumns → World O X → ChunkStore O X × ChunkingColumns → World O X
  unfolding garbage_collect
  commit job w (store, columns) = record {
    jobs = succeed i.now id (λ _. columns) w.jobs;
    embedding_jobs =
        (ensure_embedding_job i.embedding_id i.now job.details.snapshot_id job.details.profile_key
          (i.embedding_model job.details.snapshot_id) w.embedding_jobs).1;
    snapshots = w.snapshots;
    store = garbage_collect store;
  }

  unfoldable pub end_publish :
      Job ChunkingColumns
      → World O X
      → Result ProcessError (ChunkStore O X × ChunkingColumns)
      → World O X
  unfolding fail_job commit
  end_publish job w (err e) = fail_job e w
  end_publish job w (ok published) = commit job w published

  unfoldable pub publish_snapshot :
      List ManifestEntry
      → List (String × ChunkedFile O)
      → List (WorkerEvent O X)
      → World O X
      → Job ChunkingColumns
      → Option ℕ
      → World O X
  unfolding end_publish
  publish_snapshot entries reusable events w job none = w
  publish_snapshot entries reusable events w job (some repository_id) =
      end_publish job w
        (publish (publication_of job.details repository_id) entries reusable events w.store)

  -- The second session: the job and the snapshot are read again.
  unfoldable pub publish_events :
      List ManifestEntry
      → List (String × ChunkedFile O)
      → List (WorkerEvent O X)
      → World O X
      → Option (Job ChunkingColumns)
      → World O X
  unfolding publish_snapshot
  publish_events entries reusable events w none = w
  publish_events entries reusable events w (some job) =
      publish_snapshot entries reusable events w job
        (repository_of job.details.snapshot_id w.snapshots)

  unfoldable pub end_worker :
      List ManifestEntry
      → List (String × ChunkedFile O)
      → World O X
      → Result String (List (WorkerEvent O X))
      → World O X
  unfolding fail_job publish_events
  end_worker entries reusable w (err message) = fail_job (worker_error message) w
  end_worker entries reusable w (ok events) =
      publish_events entries reusable events w (get_job id w.jobs)

  -- The files that the worker is given.
  abbrev pub worker_entries :
      List ManifestEntry → List (String × ChunkedFile O) → List ManifestEntry
  worker_entries entries reusable =
      filter
        (λ (e : ManifestEntry). is_supported i.lower e && not (is_some (lookup e.path reusable)))
        entries

  -- `meanwhile` is what other transactions do while the worker runs, heartbeats included.
  module _ (meanwhile : World O X → World O X) where
    unfoldable pub chunk_files :
        Job ChunkingColumns → ℕ → List ManifestEntry → World O X → World O X
    unfolding end_worker find_reusable
    chunk_files job repository_id entries w =
        let selected = filter (is_supported i.lower) entries in
        let reusable =
          find_reusable repository_id job.details.profile_key selected w.store.chunked_files in
        end_worker entries reusable
          (meanwhile (record w { jobs = refresh_lease i.now i.lease id w.jobs }))
          (i.worker (worker_entries entries reusable))

    unfoldable pub process_files :
        Job ChunkingColumns → ℕ → World O X → Option (List ManifestEntry) → World O X
    unfolding chunk_files fail_job
    process_files job repository_id w none = fail_job internal w
    process_files job repository_id w (some entries) = chunk_files job repository_id entries w

    unfoldable pub process_snapshot : Job ChunkingColumns → World O X → Option ℕ → World O X
    unfolding process_files fail_job
    process_snapshot job w none = fail_job snapshot_missing w
    process_snapshot job w (some repository_id) =
        process_files job repository_id w (i.materialize job.details.snapshot_id)

    unfoldable pub process_job : World O X → Option (Job ChunkingColumns) → World O X
    unfolding process_snapshot
    process_job w none = w
    process_job w (some job) =
        if is_running job.status
        then process_snapshot job w (repository_of job.details.snapshot_id w.snapshots)
        else w

    -- `process`.
    unfoldable pub process : World O X → World O X
    unfolding process_job
    process w = process_job w (get_job id w.jobs)
