-- ===== src/Chunking/Process/Endings.antt =====
-- How `process` of app/services/chunking.py may end, by the rows and by what the worker has answered.
use showcase_host.Prelude.{
  ℕ, String, Bool, true, false, not, ◌&&◌, filter, is_some, Option, none, some, List, ◌≡◌, find,
}
use showcase_host.Prelude.Results.{ok, err}
use showcase_host.Snapshots.{ManifestEntry}
use showcase_host.Jobs.{Job, get_job, is_running, refresh_lease}
use showcase_host.Jobs.Ending.{IsUpdated, IsFailed, IsSucceeded}
use showcase_host.Retrieval.{lookup}
use showcase_host.Chunking.Process.Publishing.{is_supported}
use showcase_host.Chunking.Files.{ChunkedFile, find_reusable}
use showcase_host.Chunking.Columns.{
  ChunkingColumns, EmbeddingColumns, is_embedding_key, selection_of,
}
use showcase_host.Chunking.Publish.Tables.{WorkerEvent, ChunkStore, ProcessError}
use showcase_host.Chunking.Process.{
  repository_of, describe, worker_error, snapshot_missing, internal, World, Inputs, publication_of,
}
use showcase_host.Chunking.Process.Publishing.{publish, garbage_collect}
use showcase_host.Chunking.Process.Collected.{}

-- The processing has not found a running job.
abbrev pub has_work : Option (Job ChunkingColumns) → Bool
has_work none = false
has_work (some job) = is_running job.status

module _ {O X : Type 0} (i : Inputs O X) (id : ℕ) where
  -- The error is recorded in the job's row, and the tables are the same but for this row.
  pub record HasFailed (e : ProcessError) (w v : World O X) : Type 0 where
    pub same_store : v.store ≡ w.store
    pub same_snapshots : v.snapshots ≡ w.snapshots
    pub same_embeddings : v.embedding_jobs ≡ w.embedding_jobs
    pub recorded : IsUpdated id (IsFailed i.now i.max_attempts (describe e)) w.jobs v.jobs

  -- The job and the repository of its snapshot, as a session reads them.
  abbrev pub IsRead : World O X → Job ChunkingColumns → ℕ → Type 0
  IsRead w job repository_id =
      (get_job id w.jobs ≡ some job)
      × (repository_of job.details.snapshot_id w.snapshots ≡ some repository_id)

  -- The collected tables of a publication, the job succeeded with its columns, and an embedding job.
  pub record IsCommitted (entries : List ManifestEntry) (reusable : List (String × ChunkedFile O))
      (events : List (WorkerEvent O X)) (w v : World O X) : Type 0 where
    pub job : Job ChunkingColumns
    pub repository_id : ℕ
    pub read : IsRead w job repository_id
    pub store : ChunkStore O X
    pub columns : ChunkingColumns
    pub published :
        publish (publication_of i id job.details repository_id) entries reusable events w.store
        ≡ ok (store, columns)
    pub collected : v.store ≡ garbage_collect store
    pub same_snapshots : v.snapshots ≡ w.snapshots
    pub recorded : IsUpdated id (IsSucceeded i.now columns) w.jobs v.jobs
    pub embedding : Job EmbeddingColumns
    pub embeds :
        find
          (λ (j : Job EmbeddingColumns).
            is_embedding_key job.details.snapshot_id job.details.profile_key
              (selection_of (i.embedding_model job.details.snapshot_id))
              j.details)
          v.embedding_jobs
        ≡ some embedding

  -- How the second session ends.
  pub data Published (entries : List ManifestEntry) (reusable : List (String × ChunkedFile O))
      (events : List (WorkerEvent O X)) (w v : World O X) : Type 0 where
    job_gone : get_job id w.jobs ≡ none → v ≡ w → Published entries reusable events w v
    snapshot_gone :
        (job : Job ChunkingColumns)
        → get_job id w.jobs ≡ some job
        → repository_of job.details.snapshot_id w.snapshots ≡ none
        → v ≡ w
        → Published entries reusable events w v
    refused :
        (job : Job ChunkingColumns) (repository_id : ℕ) (e : ProcessError)
        → IsRead w job repository_id
        → publish (publication_of i id job.details repository_id) entries reusable events w.store
          ≡ err e
        → HasFailed e w v
        → Published entries reusable events w v
    committed : IsCommitted entries reusable events w v → Published entries reusable events w v

  -- What the worker is given: the supported files that are not reused.
  abbrev pub given : List ManifestEntry → List (String × ChunkedFile O) → List ManifestEntry
  given entries reusable =
      filter
        (λ (e : ManifestEntry). is_supported i.lower e && not (is_some (lookup e.path reusable)))
        entries

  abbrev pub reusable_in :
      World O X → Job ChunkingColumns → ℕ → List ManifestEntry → List (String × ChunkedFile O)
  reusable_in w job repository_id entries =
      find_reusable repository_id job.details.profile_key (filter (is_supported i.lower) entries)
        w.store.chunked_files

  module _ (meanwhile : World O X → World O X) where
    -- The tables in which the second session starts, if it does.
    abbrev pub second_session : World O X → World O X
    second_session w = meanwhile (record w { jobs = refresh_lease i.now i.lease id w.jobs })

    -- How the processing ends: `job` is a running job and `repository_id` the repository of its snapshot.
    pub data Ended (w v : World O X) : Type 0 where
      untouched : has_work (get_job id w.jobs) ≡ false → v ≡ w → Ended w v
      no_snapshot :
          (job : Job ChunkingColumns)
          → get_job id w.jobs ≡ some job
          → is_running job.status ≡ true
          → repository_of job.details.snapshot_id w.snapshots ≡ none
          → HasFailed snapshot_missing w v
          → Ended w v
      no_files :
          (job : Job ChunkingColumns) (repository_id : ℕ)
          → IsRead w job repository_id
          → is_running job.status ≡ true
          → i.materialize job.details.snapshot_id ≡ none
          → HasFailed internal w v
          → Ended w v
      no_answer :
          (job : Job ChunkingColumns) (repository_id : ℕ) (entries : List ManifestEntry)
          (message : String)
          → IsRead w job repository_id
          → is_running job.status ≡ true
          → i.materialize job.details.snapshot_id ≡ some entries
          → i.worker (given entries (reusable_in w job repository_id entries)) ≡ err message
          → HasFailed (worker_error message) (second_session w) v
          → Ended w v
      answered :
          (job : Job ChunkingColumns) (repository_id : ℕ) (entries : List ManifestEntry)
          (events : List (WorkerEvent O X))
          → IsRead w job repository_id
          → is_running job.status ≡ true
          → i.materialize job.details.snapshot_id ≡ some entries
          → i.worker (given entries (reusable_in w job repository_id entries)) ≡ ok events
          → Published entries (reusable_in w job repository_id entries) events (second_session w) v
          → Ended w v
