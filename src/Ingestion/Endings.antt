-- ===== src/Ingestion/Endings.antt =====
-- How `IngestionProcessor.process` of app/services/ingestion.py may end, by the rows and by what GitHub has
-- answered.
use showcase_host.Prelude.{
  ℕ, ◌≤◌, ◌≡◌, ◌≢◌, ◌<◌, ◌==◌, ◌⊎◌, In, String, Bool, true, false, Option, none, some, List, [],
  ◌∷◌, ◌++◌, find, filter, length, str_of,
}
use showcase_host.Prelude.Results.{ok, err}
use showcase_host.Snapshots.{Limits, SnapshotError, Archive, ManifestEntry, Extraction}
use showcase_host.Snapshots as Snapshots
use showcase_host.Snapshots.Store.{Storage, StoredSnapshot, validate_and_publish, materialize}
use showcase_host.Snapshots.Keys.{resolve_key}
use showcase_host.Jobs.{Job, get_job, is_running}
use showcase_host.Jobs.Ending.{IsUpdated, IsFailed, IsSucceeded}
use showcase_host.Chunking.Columns.{ChunkingColumns, is_chunking_key}
use showcase_host.Repositories.{Repository, SourceRepository}
use showcase_host.Ingestion.{IngestionError, source_control, repository_missing, Inputs, describe}
use showcase_host.Ingestion.Tables.{
  is_of_repository, IngestionColumns, SourceSnapshot, World, update_row, has_commit,
  enforce_retention,
}

-- The job is there and running.
abbrev pub has_work : Option (Job IngestionColumns) → Bool
has_work none = false
has_work (some job) = is_running job.status

abbrev pub find_repository : Job IngestionColumns → World → Option Repository
find_repository job w = find (λ (r : Repository). r.id == job.details.repository_id) w.repositories

-- A commit that is resolved for a repository, with the token and the answer by which it is.
pub record Commit : Type 0 where
  pub repository : Repository
  pub token : String
  pub remote : SourceRepository
  pub sha : String

-- The columns of the repository that are observed, and the commit in the job's columns.
abbrev pub observed_rows : Option Commit → List Repository → List Repository
observed_rows none rows = rows
observed_rows (some c) rows =
    update_row c.repository.id
      (λ (r : Repository). record r {
        owner = c.remote.owner;
        name = c.remote.name;
        full_name = c.remote.full_name;
        is_private = c.remote.is_private;
        default_branch = c.remote.default_branch;
        last_observed_sha = some c.sha;
      })
      rows

abbrev pub observed_columns : Option Commit → IngestionColumns → IngestionColumns
observed_columns none columns = columns
observed_columns (some c) columns = record columns { commit_sha = some c.sha }

-- The row has succeeded with a commit and a snapshot.
abbrev pub HasSnapshot : ℕ → String → ℕ → Job IngestionColumns → Job IngestionColumns → Type 0
HasSnapshot now sha snapshot_id j k =
    IsSucceeded now (record j.details { commit_sha = some sha; snapshot_id = some snapshot_id }) j k

-- A snapshot with a key that does not lead below the storage root.
abbrev pub HasRefused : Limits → List SourceSnapshot → Type 0
HasRefused limits snapshots =
    (s : SourceSnapshot) × In s snapshots
    × ((e : SnapshotError) × ((resolve_key limits s.archive_key ≡ Snapshots.err e)
          ⊎ (resolve_key limits s.manifest_key ≡ Snapshots.err e)))

-- Of a row, at most the snapshot is forgotten.
abbrev pub IsForgotten : Option (Job IngestionColumns) → Option (Job IngestionColumns) → Type 0
IsForgotten none after = after ≡ none
IsForgotten (some j) after =
    (snapshot_id : Option ℕ) × (after
      ≡ some (record j { details = record j.details { snapshot_id = snapshot_id } }))

module _ (i : Inputs) (id : ℕ) where
  -- What GitHub has answered for the repository of a job.
  abbrev pub IsResolved : World → Job IngestionColumns → Commit → Type 0
  IsResolved w job c =
      (find_repository job w ≡ some c.repository)
      × (i.create_token ≡ ok c.token)
      × (i.get_repository c.token ≡ ok c.remote)
      × (c.remote.id ≡ c.repository.github_repository_id)
      × (i.resolve_sha c.token c.remote ≡ ok c.sha)

  abbrev pub stored_snapshot : World → Commit → Option SourceSnapshot
  stored_snapshot w c = find (has_commit c.repository.id c.sha) w.snapshots

  -- Why a job fails, with the commit that was resolved before and the files that are left.
  pub data Cause (w : World) (job : Job IngestionColumns)
      : IngestionError → Option Commit → Storage → Type 0 where
    no_repository : find_repository job w ≡ none → Cause w job repository_missing none w.storage
    no_token :
        (r : Repository) (e : IngestionError)
        → find_repository job w ≡ some r
        → i.create_token ≡ err e
        → Cause w job e none w.storage
    no_remote :
        (r : Repository) (token : String) (e : IngestionError)
        → find_repository job w ≡ some r
        → i.create_token ≡ ok token
        → i.get_repository token ≡ err e
        → Cause w job e none w.storage
    is_other :
        (r : Repository) (token : String) (remote : SourceRepository)
        → find_repository job w ≡ some r
        → i.create_token ≡ ok token
        → i.get_repository token ≡ ok remote
        → remote.id ≢ r.github_repository_id
        → Cause w job
            (source_control "repository_mismatch" "GitHub repository identity changed" false)
            none
            w.storage
    no_sha :
        (r : Repository) (token : String) (remote : SourceRepository) (e : IngestionError)
        → find_repository job w ≡ some r
        → i.create_token ≡ ok token
        → i.get_repository token ≡ ok remote
        → remote.id ≡ r.github_repository_id
        → i.resolve_sha token remote ≡ err e
        → Cause w job e none w.storage
    no_archive :
        (c : Commit) (e : IngestionError)
        → IsResolved w job c
        → stored_snapshot w c ≡ none
        → i.download c.token c.remote c.sha ≡ err e
        → Cause w job e (some c) w.storage
    not_published :
        (c : Commit) (archive : Archive) (e : SnapshotError) (files : Storage)
        → IsResolved w job c
        → stored_snapshot w c ≡ none
        → i.download c.token c.remote c.sha ≡ ok archive
        → validate_and_publish i.sha256 i.limits
            (str_of c.repository.github_repository_id)
            c.sha
            archive
            w.storage
          ≡ (Snapshots.err e, files)
        → Cause w job (IngestionError.snapshot e) (some c) files

  -- The error is recorded in the job's row; a commit that was resolved before is observed.
  pub record IsRecorded (e : IngestionError) (o : Option Commit) (files : Storage) (w v : World)
      : Type 0 where
    pub same_snapshots : v.snapshots ≡ w.snapshots
    pub same_chunking : v.chunking_jobs ≡ w.chunking_jobs
    pub same_embedding : v.embedding_jobs ≡ w.embedding_jobs
    pub repositories : v.repositories ≡ observed_rows o w.repositories
    pub storage : v.storage ≡ files
    pub recorded :
        IsUpdated id
          (λ j k.
            IsFailed i.now i.max_attempts
              (describe i id e)
              (record j { details = observed_columns o j.details })
              k)
          w.jobs
          v.jobs

  -- The job succeeded with a snapshot of the commit that was stored before, which has a chunking job.
  pub record IsReused (c : Commit) (w v : World) : Type 0 where
    pub snapshot : SourceSnapshot
    pub stored_before : stored_snapshot w c ≡ some snapshot
    pub same_snapshots : v.snapshots ≡ w.snapshots
    pub repositories : v.repositories ≡ observed_rows (some c) w.repositories
    pub storage : v.storage ≡ w.storage
    pub recorded : IsUpdated id (HasSnapshot i.now c.sha snapshot.id) w.jobs v.jobs
    pub chunking : Job ChunkingColumns
    pub has_chunking :
        find
          (λ (j : Job ChunkingColumns). is_chunking_key snapshot.id i.profile_key j.details)
          v.chunking_jobs
        ≡ some chunking

  -- The job succeeded with a new snapshot: it can be materialized, has a row and a chunking job, and the
  -- retention followed.
  pub record IsStored (c : Commit) (w v : World) : Type 0 where
    pub not_before : stored_snapshot w c ≡ none
    pub archive : Archive
    pub downloaded : i.download c.token c.remote c.sha ≡ ok archive
    pub stored : StoredSnapshot
    pub files : Storage
    pub published :
        validate_and_publish i.sha256 i.limits
          (str_of c.repository.github_repository_id)
          c.sha
          archive
          w.storage
        ≡ (Snapshots.ok stored, files)
    pub content : List ManifestEntry × Extraction
    pub materializes :
        materialize i.sha256 i.limits stored.archive_key stored.manifest_key files
        ≡ Snapshots.ok content
    pub added : World
    pub new_row :
        added.snapshots
        ≡ w.snapshots
          ++ record {
            id = i.next_snapshot;
            repository_id = c.repository.id;
            commit_sha = c.sha;
            archive_key = stored.archive_key;
            manifest_key = stored.manifest_key;
            file_count = stored.file_count;
            total_bytes = stored.total_bytes;
            created_at = i.now;
          }
            ∷ []
    pub same_embedding : added.embedding_jobs ≡ w.embedding_jobs
    pub repositories : added.repositories ≡ observed_rows (some c) w.repositories
    pub storage : added.storage ≡ files
    pub recorded : IsUpdated id (HasSnapshot i.now c.sha i.next_snapshot) w.jobs added.jobs
    pub chunking : Job ChunkingColumns
    pub has_chunking :
        find
          (λ (j : Job ChunkingColumns). is_chunking_key i.next_snapshot i.profile_key j.details)
          added.chunking_jobs
        ≡ some chunking
    pub retained : v ≡ enforce_retention i.limits i.retention_count c.repository.id added
    pub rows : (k : ℕ) → IsForgotten (get_job k added.jobs) (get_job k v.jobs)
    pub spared :
        (i.retention_count < length (filter (is_of_repository c.repository.id) added.snapshots))
        ⊎ (v.snapshots ≡ added.snapshots)
    pub within :
        (length (filter (is_of_repository c.repository.id) v.snapshots) ≤ i.retention_count)
        ⊎ HasRefused i.limits added.snapshots

  pub data Ended (w v : World) : Type 0 where
    untouched : has_work (get_job id w.jobs) ≡ false → v ≡ w → Ended w v
    has_failed :
        (job : Job IngestionColumns) (e : IngestionError) (o : Option Commit) (files : Storage)
        → get_job id w.jobs ≡ some job
        → is_running job.status ≡ true
        → Cause w job e o files
        → IsRecorded e o files w v
        → Ended w v
    reused :
        (job : Job IngestionColumns) (c : Commit)
        → get_job id w.jobs ≡ some job
        → is_running job.status ≡ true
        → IsResolved w job c
        → IsReused c w v
        → Ended w v
    stored_new :
        (job : Job IngestionColumns) (c : Commit)
        → get_job id w.jobs ≡ some job
        → is_running job.status ≡ true
        → IsResolved w job c
        → IsStored c w v
        → Ended w v
