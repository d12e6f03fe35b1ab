-- ===== src/Ingestion/Tests.antt =====
-- An ingestion of a new commit, one of a known commit, and one that GitHub refuses.
use showcase_host.Prelude.{
  subst, arith, true, false, none, some, [], ◌∷◌, ◌≡◌, refl, map, sort_by, str_of,
}
use showcase_host.Prelude.Results.{ok, err, ok_eq}
use showcase_host.Snapshots.{
  Archive, regular, extract_and_manifest, extract_members, extract_member, pure_parts,
  extract_parts, extract_kind, extract_file, store_file, copy_content, entry_of,
}
use showcase_host.Snapshots.Store.{validate_and_publish, publish_result, publish_entries}
use showcase_host.Jobs.{
  mark_succeeded, extend_lease, refresh_lease, succeed, record_failure, fail_or_retry, Job, running,
  succeeded, queued,
}
use showcase_host.Jobs.Ensure.{new_job}
use showcase_host.Chunking.Columns.{ensure_chunking_job, ChunkingColumns}
use showcase_host.Repositories.{SourceRepository, new_repository}
use showcase_host.Ingestion.{source_control, Inputs, ingest, add_snapshot, end_publication}
use showcase_host.Ingestion.Tables.{
  IngestionColumns, World, SourceSnapshot, new_columns, enqueue_ingestion, enforce_retention,
  outdated, delete_snapshots, delete_files,
}
use showcase_host.Snapshots.Keys.{resolve_key}
use showcase_host.Ingestion.Active.{IsOnlyActive, enqueue_ingestion-IsOnlyActive}
use showcase_host.Snapshots.Paths.{IsSafePart}
use showcase_host.Ingestion.Endings.{Ended}
use showcase_host.Ingestion.Outcomes.{GivesPlainCommits, ingest-Ended}

abbrev remote : SourceRepository
remote = record {
  id = 70;
  owner = "o";
  name = "n";
  full_name = "o/n";
  is_private = false;
  default_branch = "main";
}

abbrev archive : Archive
archive = record {
  members =
      record { name = "repo/a"; kind = regular; size = 1; content = some ((7 ∷ []) ∷ []) } ∷ [];
  is_broken = false;
}

abbrev inputs : Inputs
inputs = record {
  create_token = ok "t";
  get_repository = λ token. ok remote;
  resolve_sha = λ token r. ok "c2";
  download = λ token r sha. ok archive;
  error_text = λ e. ("code", "text");
  sha256 = λ bytes. "digest";
  limits = record {
    snapshot_root = "data" ∷ "snapshots" ∷ [];
    max_file_bytes = 9;
    max_files = 9;
    max_extracted_bytes = 9;
  };
  profile_key = "p";
  now = 50;
  lease = 60;
  max_attempts = 3;
  retention_count = 1;
  next_snapshot = 12;
  next_chunking = 21;
  next_embedding = 31;
}

abbrev old_snapshot : SourceSnapshot
old_snapshot = record {
  id = 11;
  repository_id = 1;
  commit_sha = "c1";
  archive_key = "a1";
  manifest_key = "m1";
  file_count = 1;
  total_bytes = 1;
  created_at = 10;
}

abbrev job : Job IngestionColumns
job = record (new_job 4 0 (new_columns 1 9 none)) { status = running; attempt_count = 1 }

abbrev world : World
world = record {
  jobs = job ∷ [];
  repositories = new_repository 1 5 remote ∷ [];
  snapshots = old_snapshot ∷ [];
  chunking_jobs = [];
  embedding_jobs = [];
  storage = record { archives = λ key. none; manifests = λ key. none };
}

abbrev done : World
done = ingest inputs 4 world

-- The new snapshot is stored, and the retention has deleted the old one.
ingests :
    (map (λ (j : Job IngestionColumns). j.status) done.jobs ≡ succeeded ∷ [])
    × (map (λ (s : SourceSnapshot). s.id) done.snapshots ≡ 12 ∷ [])
    × (map (λ (j : Job ChunkingColumns). j.details.snapshot_id) done.chunking_jobs ≡ 12 ∷ [])
unfolding ingest validate_and_publish publish_result publish_entries entry_of extract_and_manifest
    extract_members extract_member pure_parts extract_parts extract_kind extract_file store_file
    copy_content sort_by succeed refresh_lease extend_lease mark_succeeded ensure_chunking_job
    str_of enforce_retention outdated delete_snapshots delete_files add_snapshot end_publication
    resolve_key
ingests = (refl, refl, refl)

abbrev refused : World
refused =
    ingest (record inputs { create_token = err (source_control "github_rate_limited" "wait" true) })
      4 world

retried_later : map (λ (j : Job IngestionColumns). j.status) refused.jobs ≡ queued ∷ []
unfolding ingest fail_or_retry record_failure
retried_later = refl

abbrev known : World
known = ingest (record inputs { resolve_sha = λ token r. ok "c1" }) 4 world

reuses :
    (map (λ (j : Job IngestionColumns). j.details.snapshot_id) known.jobs ≡ some 11 ∷ [])
    × (map (λ (s : SourceSnapshot). s.id) known.snapshots ≡ 11 ∷ [])
unfolding ingest succeed ensure_chunking_job refresh_lease extend_lease mark_succeeded
reuses = (refl, refl)

plain_commits : GivesPlainCommits inputs
plain_commits token r sha e = subst IsSafePart (ok_eq e) (record {
  not_parent = refl;
  not_here = refl;
  not_empty = refl;
  no_slash = refl;
  no_backslash = refl;
})

ingest-Ended_example : Ended inputs 4 world done
ingest-Ended_example = ingest-Ended inputs 4 world plain_commits

enqueue_ingestion-IsOnlyActive_example :
    IsOnlyActive 1
      (enqueue_ingestion 5 60 1 9 none world.jobs).0
      (enqueue_ingestion 5 60 1 9 none world.jobs).1
enqueue_ingestion-IsOnlyActive_example =
    enqueue_ingestion-IsOnlyActive 5 60 1 9 none world.jobs (omega arith)
