-- ===== src/Chunking/Process/Tests.antt =====
-- Runs of `_publish` and `process` on a small snapshot.
use showcase_host.Jobs.{refresh_lease, extend_lease, succeed, mark_succeeded}
use showcase_host.Chunking.Files.{is_candidate, suffix_of}
use showcase_host.Chunking.Process.Publishing.{check_progress, publish, garbage_collect}
use showcase_host.Chunking.Process.{
  publish_events, end_worker, end_publish, commit, publish_snapshot,
}
use showcase_host.Prelude.{String, none, some, List, [], ◌∷◌, ◌≡◌, refl, concat, str_of, map}
use showcase_host.Prelude.Results.{Result, ok, err}
use showcase_host.Snapshots.{ManifestEntry}
use showcase_host.Jobs.Ensure.{new_job}
use showcase_host.Chunking.Files.Reuse.{IsReusable, find_reusable-IsReusable}
use showcase_host.Chunking.Process.Finished.{IsFinished, publish-IsFinished}
use showcase_host.Chunking.Process.Collected.{IsConsistent}
use showcase_host.Chunking.Process.Outcomes.{process-IsConsistent}
use showcase_host.Jobs.{JobStatus, Job, running}
use showcase_host.Chunking.Files.{ChunkedFile, skip_reason, find_reusable, engine_version}
use showcase_host.Chunking.Columns.{ChunkingColumns, new_columns}
use showcase_host.Chunking.Publish.{
  reuse_file, create_file, skip_file, new_file, is_refused, with_options, with_chunks, with_status,
  with_event, with_artifact, with_reason, publish_entry,
}
use showcase_host.Chunking.Publish.Tables.{
  Functions, Publication, ChunkStore, ChunkData, WorkerEvent, Value, text, number, options,
  ProcessError, incomplete_worker_result,
}
use showcase_host.Chunking.Process.{World, Inputs, process}

abbrev value_text : String × Value String → String
value_text (key, text t) = t
value_text (key, number n) = str_of n
value_text (key, options o) = o

abbrev functions : Functions String String
functions = record {
  lower = λ s. s;
  sha256 = λ s. s;
  dumps = λ payload. concat (map value_text payload);
  uuid5 = λ s. s;
  with_quality = λ context grade score. concat (context ∷ grade ∷ []);
  searchable = λ path language context. concat (path ∷ language ∷ context ∷ []);
  tokenizer_id = "tok";
}

abbrev a_py : ManifestEntry
a_py = record { path = "a.py"; size = 10; sha256 = "A" }

abbrev b_png : ManifestEntry
b_png = record { path = "b.png"; size = 20; sha256 = "B" }

abbrev c_py : ManifestEntry
c_py = record { path = "c.py"; size = 30; sha256 = "C" }

abbrev entries : List ManifestEntry
entries = a_py ∷ b_png ∷ c_py ∷ []

abbrev stored_c : ChunkedFile String
stored_c = record {
  id = 1;
  repository_id = 5;
  path = "c.py";
  content_sha256 = "C";
  language = "python";
  fingerprint = "fc";
  engine = engine_version;
  profile_key = "p";
  resolved_options = "o";
}

abbrev orphan : ChunkedFile String
orphan = record stored_c { id = 2; path = "d.py"; content_sha256 = "D"; fingerprint = "fd" }

abbrev store : ChunkStore String String
store = record {
  chunked_files = stored_c ∷ orphan ∷ [];
  code_chunks = [];
  snapshot_files = [];
  next_id = 3;
}

abbrev chunk_a : ChunkData String
chunk_a = record {
  index = 0;
  text = "t";
  contextualized_text = "ct";
  byte_start = 0;
  byte_end = 10;
  line_start = 0;
  line_end = 1;
  context = "x";
  token_count = 4;
  quality_grade = "A";
  quality_score = 90;
}

abbrev event_a : WorkerEvent String String
event_a = record {
  path = "a.py";
  status = some "succeeded";
  reason = none;
  error = none;
  chunks = chunk_a ∷ [];
  resolved_options = some "o";
  language = some "python";
  adaptive_retries = none;
  duration_ms = some 7;
}

abbrev publication : Publication String String
publication = record {
  functions = functions;
  snapshot_id = 9;
  repository_id = 5;
  profile_key = "p";
}

abbrev reusable : List (String × ChunkedFile String)
reusable = ("c.py", stored_c) ∷ []

abbrev or_nothing :
    Result ProcessError (ChunkStore String String × ChunkingColumns)
    → ChunkStore String String × ChunkingColumns
or_nothing (ok r) = r
or_nothing (err e) = (store, new_columns 0 "")

abbrev published : ChunkStore String String × ChunkingColumns
published = or_nothing (publish publication entries reusable (event_a ∷ []) store)

publishes : publish publication entries reusable (event_a ∷ []) store ≡ ok published
unfolding publish publish_entry with_reason skip_reason with_artifact with_event with_status
    with_chunks with_options is_refused new_file str_of skip_file create_file check_progress
    reuse_file
publishes = refl

counts :
    (published.1.skipped_files ≡ 1)
    × (published.1.failed_files ≡ 0)
    × (published.1.processed_bytes ≡ 10)
unfolding publish publish_entry with_reason skip_reason with_artifact with_event with_status
    with_chunks with_options is_refused new_file str_of skip_file create_file check_progress
    reuse_file
counts = (refl, refl, refl)

abbrev job : Job ChunkingColumns
job = record (new_job 4 0 (new_columns 9 "p")) { status = running; attempt_count = 1 }

abbrev world : World String String
world = record { jobs = job ∷ []; embedding_jobs = []; snapshots = (9, 5) ∷ []; store = store }

abbrev inputs : Inputs String String
inputs = record {
  functions = functions;
  materialize = λ _. some entries;
  worker = λ files. ok (event_a ∷ []);
  embedding_model = λ _. none;
  embedding_id = 40;
  now = 100;
  lease = 60;
  max_attempts = 3;
}

skips_images : skip_reason (λ s. s) b_png ≡ some "unsupported_language"
unfolding skip_reason
skips_images = refl

skips_vendored :
    skip_reason (λ s. s) (record { path = "web/node_modules/x.js"; size = 1; sha256 = "" })
    ≡ some "generated_or_dependency_path"
unfolding skip_reason
skips_vendored = refl

skips_minified :
    skip_reason (λ s. s) (record { path = "web/x.min.js"; size = 1; sha256 = "" })
    ≡ some "minified_file"
unfolding skip_reason
skips_minified = refl

keeps_sources : skip_reason (λ s. s) a_py ≡ none
unfolding skip_reason
keeps_sources = refl

finds_stored : find_reusable 5 "p" (a_py ∷ c_py ∷ []) store.chunked_files ≡ reusable
unfolding find_reusable
finds_stored = refl

abbrev processed : World String String
processed = process inputs 4 (λ w. w) world

-- The file without a row is gone, and the reused one stays.
ends_well :
    (map (λ (j : Job ChunkingColumns). j.status) processed.jobs ≡ JobStatus.succeeded ∷ [])
    × (map (λ (f : ChunkedFile String). f.id) processed.store.chunked_files ≡ 1 ∷ 3 ∷ [])
unfolding process publish publish_entry with_reason skip_reason with_artifact with_event with_status
    with_chunks with_options is_refused new_file str_of skip_file create_file reuse_file
    check_progress refresh_lease extend_lease publish_events garbage_collect succeed mark_succeeded
    find_reusable is_candidate suffix_of end_worker end_publish commit publish_snapshot
ends_well = (refl, refl)

fails_without_events :
    publish publication entries reusable [] store ≡ err (incomplete_worker_result "a.py")
unfolding publish publish_entry with_reason skip_reason with_artifact with_event
fails_without_events = refl

store-IsConsistent : IsConsistent store
store-IsConsistent = record { rows = tt; chunks = tt }

publish-IsFinished_example : IsFinished publication entries reusable store published.0 published.1
publish-IsFinished_example =
    publish-IsFinished publication entries reusable (event_a ∷ []) store published.0 published.1
      publishes

process-IsConsistent_example : IsConsistent processed.store
process-IsConsistent_example =
    process-IsConsistent inputs 4 (λ w. w) (λ u h. h) world store-IsConsistent

find_reusable-IsReusable_example :
    IsReusable 5 "p" (a_py ∷ c_py ∷ []) store.chunked_files "c.py" stored_c
unfolding find_reusable
find_reusable-IsReusable_example =
    find_reusable-IsReusable 5 "p" (a_py ∷ c_py ∷ []) store.chunked_files "c.py" stored_c refl
