-- ===== src/Chunking/Publish.antt =====
-- The loop of `_publish` of app/services/chunking.py over the entries of a manifest. The options and the context
-- of a chunk are any types; `json.dumps`, SHA-256 and the UUID of a name are parameters.
pub mod Tables
pub mod Rows
pub mod Counts
use showcase_host.Chunking.Publish.Tables.{
  ChunkFileStatus, succeeded, skipped, failed, SnapshotChunkFile, ChunkData, WorkerEvent, CodeChunk,
  ChunkStore, ProcessError, internal, incomplete_worker_result, text, number, options, Publication,
  Progress,
}
use showcase_host.Prelude.{
  ℕ, suc, ◌+◌, String, Bool, true, false, ◌||◌, ◌&&◌, any, Option, none, some, List, [], ◌∷◌, ◌++◌,
  map, ltb, ◌==◌, if◌then◌else◌, or_else, filter, length, sum_by, str_eq, str_of, concat, str_take,
}
use showcase_host.Prelude.Results.{Result, ok, err, ◌>>=◌, fold_result}
use showcase_host.Snapshots.{ManifestEntry}
use showcase_host.Retrieval.{lookup, put}
use showcase_host.Chunking.Files.{ChunkedFile, skip_reason, engine_version, normalization_version}

module _ {O X : Type 0} (c : Publication O X) where
  unfoldable file_fingerprint : ManifestEntry → O → String
  file_fingerprint entry resolved = c.sha256 (
      c.dumps (
        ("repository_id", number c.repository_id)
        ∷ ("path", text entry.path)
        ∷ ("sha256", text entry.sha256)
        ∷ ("engine", text engine_version)
        ∷ ("profile", text c.profile_key)
        ∷ ("options", options resolved)
        ∷ ("normalization", text normalization_version)
        ∷ []))

  unfoldable pub chunk_fingerprint : String → ChunkData X → String
  chunk_fingerprint file_fingerprint_value chunk = c.sha256 (
      concat (
        file_fingerprint_value
        ∷ ":"
        ∷ str_of chunk.index
        ∷ ":"
        ∷ str_of chunk.byte_start
        ∷ ":"
        ∷ str_of chunk.byte_end
        ∷ []))

  -- The identifier and the fingerprint.
  unfoldable chunk_identity : String → ChunkData X → String × String
  unfolding chunk_fingerprint
  chunk_identity file_fingerprint_value chunk =
      let fingerprint = chunk_fingerprint file_fingerprint_value chunk in
      (c.uuid5 (concat ("showcasehost:chunk:" ∷ fingerprint ∷ [])), fingerprint)

  unfoldable pub code_chunk : ChunkedFile O → ChunkData X → CodeChunk X
  unfolding chunk_identity
  code_chunk file chunk =
      let (id, fingerprint) = chunk_identity file.fingerprint chunk in
      let context = c.with_quality chunk.context chunk.quality_grade chunk.quality_score in
      record {
        id = id;
        chunked_file_id = file.id;
        chunk_index = chunk.index;
        fingerprint = fingerprint;
        raw_text = chunk.text;
        searchable_metadata = c.searchable file.path file.language context;
        embedding_text = chunk.contextualized_text;
        byte_start = chunk.byte_start;
        byte_end = chunk.byte_end;
        start_line = chunk.line_start + 1;
        end_line = chunk.line_end + 1;
        context = context;
        tokenizer_id = c.tokenizer_id;
        token_count = chunk.token_count;
        quality_grade = chunk.quality_grade;
        quality_score = chunk.quality_score;
      }

  abbrev file_row :
      String → Option ℕ → ChunkFileStatus → Option String → Option String → SnapshotChunkFile
  file_row path id status reason message = record {
    snapshot_id = c.snapshot_id;
    profile_key = c.profile_key;
    path = path;
    chunked_file_id = id;
    status = status;
    reason = reason;
    error_message = message;
  }

  abbrev pub add_row : SnapshotChunkFile → ChunkStore O X → ChunkStore O X
  add_row row s = record s { snapshot_files = s.snapshot_files ++ row ∷ [] }

  unfoldable pub skip_file : Progress O X → String → String → Progress O X
  skip_file p path reason = record p {
    store = add_row (file_row path none skipped (some reason) none) p.store;
    skipped_files = p.skipped_files + 1;
  }

  unfoldable pub fail_file : Progress O X → String → String → Option String → Progress O X
  fail_file p path reason message = record p {
    store = add_row (file_row path none failed (some reason) message) p.store;
    failed_files = p.failed_files + 1;
  }

  unfoldable pub reuse_file : Progress O X → String → ChunkedFile O → Progress O X
  reuse_file p path file = record p {
    store = add_row (file_row path (some file.id) succeeded none none) p.store;
    successful_files = p.successful_files + 1;
  }

  unfoldable pub new_file : ℕ → ManifestEntry → O → String → ChunkedFile O
  unfolding file_fingerprint
  new_file id entry resolved language = record {
    id = id;
    repository_id = c.repository_id;
    path = entry.path;
    content_sha256 = entry.sha256;
    language = language;
    fingerprint = file_fingerprint entry resolved;
    engine = engine_version;
    profile_key = c.profile_key;
    resolved_options = resolved;
  }

  abbrev store_chunked_file : ChunkedFile O → List (ChunkData X) → ChunkStore O X → ChunkStore O X
  store_chunked_file file chunks s = record {
    chunked_files = s.chunked_files ++ file ∷ [];
    code_chunks = s.code_chunks ++ map (code_chunk file) chunks;
    snapshot_files = s.snapshot_files ++ file_row file.path (some file.id) succeeded none none ∷ [];
    next_id = s.next_id + 1;
  }

  unfoldable pub create_file :
      Progress O X → ManifestEntry → WorkerEvent O X → O → String → Progress O X
  unfolding new_file
  create_file p entry event resolved language = record {
    store =
        store_chunked_file (new_file p.store.next_id entry resolved language) event.chunks p.store;
    successful_files = p.successful_files + 1;
    skipped_files = p.skipped_files;
    failed_files = p.failed_files;
    chunks_created = p.chunks_created + length event.chunks;
    adaptive_retries = p.adaptive_retries + or_else event.adaptive_retries 0;
    language_timings =
        put language (or_else (lookup language p.language_timings) 0 + or_else event.duration_ms 0)
          p.language_timings;
  }

  abbrev same_chunk : CodeChunk X → CodeChunk X → Bool
  same_chunk a b =
      str_eq a.id b.id
      || str_eq a.fingerprint b.fingerprint
      || (a.chunked_file_id == b.chunked_file_id && a.chunk_index == b.chunk_index)

  abbrev has_duplicate : List (CodeChunk X) → List (CodeChunk X) → Bool
  has_duplicate stored [] = false
  has_duplicate stored (chunk ∷ chunks) =
      any (same_chunk chunk) stored || has_duplicate (chunk ∷ stored) chunks

  -- The unique constraints of the two tables, which raise an `IntegrityError`.
  unfoldable pub is_refused : ChunkStore O X → ChunkedFile O → List (CodeChunk X) → Bool
  is_refused s file chunks =
      any (λ (f : ChunkedFile O). str_eq f.fingerprint file.fingerprint) s.chunked_files
      || has_duplicate s.code_chunks chunks

  abbrev pub refused_by_store : ChunkStore O X → ChunkedFile O → List (ChunkData X) → Bool
  refused_by_store s file chunks = is_refused s file (map (code_chunk file) chunks)

  -- `str(error)[:1000] or None`.
  abbrev message_or_none : String → Option String
  message_or_none message = if str_eq message "" then none else some (str_take 1000 message)

  -- A missing key is a `KeyError`.
  unfoldable pub with_options :
      Progress O X
      → ManifestEntry
      → WorkerEvent O X
      → Option O
      → Option String
      → Result ProcessError (Progress O X)
  with_options p entry event (some resolved) (some language) =
      if refused_by_store p.store (new_file p.store.next_id entry resolved language) event.chunks
      then err internal
      else ok (create_file p entry event resolved language)
  with_options p entry event (some resolved) none = err internal
  with_options p entry event none language = err internal

  unfoldable pub with_chunks :
      Progress O X
      → ManifestEntry
      → WorkerEvent O X
      → List (ChunkData X)
      → Result ProcessError (Progress O X)
  with_chunks p entry event [] = ok (fail_file p entry.path "no_chunks" none)
  with_chunks p entry event (chunk ∷ chunks) =
      with_options p entry event event.resolved_options event.language

  unfoldable pub with_status :
      Progress O X
      → ManifestEntry
      → WorkerEvent O X
      → Option String
      → Result ProcessError (Progress O X)
  with_status p entry event none = err internal
  with_status p entry event (some status) =
      if str_eq status "skipped"
      then ok (skip_file p entry.path (or_else event.reason "skipped"))
      else if str_eq status "failed"
      then ok (
          fail_file p entry.path (or_else event.reason "chunking_failed")
            (message_or_none (or_else event.error "")))
      else with_chunks p entry event event.chunks

  unfoldable pub with_event :
      Progress O X → ManifestEntry → Option (WorkerEvent O X) → Result ProcessError (Progress O X)
  with_event p entry none = err (incomplete_worker_result entry.path)
  with_event p entry (some event) = with_status p entry event event.status

  module _ (reusable : List (String × ChunkedFile O))
      (events : List (String × WorkerEvent O X)) where
    -- A file that is gone meanwhile violates the foreign key of the row: an `IntegrityError`.
    unfoldable pub with_artifact :
        Progress O X → ManifestEntry → Option (ChunkedFile O) → Result ProcessError (Progress O X)
    with_artifact p entry (some file) =
        if any (λ (f : ChunkedFile O). f.id == file.id) p.store.chunked_files
        then ok (reuse_file p entry.path file)
        else err internal
    with_artifact p entry none = with_event p entry (lookup entry.path events)

    unfoldable pub with_reason :
        Progress O X → ManifestEntry → Option String → Result ProcessError (Progress O X)
    with_reason p entry (some reason) = ok (skip_file p entry.path reason)
    with_reason p entry none = with_artifact p entry (lookup entry.path reusable)

    -- The body of the loop over the entries.
    unfoldable pub publish_entry : Progress O X → ManifestEntry → Result ProcessError (Progress O X)
    publish_entry p entry = with_reason p entry (skip_reason c.lower entry)
