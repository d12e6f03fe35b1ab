-- ===== src/Chunking/Process/Publishing.antt =====
-- The beginning and the end of `_publish`, and `_garbage_collect`, of app/services/chunking.py.
use showcase_host.Prelude.{
  sum_by, ℕ, String, Bool, false, not, ◌||◌, ◌&&◌, Option, none, some, List, [], ◌∷◌, ltb, ◌==◌,
  if◌then◌else◌, or_else, is_some, any, filter, length, str_eq,
}
use showcase_host.Prelude.Results.{Result, ok, err, ◌>>=◌, fold_result}
use showcase_host.Snapshots.{ManifestEntry}
use showcase_host.Retrieval.{lookup, put}
use showcase_host.Chunking.Columns.{ChunkingColumns}
use showcase_host.Chunking.Files.{ChunkedFile, skip_reason}
use showcase_host.Chunking.Publish.{publish_entry}
use showcase_host.Chunking.Publish.Tables.{
  SnapshotChunkFile, WorkerEvent, ChunkStore, CodeChunk, ProcessError, no_chunkable_files,
  Publication, Progress,
}

abbrev pub is_row_of : ℕ → String → SnapshotChunkFile → Bool
is_row_of snapshot_id profile_key row =
    row.snapshot_id == snapshot_id && str_eq row.profile_key profile_key

abbrev entries_by_path :
    List ManifestEntry → List (String × ManifestEntry) → List (String × ManifestEntry)
entries_by_path [] table = table
entries_by_path (entry ∷ entries) table = entries_by_path entries (put entry.path entry table)

abbrev pub is_supported : (String → String) → ManifestEntry → Bool
is_supported lower entry = not (is_some (skip_reason lower entry))

abbrev size_or_zero : Option ManifestEntry → ℕ
size_or_zero none = 0
size_or_zero (some entry) = entry.size

abbrev refers_to : ℕ → Option ℕ → Bool
refers_to id none = false
refers_to id (some other) = other == id

abbrev pub is_referenced : List SnapshotChunkFile → ℕ → Bool
is_referenced rows id = any (λ (r : SnapshotChunkFile). refers_to id r.chunked_file_id) rows

module _ {O X : Type 0} where
  abbrev pub events_by_path :
      List (WorkerEvent O X) → List (String × WorkerEvent O X) → List (String × WorkerEvent O X)
  events_by_path [] table = table
  events_by_path (event ∷ events) table = events_by_path events (put event.path event table)

  abbrev bytes_of : List (String × ManifestEntry) → String × WorkerEvent O X → ℕ
  bytes_of table (path, event) =
      if str_eq (or_else event.status "") "succeeded" then size_or_zero (lookup path table) else 0

  abbrev pub delete_rows : ℕ → String → ChunkStore O X → ChunkStore O X
  delete_rows snapshot_id profile_key s = record s {
    snapshot_files = filter (λ r. not (is_row_of snapshot_id profile_key r)) s.snapshot_files;
  }

  abbrev pub start_progress : ChunkStore O X → Progress O X
  start_progress s = record {
    store = s;
    successful_files = 0;
    skipped_files = 0;
    failed_files = 0;
    chunks_created = 0;
    adaptive_retries = 0;
    language_timings = [];
  }

  -- The columns that a job ends with.
  unfoldable pub final_columns :
      Publication O X
      → List ManifestEntry
      → List (String × ChunkedFile O)
      → List (String × WorkerEvent O X)
      → Progress O X
      → ChunkingColumns
  final_columns c entries reusable events p = record {
    snapshot_id = c.snapshot_id;
    profile_key = c.profile_key;
    discovered_files = length entries;
    supported_files = length (filter (is_supported c.lower) entries);
    reused_files = length reusable;
    skipped_files = p.skipped_files;
    failed_files = p.failed_files;
    chunks_created = p.chunks_created;
    processed_bytes = sum_by (bytes_of (entries_by_path entries [])) events;
    adaptive_retries = p.adaptive_retries;
    has_warnings = ltb 0 p.skipped_files || ltb 0 p.failed_files;
    language_timings_ms = p.language_timings;
  }

  unfoldable pub check_progress :
      Publication O X
      → List ManifestEntry
      → List (String × ChunkedFile O)
      → List (String × WorkerEvent O X)
      → Progress O X
      → Result ProcessError (ChunkStore O X × ChunkingColumns)
  unfolding final_columns
  check_progress c entries reusable events p =
      if length (filter (is_supported c.lower) entries) == 0 || p.successful_files == 0
      then err no_chunkable_files
      else ok (p.store, final_columns c entries reusable events p)

  -- `_publish`: the tables and the columns of the job, or the exception that rolls back.
  unfoldable pub publish :
      Publication O X
      → List ManifestEntry
      → List (String × ChunkedFile O)
      → List (WorkerEvent O X)
      → ChunkStore O X
      → Result ProcessError (ChunkStore O X × ChunkingColumns)
  publish c entries reusable events s =
      let table = events_by_path events [] in
      fold_result (publish_entry c reusable table)
        (start_progress (delete_rows c.snapshot_id c.profile_key s)) entries
      >>= check_progress c entries reusable table

  -- Files without a row, and by `ON DELETE CASCADE` their chunks.
  unfoldable pub garbage_collect : ChunkStore O X → ChunkStore O X
  garbage_collect s =
      let kept =
        filter (λ (f : ChunkedFile O). is_referenced s.snapshot_files f.id) s.chunked_files in
      let is_orphan = λ (f : ChunkedFile O). not (is_referenced s.snapshot_files f.id) in
      let orphans = filter is_orphan s.chunked_files in
      record s {
        chunked_files = kept;
        code_chunks =
            filter
              (λ (k : CodeChunk X).
                not (any (λ (f : ChunkedFile O). f.id == k.chunked_file_id) orphans))
              s.code_chunks;
      }
