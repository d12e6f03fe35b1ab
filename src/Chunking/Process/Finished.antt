-- ===== src/Chunking/Process/Finished.antt =====
-- What `_publish` leaves in the tables and in the columns of the job.
use showcase_host.Prelude.{
  subst, ◌+◌, ◌≤◌, ◌<◌, String, not, ◌||◌, List, [], ◌++◌, ◌≡◌, refl, ltb, ◌==◌, filter, length,
  inl, inr, Bool-cases, arith, length-filter-le,
}
use showcase_host.Prelude.Results.{ok, ok_eq, >>=-ok}
use showcase_host.Snapshots.{ManifestEntry}
use showcase_host.Chunking.Files.{ChunkedFile}
use showcase_host.Chunking.Columns.{ChunkingColumns}
use showcase_host.Chunking.Publish.Tables.{
  WorkerEvent, SnapshotChunkFile, ChunkStore, Publication, Progress,
}
use showcase_host.Chunking.Publish.Counts.{
  AreRowsOf, AreRowsOf-length, Accumulated, publish_entries-Accumulated, tally, tally-total,
  is_succeeded, is_skipped, is_failed,
}
use showcase_host.Chunking.Process.Publishing.{
  is_row_of, is_supported, delete_rows, start_progress, final_columns, check_progress, publish,
  events_by_path,
}

module _ {O X : Type 0} (c : Publication O X) (entries : List ManifestEntry)
    (reusable : List (String × ChunkedFile O)) where
  -- The table has, after the other rows of before, one row for each entry, in their order. The counters of
  -- the job are the numbers of these rows by their status, and of the new chunks.
  pub record IsFinished (before after : ChunkStore O X) (columns : ChunkingColumns) : Type 0 where
    pub rows : List SnapshotChunkFile
    pub of_entries : AreRowsOf c entries rows
    pub table :
        after.snapshot_files
        ≡ filter (λ r. not (is_row_of c.snapshot_id c.profile_key r)) before.snapshot_files ++ rows
    pub discovered : columns.discovered_files ≡ length entries
    pub skips : columns.skipped_files ≡ tally is_skipped rows
    pub failures : columns.failed_files ≡ tally is_failed rows
    pub total :
        tally is_succeeded rows + columns.skipped_files + columns.failed_files
        ≡ columns.discovered_files
    pub some_succeeded : 0 < tally is_succeeded rows
    pub chunks : columns.chunks_created + length before.code_chunks ≡ length after.code_chunks
    pub supported : 0 < columns.supported_files
    pub within : columns.supported_files ≤ columns.discovered_files
    pub warns : columns.has_warnings ≡ ltb 0 (columns.skipped_files + columns.failed_files)

  checked :
      (events : List (String × WorkerEvent O X)) (s : ChunkStore O X) (p : Progress O X)
      (r : ChunkStore O X × ChunkingColumns)
      → Accumulated c reusable events
          (start_progress (delete_rows c.snapshot_id c.profile_key s))
          entries
          p
      → check_progress c entries reusable events p ≡ ok r
      → IsFinished s r.0 r.1
  unfolding check_progress final_columns
  checked events s p r a =
      elim (Bool-cases
        (length (filter (is_supported c.lower) entries) == 0 || p.successful_files == 0)) [
          | inl refused ↦ rw refused (λ h. absurd (cc h))
          | inr accepted ↦ rw accepted (λ h.
              subst (λ (x : ChunkStore O X × ChunkingColumns). IsFinished s x.0 x.1) (ok_eq h)
                (record {
                  rows = a.rows;
                  of_entries = a.of_entries;
                  table = a.appended;
                  discovered = refl;
                  skips = omega (arith, a.skips);
                  failures = omega (arith, a.failures);
                  total = omega (
                    arith,
                    a.successes,
                    a.skips,
                    a.failures,
                    tally-total a.rows,
                    AreRowsOf-length c entries a.rows a.of_entries,
                  );
                  some_succeeded = ground (arith, a.successes, accepted);
                  chunks = omega (arith, a.created);
                  supported = ground (arith, accepted);
                  within = length-filter-le (is_supported c.lower) entries;
                  warns = ground arith;
                }))
        ]

  -- If `_publish` returns, the table has one row for each entry of the manifest, after those of other
  -- snapshots; the counters are the numbers of these rows by status, add up, and some file succeeded.
  pub publish-IsFinished :
      (events : List (WorkerEvent O X)) (s : ChunkStore O X) (after : ChunkStore O X)
      (columns : ChunkingColumns)
      → publish c entries reusable events s ≡ ok (after, columns)
      → IsFinished s after columns
  unfolding publish
  publish-IsFinished events s after columns h =
      let (p, looped, finished) =
        >>=-ok _ (check_progress c entries reusable (events_by_path events [])) h in
      checked (events_by_path events []) s p (after, columns)
        (publish_entries-Accumulated c reusable (events_by_path events []) entries _ p looped)
        finished
