-- ===== src/Chunking/Publish/Counts.antt =====
-- What the loop over the entries of a manifest adds: a row for each, and the counters.
use showcase_host.Prelude.{
  ℕ, ◌+◌, String, Bool, true, false, List, [], ◌∷◌, ◌++◌, ◌≡◌, ◌⊎◌, refl, sym, ap, subst, ◌∙◌, map,
  filter, length, inl, inr, arith, append_assoc, append-nil, length-append, length-map,
}
use showcase_host.Prelude.Results.{ok, ok_eq, fold_result, >>=-ok}
use showcase_host.Snapshots.{ManifestEntry}
use showcase_host.Chunking.Files.{ChunkedFile}
use showcase_host.Chunking.Publish.{
  skip_file, fail_file, reuse_file, create_file, new_file, code_chunk, publish_entry,
}
use showcase_host.Chunking.Publish.Tables.{
  ChunkFileStatus, succeeded, skipped, failed, WorkerEvent, SnapshotChunkFile, Publication,
  Progress,
}
use showcase_host.Chunking.Publish.Rows.{
  as_created, as_reused, as_failed, as_skipped, Published, publish_entry-Published,
}

abbrev pub is_succeeded : ChunkFileStatus → Bool
is_succeeded succeeded = true
is_succeeded skipped = false
is_succeeded failed = false

abbrev pub is_skipped : ChunkFileStatus → Bool
is_skipped skipped = true
is_skipped succeeded = false
is_skipped failed = false

abbrev pub is_failed : ChunkFileStatus → Bool
is_failed failed = true
is_failed succeeded = false
is_failed skipped = false

-- How many rows have a status.
abbrev pub tally : (ChunkFileStatus → Bool) → List SnapshotChunkFile → ℕ
tally has_status rows = length (filter (λ (r : SnapshotChunkFile). has_status r.status) rows)

tally-append :
    (has_status : ChunkFileStatus → Bool) (xs ys : List SnapshotChunkFile)
    → tally has_status (xs ++ ys) ≡ tally has_status xs + tally has_status ys
tally-append has_status [] ys = omega arith
tally-append has_status (x ∷ xs) ys = ground (arith, tally-append has_status xs ys)

status_cases : (s : ChunkFileStatus) → (s ≡ succeeded) ⊎ ((s ≡ skipped) ⊎ (s ≡ failed))
status_cases succeeded = inl refl
status_cases skipped = inr (inl refl)
status_cases failed = inr (inr refl)

pub tally-total :
    (rows : List SnapshotChunkFile)
    → tally is_succeeded rows + tally is_skipped rows + tally is_failed rows ≡ length rows
tally-total [] = omega arith
tally-total (row ∷ rows) = elim (status_cases row.status) [
  | inl s ↦ rw s (omega (arith, tally-total rows))
  | inr (inl s) ↦ rw s (omega (arith, tally-total rows))
  | inr (inr s) ↦ rw s (omega (arith, tally-total rows))
]

module _ {O X : Type 0} (c : Publication O X) where
  -- A row of the snapshot and the profile for the entry.
  pub record IsRowOf (entry : ManifestEntry) (row : SnapshotChunkFile) : Type 0 where
    pub same_snapshot : row.snapshot_id ≡ c.snapshot_id
    pub same_profile : row.profile_key ≡ c.profile_key
    pub same_path : row.path ≡ entry.path

  -- Rows for entries, in their order.
  abbrev pub AreRowsOf : List ManifestEntry → List SnapshotChunkFile → Type 0
  AreRowsOf [] [] = Unit {0}
  AreRowsOf [] (row ∷ rows) = ⊥
  AreRowsOf (entry ∷ entries) [] = ⊥
  AreRowsOf (entry ∷ entries) (row ∷ rows) = IsRowOf entry row × AreRowsOf entries rows

  pub AreRowsOf-length :
      (entries : List ManifestEntry) (rows : List SnapshotChunkFile)
      → AreRowsOf entries rows
      → length rows ≡ length entries
  AreRowsOf-length [] [] h = refl
  AreRowsOf-length [] (row ∷ rows) h = absurd h
  AreRowsOf-length (entry ∷ entries) [] h = absurd h
  AreRowsOf-length (entry ∷ entries) (row ∷ rows) h =
      omega (arith, AreRowsOf-length entries rows h.1)

module _ {O X : Type 0} (c : Publication O X) (reusable : List (String × ChunkedFile O))
    (events : List (String × WorkerEvent O X)) where
  -- What `publish_entry` adds.
  pub record Added (p : Progress O X) (entry : ManifestEntry) (q : Progress O X) : Type 0 where
    pub row : SnapshotChunkFile
    pub of_entry : IsRowOf c entry row
    pub appended : q.store.snapshot_files ≡ p.store.snapshot_files ++ row ∷ []
    pub successes : q.successful_files ≡ tally is_succeeded (row ∷ []) + p.successful_files
    pub skips : q.skipped_files ≡ tally is_skipped (row ∷ []) + p.skipped_files
    pub failures : q.failed_files ≡ tally is_failed (row ∷ []) + p.failed_files
    pub created :
        q.chunks_created + length p.store.code_chunks
        ≡ p.chunks_created + length q.store.code_chunks

  Published-Added :
      (p : Progress O X) (entry : ManifestEntry) (q : Progress O X)
      → Published c reusable events p entry q
      → Added p entry q
  unfolding skip_file fail_file reuse_file create_file new_file
  Published-Added p entry _ (as_skipped reason) = record {
    row = _;
    of_entry = record { same_snapshot = refl; same_profile = refl; same_path = refl };
    appended = refl;
    successes = omega arith;
    skips = omega arith;
    failures = omega arith;
    created = refl;
  }
  Published-Added p entry _ (as_failed event known reason message) = record {
    row = _;
    of_entry = record { same_snapshot = refl; same_profile = refl; same_path = refl };
    appended = refl;
    successes = omega arith;
    skips = omega arith;
    failures = omega arith;
    created = refl;
  }
  Published-Added p entry _ (as_reused file known stored) = record {
    row = _;
    of_entry = record { same_snapshot = refl; same_profile = refl; same_path = refl };
    appended = refl;
    successes = omega arith;
    skips = omega arith;
    failures = omega arith;
    created = refl;
  }
  Published-Added p entry _ (as_created event known new resolved language accepted) = record {
    row = _;
    of_entry = record { same_snapshot = refl; same_profile = refl; same_path = refl };
    appended = refl;
    successes = omega arith;
    skips = omega arith;
    failures = omega arith;
    created = omega (
      arith,
      length-append p.store.code_chunks
          (map (code_chunk c (new_file c p.store.next_id entry resolved language)) event.chunks),
      length-map (code_chunk c (new_file c p.store.next_id entry resolved language)) event.chunks,
    );
  }

  -- What the loop adds.
  pub record Accumulated (p : Progress O X) (entries : List ManifestEntry) (q : Progress O X)
      : Type 0 where
    pub rows : List SnapshotChunkFile
    pub of_entries : AreRowsOf c entries rows
    pub appended : q.store.snapshot_files ≡ p.store.snapshot_files ++ rows
    pub successes : q.successful_files ≡ tally is_succeeded rows + p.successful_files
    pub skips : q.skipped_files ≡ tally is_skipped rows + p.skipped_files
    pub failures : q.failed_files ≡ tally is_failed rows + p.failed_files
    pub created :
        q.chunks_created + length p.store.code_chunks
        ≡ p.chunks_created + length q.store.code_chunks

  then_accumulates :
      {p q r : Progress O X} {entry : ManifestEntry} {entries : List ManifestEntry}
      → Added p entry q
      → Accumulated q entries r
      → Accumulated p (entry ∷ entries) r
  then_accumulates {p} {q} {r} {entry} {entries} a b = record {
    rows = a.row ∷ b.rows;
    of_entries = (a.of_entry, b.of_entries);
    appended =
        b.appended
        ∙ ap (λ files. files ++ b.rows) a.appended
        ∙ append_assoc p.store.snapshot_files (a.row ∷ []) b.rows;
    successes =
        omega (arith, a.successes, b.successes, tally-append is_succeeded (a.row ∷ []) b.rows);
    skips = omega (arith, a.skips, b.skips, tally-append is_skipped (a.row ∷ []) b.rows);
    failures = omega (arith, a.failures, b.failures, tally-append is_failed (a.row ∷ []) b.rows);
    created = omega (arith, a.created, b.created);
  }

  pub publish_entries-Accumulated :
      (entries : List ManifestEntry) (p q : Progress O X)
      → fold_result (publish_entry c reusable events) p entries ≡ ok q
      → Accumulated p entries q
  publish_entries-Accumulated [] p q h =
      subst (λ x. Accumulated p [] x) (ok_eq h)
        (record {
          rows = [];
          of_entries = tt;
          appended = sym (append-nil p.store.snapshot_files);
          successes = omega arith;
          skips = omega arith;
          failures = omega arith;
          created = refl;
        })
  publish_entries-Accumulated (entry ∷ entries) p q h =
      let (next, first, rest) = >>=-ok (publish_entry c reusable events p entry) _ h in
      then_accumulates
        (Published-Added p entry next
          (publish_entry-Published c reusable events p entry next first))
        (publish_entries-Accumulated entries next q rest)
