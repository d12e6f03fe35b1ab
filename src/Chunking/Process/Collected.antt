-- ===== src/Chunking/Process/Collected.antt =====
-- Referential integrity: what `_publish`, `_garbage_collect` and `process` keep of the three tables.
pub mod Targets
use showcase_host.Chunking.Process.Collected.Targets.{
  any-append_left, any-append_last, any-filter, any-dropped, All-both, is_target_of, All-target,
}
use showcase_host.Prelude.{
  ℕ, String, Bool, true, false, not, ◌||◌, Option, none, some, List, [], ◌∷◌, ◌++◌, ◌≡◌, refl, sym,
  ap, subst, length, ◌==◌, any, map, filter, All, All-append, All-filter, All-imp, inl, inr,
  Bool-cases, arith, ==_iff,
}
use showcase_host.Prelude.Results.{ok, ok_eq, fold_result, >>=-ok}
use showcase_host.Snapshots.{ManifestEntry}
use showcase_host.Chunking.Files.{ChunkedFile}
use showcase_host.Chunking.Columns.{ChunkingColumns}
use showcase_host.Chunking.Publish.{
  publish_entry, skip_file, fail_file, reuse_file, create_file, new_file, code_chunk,
}
use showcase_host.Chunking.Publish.Tables.{
  WorkerEvent, ChunkData, CodeChunk, SnapshotChunkFile, ChunkStore, Publication, Progress,
}
use showcase_host.Chunking.Publish.Rows.{
  Published, as_skipped, as_failed, as_reused, as_created, publish_entry-Published,
}
use showcase_host.Chunking.Process.Publishing.{
  is_referenced, garbage_collect, check_progress, is_supported, publish, events_by_path,
}

module _ {O : Type 0} where
  abbrev has_file : List (ChunkedFile O) → ℕ → Bool
  has_file files id = any (λ (f : ChunkedFile O). f.id == id) files

  abbrev has_target : List (ChunkedFile O) → Option ℕ → Bool
  has_target files none = true
  has_target files (some id) = has_file files id

  has_target_grows :
      (files : List (ChunkedFile O)) (file : ChunkedFile O) (id : Option ℕ)
      → has_target files id ≡ true
      → has_target (files ++ file ∷ []) id ≡ true
  has_target_grows files file none h = refl
  has_target_grows files file (some id) h =
      any-append_left (λ (f : ChunkedFile O). f.id == id) files (file ∷ []) h

  All-kept :
      (p : ChunkedFile O → Bool) (files : List (ChunkedFile O))
      → All (λ f. p f ≡ true) (filter p files)
  All-kept p [] = tt
  All-kept p (f ∷ files) = ground (arith, All-kept p files)

  kept_target :
      (rows : List SnapshotChunkFile) (files : List (ChunkedFile O)) (id : Option ℕ)
      → is_target_of rows id ≡ true
      → has_target files id ≡ true
      → has_target (filter (λ (f : ChunkedFile O). is_referenced rows f.id) files) id ≡ true
  kept_target rows files none r h = refl
  kept_target rows files (some id) r h =
      let same = λ (f : ChunkedFile O). f.id == id in
      let referenced = λ (f : ChunkedFile O). is_referenced rows f.id in
      any-filter same referenced files h (
        any-dropped same referenced files
          (λ f e. subst (λ x. is_referenced rows x ≡ true) (sym ((==_iff f.id id).0 e)) r))

module _ {O X : Type 0} where
  -- The foreign keys of the rows and of the chunks.
  pub record IsConsistent (s : ChunkStore O X) : Type 0 where
    pub rows :
        All
          (λ (r : SnapshotChunkFile). has_target s.chunked_files r.chunked_file_id ≡ true)
          s.snapshot_files
    pub chunks :
        All (λ (k : CodeChunk X). has_file s.chunked_files k.chunked_file_id ≡ true) s.code_chunks

  All-new_chunks :
      (c : Publication O X) (files : List (ChunkedFile O)) (file : ChunkedFile O)
      (chunks : List (ChunkData X))
      → has_file files file.id ≡ true
      → All
          (λ (k : CodeChunk X). has_file files k.chunked_file_id ≡ true)
          (map (code_chunk c file) chunks)
  unfolding code_chunk
  All-new_chunks c files file [] h = tt
  All-new_chunks c files file (chunk ∷ chunks) h = (h, All-new_chunks c files file chunks h)

  Published-IsConsistent :
      (c : Publication O X) (reusable : List (String × ChunkedFile O))
      (events : List (String × WorkerEvent O X)) (p : Progress O X) (entry : ManifestEntry)
      (q : Progress O X)
      → Published c reusable events p entry q
      → IsConsistent p.store
      → IsConsistent q.store
  unfolding skip_file fail_file reuse_file create_file new_file
  Published-IsConsistent c reusable events p entry _ (as_skipped reason) h = record {
    rows = All-append _ p.store.snapshot_files (_ ∷ []) h.rows (refl, tt);
    chunks = h.chunks;
  }
  Published-IsConsistent c reusable events p entry _ (as_failed event known reason message) h =
      record {
        rows = All-append _ p.store.snapshot_files (_ ∷ []) h.rows (refl, tt);
        chunks = h.chunks;
      }
  Published-IsConsistent c reusable events p entry _ (as_reused file known stored) h = record {
    rows = All-append _ p.store.snapshot_files (_ ∷ []) h.rows (stored, tt);
    chunks = h.chunks;
  }
  Published-IsConsistent c reusable events p entry _
        (as_created event known new resolved language accepted) h =
      let file = new_file c p.store.next_id entry resolved language in
      let files = p.store.chunked_files in
      let here =
        any-append_last (λ (f : ChunkedFile O). f.id == file.id) files file
          ((==_iff file.id file.id).1 refl) in
      record {
        rows =
            All-append _ p.store.snapshot_files (_ ∷ [])
              (All-imp _ _ (λ r. has_target_grows files file r.chunked_file_id)
                p.store.snapshot_files h.rows)
              (here, tt);
        chunks =
            All-append _ p.store.code_chunks _
              (All-imp _ _ (λ k. has_target_grows files file (some k.chunked_file_id))
                p.store.code_chunks h.chunks)
              (All-new_chunks c (files ++ file ∷ []) file event.chunks here);
      }

  entries-IsConsistent :
      (c : Publication O X) (reusable : List (String × ChunkedFile O))
      (events : List (String × WorkerEvent O X)) (entries : List ManifestEntry) (p q : Progress O X)
      → fold_result (publish_entry c reusable events) p entries ≡ ok q
      → IsConsistent p.store
      → IsConsistent q.store
  entries-IsConsistent c reusable events [] p q h k =
      subst (λ (x : Progress O X). IsConsistent x.store) (ok_eq h) k
  entries-IsConsistent c reusable events (entry ∷ entries) p q h k =
      let (next, first, rest) = >>=-ok (publish_entry c reusable events p entry) _ h in
      entries-IsConsistent c reusable events entries next q rest (
        Published-IsConsistent c reusable events p entry next
          (publish_entry-Published c reusable events p entry next first) k)

  check-store :
      (c : Publication O X) (entries : List ManifestEntry)
      (reusable : List (String × ChunkedFile O)) (events : List (String × WorkerEvent O X))
      (p : Progress O X) {r : ChunkStore O X × ChunkingColumns}
      → check_progress c entries reusable events p ≡ ok r
      → p.store ≡ r.0
  unfolding check_progress
  check-store c entries reusable events p =
      elim (Bool-cases
        (length (filter (is_supported c.lower) entries) == 0 || p.successful_files == 0)) [
          | inl refused ↦ rw refused (λ h. absurd (cc h))
          | inr accepted ↦ rw accepted (λ h. ap (λ x. x.0) (ok_eq h))
        ]

  pub publish-IsConsistent :
      (c : Publication O X) (entries : List ManifestEntry)
      (reusable : List (String × ChunkedFile O)) (events : List (WorkerEvent O X))
      (s after : ChunkStore O X) (columns : ChunkingColumns)
      → IsConsistent s
      → publish c entries reusable events s ≡ ok (after, columns)
      → IsConsistent after
  unfolding publish
  publish-IsConsistent c entries reusable events s after columns k h =
      let (p, looped, finished) =
        >>=-ok _ (check_progress c entries reusable (events_by_path events [])) h in
      subst IsConsistent (check-store c entries reusable (events_by_path events []) p finished) (
        entries-IsConsistent c reusable (events_by_path events []) entries _ p looped
          (record { rows = All-filter _ _ s.snapshot_files k.rows; chunks = k.chunks }))

  -- Files with rows only, and the same rows.
  pub record IsCollected (before after : ChunkStore O X) : Type 0 where
    pub consistent : IsConsistent after
    pub referenced :
        All
          (λ (f : ChunkedFile O). is_referenced after.snapshot_files f.id ≡ true)
          after.chunked_files
    pub same_rows : after.snapshot_files ≡ before.snapshot_files

  kept_chunks :
      (rows : List SnapshotChunkFile) (files : List (ChunkedFile O)) (chunks : List (CodeChunk X))
      → All (λ (k : CodeChunk X). has_file files k.chunked_file_id ≡ true) chunks
      → All
          (λ (k : CodeChunk X).
            has_file
              (filter (λ (f : ChunkedFile O). is_referenced rows f.id) files)
              k.chunked_file_id
            ≡ true)
          (filter
            (λ (k : CodeChunk X). not (
              has_file
                (filter (λ (f : ChunkedFile O). not (is_referenced rows f.id)) files)
                k.chunked_file_id))
            chunks)
  kept_chunks rows files [] h = tt
  kept_chunks rows files (k ∷ chunks) h =
      elim (Bool-cases (
        has_file (filter (λ (f : ChunkedFile O). not (is_referenced rows f.id)) files)
          k.chunked_file_id)) [
            | inl orphan ↦ rw orphan (kept_chunks rows files chunks h.1)
            | inr kept ↦ rw kept (
              any-filter (λ (f : ChunkedFile O). f.id == k.chunked_file_id)
                  (λ (f : ChunkedFile O). is_referenced rows f.id) files h.0 kept,
              kept_chunks rows files chunks h.1,
            )
          ]

  pub garbage_collect-IsCollected :
      (s : ChunkStore O X) → IsConsistent s → IsCollected s (garbage_collect s)
  unfolding garbage_collect
  garbage_collect-IsCollected s h = record {
    consistent = record {
      rows =
          All-both _ _ _ (λ r. kept_target s.snapshot_files s.chunked_files r.chunked_file_id)
            s.snapshot_files (All-target s.snapshot_files) h.rows;
      chunks = kept_chunks s.snapshot_files s.chunked_files s.code_chunks h.chunks;
    };
    referenced =
        All-kept (λ (f : ChunkedFile O). is_referenced s.snapshot_files f.id) s.chunked_files;
    same_rows = refl;
  }
