-- ===== src/Chunking/Process/Omitted.antt =====
-- What `_publish` does with a supported file of which the worker told nothing.
use showcase_host.Prelude.{ap, ◌≢◌, String, none, List, [], ◌∷◌, ◌≡◌, refl, In, inl, inr}
use showcase_host.Prelude.Results.{ok, err, fold_result, >>=-ok}
use showcase_host.Snapshots.{ManifestEntry}
use showcase_host.Retrieval.{lookup}
use showcase_host.Chunking.Files.{ChunkedFile, skip_reason}
use showcase_host.Chunking.Columns.{ChunkingColumns}
use showcase_host.Chunking.Publish.{with_event, with_artifact, with_reason, publish_entry}
use showcase_host.Chunking.Publish.Tables.{
  WorkerEvent, ChunkStore, incomplete_worker_result, Publication, Progress,
}
use showcase_host.Chunking.Process.Publishing.{publish, events_by_path, check_progress}

module _ {O X : Type 0} (c : Publication O X) (reusable : List (String × ChunkedFile O))
    (entry : ManifestEntry) where
  -- The file is to be chunked, and the worker has told nothing of it.
  record IsOmitted (events : List (String × WorkerEvent O X)) : Type 0 where
    pub supported : skip_reason c.lower entry ≡ none
    pub not_reusable : lookup entry.path reusable ≡ none
    pub no_event : lookup entry.path events ≡ none

  publish_entry-omitted :
      (events : List (String × WorkerEvent O X)) (p : Progress O X)
      → IsOmitted events
      → publish_entry c reusable events p entry ≡ err (incomplete_worker_result entry.path)
  unfolding publish_entry with_reason with_artifact with_event
  publish_entry-omitted events p h = rw (h.supported, h.not_reusable, h.no_event) refl

  omitted_fails :
      (events : List (String × WorkerEvent O X)) (entries : List ManifestEntry) (p q : Progress O X)
      → IsOmitted events
      → In entry entries
      → fold_result (publish_entry c reusable events) p entries ≢ ok q
  omitted_fails events [] p q h m = absurd m
  omitted_fails events (first ∷ rest) p q h (inl here) = λ e.
      let (next, done, _) = >>=-ok (publish_entry c reusable events p first) _ e in
      absurd
        (cc (done, ap (publish_entry c reusable events p) here, publish_entry-omitted events p h))
  omitted_fails events (first ∷ rest) p q h (inr later) = λ e.
      let (next, _, looped) = >>=-ok (publish_entry c reusable events p first) _ e in
      omitted_fails events rest next q h later looped

  -- If the worker told nothing of a supported file that is not reused, `_publish` returns nothing.
  publish-omitted :
      (entries : List ManifestEntry) (events : List (WorkerEvent O X)) (s : ChunkStore O X)
      (result : ChunkStore O X × ChunkingColumns)
      → IsOmitted (events_by_path events [])
      → In entry entries
      → publish c entries reusable events s ≢ ok result
  unfolding publish
  publish-omitted entries events s result h m = λ e.
      let table = events_by_path events [] in
      let (p, looped, _) = >>=-ok _ (check_progress c entries reusable table) e in
      omitted_fails table entries _ p h m looped
