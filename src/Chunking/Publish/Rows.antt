-- ===== src/Chunking/Publish/Rows.antt =====
-- The four ways in which an entry of the manifest is published.
use showcase_host.Prelude.{
  String, true, false, Option, none, some, List, [], ◌∷◌, ◌≡◌, refl, subst, any, inl, inr,
  Bool-cases, str_eq, ◌==◌,
}
use showcase_host.Prelude.Results.{Result, ok, ok_eq}
use showcase_host.Snapshots.{ManifestEntry}
use showcase_host.Retrieval.{lookup}
use showcase_host.Chunking.Files.{ChunkedFile, skip_reason}
use showcase_host.Chunking.Publish.{
  skip_file, fail_file, reuse_file, create_file, new_file, refused_by_store, with_options,
  with_chunks, with_status, with_event, with_artifact, with_reason, publish_entry,
}
use showcase_host.Chunking.Publish.Tables.{
  WorkerEvent, ChunkData, ProcessError, Publication, Progress,
}

module _ {O X : Type 0} (c : Publication O X) (reusable : List (String × ChunkedFile O))
    (events : List (String × WorkerEvent O X)) where
  pub data Published (p : Progress O X) (entry : ManifestEntry) : Progress O X → Type 0 where
    as_skipped : (reason : String) → Published p entry (skip_file c p entry.path reason)
    as_failed :
        (event : WorkerEvent O X)
        → lookup entry.path events ≡ some event
        → (reason : String) → (message : Option String)
        → Published p entry (fail_file c p entry.path reason message)
    as_reused :
        (file : ChunkedFile O)
        → lookup entry.path reusable ≡ some file
        → any (λ (f : ChunkedFile O). f.id == file.id) p.store.chunked_files ≡ true
        → Published p entry (reuse_file c p entry.path file)
    as_created :
        (event : WorkerEvent O X)
        → lookup entry.path events ≡ some event
        → lookup entry.path reusable ≡ none
        → (resolved : O) → (language : String)
        → refused_by_store c p.store
            (new_file c p.store.next_id entry resolved language)
            event.chunks
          ≡ false
        → Published p entry (create_file c p entry event resolved language)

  module _ (p : Progress O X) (entry : ManifestEntry) (q : Progress O X) where
    by_equality :
        (r : Progress O X)
        → Published p entry r
        → ◌≡◌ {A = Result ProcessError (Progress O X)} (ok r) (ok q)
        → Published p entry q
    by_equality r published e = subst (λ x. Published p entry x) (ok_eq e) published

    module _ (event : WorkerEvent O X) (known : lookup entry.path events ≡ some event)
        (new : lookup entry.path reusable ≡ none) where
      with_options-Published :
          (resolved : Option O) (language : Option String)
          → with_options c p entry event resolved language ≡ ok q
          → Published p entry q
      unfolding with_options
      with_options-Published none language = λ h. absurd (cc h)
      with_options-Published (some resolved) none = λ h. absurd (cc h)
      with_options-Published (some resolved) (some language) =
          elim (Bool-cases (
            refused_by_store c p.store (new_file c p.store.next_id entry resolved language)
              event.chunks)) [
                | inl refused ↦ rw refused (λ h. absurd (cc h))
                | inr accepted ↦
                    rw accepted
                      (by_equality _ (as_created event known new resolved language accepted))
              ]

      with_chunks-Published :
          (chunks : List (ChunkData X))
          → with_chunks c p entry event chunks ≡ ok q
          → Published p entry q
      unfolding with_chunks
      with_chunks-Published [] = by_equality _ (as_failed event known "no_chunks" none)
      with_chunks-Published (chunk ∷ chunks) =
          with_options-Published event.resolved_options event.language

      with_status-Published :
          (status : Option String) → with_status c p entry event status ≡ ok q → Published p entry q
      unfolding with_status
      with_status-Published none = λ h. absurd (cc h)
      with_status-Published (some status) = elim (Bool-cases (str_eq status "skipped")) [
        | inl is_skipped ↦ rw is_skipped (by_equality _ (as_skipped _))
        | inr not_skipped ↦ rw not_skipped (elim (Bool-cases (str_eq status "failed")) [
          | inl is_failed ↦ rw is_failed (by_equality _ (as_failed event known _ _))
          | inr not_failed ↦ rw not_failed (with_chunks-Published event.chunks)
        ])
      ]

    with_event-Published :
        (found : Option (WorkerEvent O X))
        → lookup entry.path events ≡ found
        → lookup entry.path reusable ≡ none
        → with_event c p entry found ≡ ok q
        → Published p entry q
    unfolding with_event
    with_event-Published none known new = λ h. absurd (cc h)
    with_event-Published (some event) known new = with_status-Published event known new event.status

    with_artifact-Published :
        (found : Option (ChunkedFile O))
        → lookup entry.path reusable ≡ found
        → with_artifact c reusable events p entry found ≡ ok q
        → Published p entry q
    unfolding with_artifact
    with_artifact-Published none new = with_event-Published (lookup entry.path events) refl new
    with_artifact-Published (some file) known =
        elim (Bool-cases (any (λ (f : ChunkedFile O). f.id == file.id) p.store.chunked_files)) [
          | inl stored ↦ rw stored (by_equality _ (as_reused file known stored))
          | inr gone ↦ rw gone (λ h. absurd (cc h))
        ]

    with_reason-Published :
        (reason : Option String)
        → with_reason c reusable events p entry reason ≡ ok q
        → Published p entry q
    unfolding with_reason
    with_reason-Published none = with_artifact-Published (lookup entry.path reusable) refl
    with_reason-Published (some reason) = by_equality _ (as_skipped reason)

    pub publish_entry-Published :
        publish_entry c reusable events p entry ≡ ok q → Published p entry q
    unfolding publish_entry
    publish_entry-Published = with_reason-Published (skip_reason c.lower entry)
