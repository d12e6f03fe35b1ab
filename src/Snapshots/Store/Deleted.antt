-- ===== src/Snapshots/Store/Deleted.antt =====
-- The deletion of a published snapshot takes back its publication.
use showcase_host.Prelude.{
  ℕ, String, ◌≡◌, refl, sym, ap, ◌∙◌, false, Option, none, List, [], ◌∷◌, fun_ext, ◌⊎◌, inl, inr,
  Bool-cases, str_eq, str_eq_iff,
}
use showcase_host.Snapshots.{
  ManifestEntry, SnapshotError, Result, ok, err, Archive, Limits, Extraction, extract_and_manifest,
}
use showcase_host.Snapshots.Paths.{IsSafePart}
use showcase_host.Snapshots.Store.{
  Storage, StoredSnapshot, archive_key_of, manifest_key_of, replace, remove, publish_entries,
  publish_result, validate_and_publish, delete,
}
use showcase_host.Snapshots.Store.Published.{
  archive_key_of-resolves, manifest_key_of-resolves, ¬err≡ok, ok-injective,
}

-- No file stands at a path.
abbrev IsFree : Storage → String → Type 0
IsFree storage path = (storage.archives path ≡ none) × (storage.manifests path ≡ none)

-- Files that were deleted without an error.
abbrev removed : Storage → Option SnapshotError × Storage
removed storage = (none, storage)

same_storage :
    (storage : Storage) (archives : String → Option Archive)
    (manifests : String → Option (List ManifestEntry))
    → archives ≡ storage.archives
    → manifests ≡ storage.manifests
    → removed (record { archives = archives; manifests = manifests }) ≡ (none, storage)
same_storage storage archives manifests a m = rw (a, m) refl

module _ {A : Type 0} (f : String → Option A) (first second key : String) (a : A)
    (free_first : f first ≡ none) (free_second : f second ≡ none)
    (known : (key ≡ first) ⊎ (key ≡ second)) where
  not_key : (k : String) → str_eq k first ≡ false → str_eq k second ≡ false → str_eq k key ≡ false
  not_key k not_first not_second = elim known [
    | inl e ↦ ap (str_eq k) e ∙ not_first
    | inr e ↦ ap (str_eq k) e ∙ not_second
  ]

  removed_at : (k : String) → remove second (remove first (replace key a f)) k ≡ f k
  removed_at k = elim (Bool-cases (str_eq k second)) [
    | inl here ↦ rw here (sym (ap f ((str_eq_iff k second).0 here) ∙ free_second))
    | inr not_second ↦ elim (Bool-cases (str_eq k first)) [
      | inl here ↦ rw (not_second, here) (sym (ap f ((str_eq_iff k first).0 here) ∙ free_first))
      | inr not_first ↦ rw (not_second, not_first, not_key k not_first not_second) refl
    ]
  ]

  -- What was put at one of two free paths is gone when both are removed.
  remove-replace : remove second (remove first (replace key a f)) ≡ f
  remove-replace = fun_ext removed_at

module _ (sha256 : List ℕ → String) (limits : Limits) (repository_id commit_sha : String)
    (archive : Archive) (plain : IsSafePart repository_id × IsSafePart commit_sha)
    (storage : Storage)
    (free : IsFree storage (archive_key_of repository_id commit_sha)
      × IsFree storage (manifest_key_of repository_id commit_sha)) where
  publish_result-delete :
      (result : Result (List ManifestEntry × Extraction)) (storage' : Storage)
      (stored : StoredSnapshot)
      → publish_result repository_id commit_sha archive storage result ≡ (ok stored, storage')
      → delete limits stored.archive_key stored.manifest_key storage' ≡ (none, storage)
  unfolding publish_result publish_entries delete
  publish_result-delete (err code) storage' stored e = absurd (¬err≡ok (ap (λ x. x.0) e))
  publish_result-delete (ok ([], s)) storage' stored e = absurd (¬err≡ok (ap (λ x. x.0) e))
  publish_result-delete (ok (entry ∷ entries, s)) storage' stored e =
      rw (← ok-injective (ap (λ x. x.0) e)) (
        rw (← ap (λ x. x.1) e) (
          rw
            (
              archive_key_of-resolves limits repository_id commit_sha plain.0 plain.1,
              manifest_key_of-resolves limits repository_id commit_sha plain.0 plain.1,
            )
            (same_storage storage _ _
              (remove-replace storage.archives archive_key manifest_key archive_key archive free.0.0
                free.1.0 (inl refl))
              (remove-replace storage.manifests archive_key manifest_key manifest_key
                (entry ∷ entries) free.0.1 free.1.1 (inr refl)))))
    where
      archive_key : String
      archive_key = archive_key_of repository_id commit_sha

      manifest_key : String
      manifest_key = manifest_key_of repository_id commit_sha

  -- If a repository and a commit with plain names have no files yet, and their publication succeeds, then the
  -- deletion of the keys that it returned raises nothing and leaves the storage as it was before.
  pub publish-delete :
      (storage' : Storage) (stored : StoredSnapshot)
      → validate_and_publish sha256 limits repository_id commit_sha archive storage
        ≡ (ok stored, storage')
      → delete limits stored.archive_key stored.manifest_key storage' ≡ (none, storage)
  unfolding validate_and_publish
  publish-delete storage' stored =
      publish_result-delete (extract_and_manifest sha256 limits archive) storage' stored
