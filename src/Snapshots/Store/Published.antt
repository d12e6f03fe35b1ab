-- ===== src/Snapshots/Store/Published.antt =====
-- A published snapshot can be materialized, with the entries that its publication reported.
use showcase_host.Prelude.{
  ℕ, String, ◌≡◌, refl, ap, true, Option, some, List, [], ◌∷◌, arith, length, sum_by, str_eq,
  str_eq_iff,
}
use showcase_host.Snapshots.{
  ManifestEntry, SnapshotError, Result, ok, err, Archive, Limits, Extraction, extract_and_manifest,
}
use showcase_host.Snapshots.Paths.{IsSafePart}
use showcase_host.Snapshots.Keys.{resolve_key}
use showcase_host.Snapshots.Keys.Resolved.{resolve_key-names}
use showcase_host.Snapshots.Store.{
  Storage, StoredSnapshot, archive_key_of, manifest_key_of, replace, publish_entries, entries_eq,
  publish_result, validate_and_publish, materialize,
}

github_safe : IsSafePart "github"
github_safe = record {
  not_parent = refl;
  not_here = refl;
  not_empty = refl;
  no_slash = refl;
  no_backslash = refl;
}

archive_safe : IsSafePart "source.tar.gz"
archive_safe = record {
  not_parent = refl;
  not_here = refl;
  not_empty = refl;
  no_slash = refl;
  no_backslash = refl;
}

manifest_safe : IsSafePart "manifest.json"
manifest_safe = record {
  not_parent = refl;
  not_here = refl;
  not_empty = refl;
  no_slash = refl;
  no_backslash = refl;
}

pub ¬err≡ok : {A : Type 0} {e : SnapshotError} {a : A} → ¬ err e ≡ ok a
¬err≡ok = λ p. cc p

pub ok-injective : {A : Type 0} {a b : A} → ok a ≡ ok b → a ≡ b
ok-injective p = cc p

str_eq_self : (s : String) → str_eq s s ≡ true
str_eq_self s = (str_eq_iff s s).1 refl

entries_eq_self : (entries : List ManifestEntry) → entries_eq entries entries ≡ true
entries_eq_self [] = refl
entries_eq_self (e ∷ entries) =
    ground (arith, str_eq_self e.path, str_eq_self e.sha256, entries_eq_self entries)

-- The keys of a snapshot are those of its files, if the repository and the commit have plain names.
pub archive_key_of-resolves :
    (limits : Limits) (repository_id commit_sha : String)
    → IsSafePart repository_id
    → IsSafePart commit_sha
    → resolve_key limits (archive_key_of repository_id commit_sha)
      ≡ ok (archive_key_of repository_id commit_sha)
archive_key_of-resolves limits repository_id commit_sha r c =
    resolve_key-names limits "github" (repository_id ∷ commit_sha ∷ "source.tar.gz" ∷ []) refl
      (github_safe, (r, (c, (archive_safe, tt))))

pub manifest_key_of-resolves :
    (limits : Limits) (repository_id commit_sha : String)
    → IsSafePart repository_id
    → IsSafePart commit_sha
    → resolve_key limits (manifest_key_of repository_id commit_sha)
      ≡ ok (manifest_key_of repository_id commit_sha)
manifest_key_of-resolves limits repository_id commit_sha r c =
    resolve_key-names limits "github" (repository_id ∷ commit_sha ∷ "manifest.json" ∷ []) refl
      (github_safe, (r, (c, (manifest_safe, tt))))

module _ (sha256 : List ℕ → String) (limits : Limits) (repository_id commit_sha : String)
    (archive : Archive) (plain : IsSafePart repository_id × IsSafePart commit_sha) where
  replace_self :
      {A : Type 0} (key : String) (a : A) (f : String → Option A) → replace key a f key ≡ some a
  replace_self key a f = rw (str_eq_self key) refl

  materialize-extracted :
      (archive_key manifest_key : String) (storage : Storage) (r : List ManifestEntry × Extraction)
      → extract_and_manifest sha256 limits archive ≡ ok r
      → resolve_key limits archive_key ≡ ok archive_key
      → resolve_key limits manifest_key ≡ ok manifest_key
      → storage.archives archive_key ≡ some archive
      → storage.manifests manifest_key ≡ some r.0
      → materialize sha256 limits archive_key manifest_key storage ≡ ok r
  unfolding materialize
  materialize-extracted archive_key manifest_key storage r extracted archive_at manifest_at a m =
      rw (archive_at, manifest_at) (rw (m, a) (rw extracted (rw (entries_eq_self r.0) refl)))

  publish_entries-materialize :
      (storage : Storage) (entries : List ManifestEntry) (s : Extraction) (storage' : Storage)
      (stored : StoredSnapshot)
      → extract_and_manifest sha256 limits archive ≡ ok (entries, s)
      → publish_entries repository_id commit_sha archive storage entries ≡ (ok stored, storage')
      → (r : List ManifestEntry × Extraction) × (materialize sha256 limits stored.archive_key
            stored.manifest_key storage'
          ≡ ok r)
        × (length r.0 ≡ stored.file_count)
        × (sum_by (λ (e : ManifestEntry). e.size) r.0 ≡ stored.total_bytes)
  unfolding publish_entries
  publish_entries-materialize storage [] s storage' stored extracted e =
      absurd (¬err≡ok (ap (λ x. x.0) e))
  publish_entries-materialize storage (entry ∷ entries) s storage' stored extracted e =
      rw (← ok-injective (ap (λ x. x.0) e)) (
        rw (← ap (λ x. x.1) e) (
          (entry ∷ entries, s),
          materialize-extracted (archive_key_of repository_id commit_sha)
              (manifest_key_of repository_id commit_sha)
              (record {
                archives =
                    replace (archive_key_of repository_id commit_sha) archive storage.archives;
                manifests =
                    replace (manifest_key_of repository_id commit_sha) (entry ∷ entries)
                      storage.manifests;
              })
              (entry ∷ entries, s) extracted
              (archive_key_of-resolves limits repository_id commit_sha plain.0 plain.1)
              (manifest_key_of-resolves limits repository_id commit_sha plain.0 plain.1)
              (replace_self (archive_key_of repository_id commit_sha) archive storage.archives)
              (replace_self (manifest_key_of repository_id commit_sha) (entry ∷ entries)
                storage.manifests),
          refl,
          refl,
        ))

  publish_result-materialize :
      (storage : Storage) (result : Result (List ManifestEntry × Extraction)) (storage' : Storage)
      (stored : StoredSnapshot)
      → extract_and_manifest sha256 limits archive ≡ result
      → publish_result repository_id commit_sha archive storage result ≡ (ok stored, storage')
      → (r : List ManifestEntry × Extraction) × (materialize sha256 limits stored.archive_key
            stored.manifest_key storage'
          ≡ ok r)
        × (length r.0 ≡ stored.file_count)
        × (sum_by (λ (e : ManifestEntry). e.size) r.0 ≡ stored.total_bytes)
  unfolding publish_result
  publish_result-materialize storage (err code) storage' stored extracted e =
      absurd (¬err≡ok (ap (λ x. x.0) e))
  publish_result-materialize storage (ok (entries, s)) storage' stored extracted e =
      publish_entries-materialize storage entries s storage' stored extracted e

  -- If the repository and the commit have plain names and publication succeeds, the stored archive and manifest materialize at once, to as many files and
  -- bytes as it reported.
  pub publish-materialize :
      (storage storage' : Storage) (stored : StoredSnapshot)
      → validate_and_publish sha256 limits repository_id commit_sha archive storage
        ≡ (ok stored, storage')
      → (r : List ManifestEntry × Extraction) × (materialize sha256 limits stored.archive_key
            stored.manifest_key storage'
          ≡ ok r)
        × (length r.0 ≡ stored.file_count)
        × (sum_by (λ (e : ManifestEntry). e.size) r.0 ≡ stored.total_bytes)
  unfolding validate_and_publish
  publish-materialize storage storage' stored =
      publish_result-materialize storage (extract_and_manifest sha256 limits archive) storage'
        stored refl
