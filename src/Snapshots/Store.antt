-- ===== src/Snapshots/Store.antt =====
-- Publication and materialization in app/integrations/snapshots/local.py. The files below the storage
-- root are the archives and the manifests, by their paths below it; a manifest file is the list of its
-- entries. Repositories and commits are given by names without a slash.
pub mod Published
pub mod Deleted
use showcase_host.Prelude.{
  ℕ, String, Bool, true, false, not, ◌&&◌, Option, none, some, List, [], ◌∷◌, ◌==◌, if◌then◌else◌,
  length, sum_by, str_eq,
}
use showcase_host.Snapshots.Keys.{resolve_key}
use showcase_host.Snapshots.{
  ManifestEntry, SnapshotError, Result, ok, err, ◌>>=◌, Archive, Limits, Extraction, join_path,
  extract_and_manifest, empty_archive, read_error, invalid_archive, invalid_manifest,
  snapshot_manifest_mismatch,
}

pub record Storage : Type 0 where
  pub archives : String → Option Archive
  pub manifests : String → Option (List ManifestEntry)

pub record StoredSnapshot : Type 0 where
  pub archive_key : String
  pub manifest_key : String
  pub file_count : ℕ
  pub total_bytes : ℕ

abbrev pub archive_key_of : String → String → String
archive_key_of repository_id commit_sha =
    join_path ("github" ∷ repository_id ∷ commit_sha ∷ "source.tar.gz" ∷ [])

abbrev pub manifest_key_of : String → String → String
manifest_key_of repository_id commit_sha =
    join_path ("github" ∷ repository_id ∷ commit_sha ∷ "manifest.json" ∷ [])

-- `os.replace` onto a path.
abbrev pub replace {ℓ} : {A : Type ℓ} → String → A → (String → Option A) → String → Option A
replace key a f k = if str_eq k key then some a else f k

-- The `except (tarfile.TarError, OSError)` of `validate_and_publish`.
abbrev as_invalid : SnapshotError → SnapshotError
as_invalid read_error = invalid_archive
as_invalid e = e

unfoldable pub publish_entries :
    String → String → Archive → Storage → List ManifestEntry → Result StoredSnapshot × Storage
publish_entries repository_id commit_sha archive storage [] = (err empty_archive, storage)
publish_entries repository_id commit_sha archive storage (entry ∷ entries) = (
  ok (record {
    archive_key = archive_key_of repository_id commit_sha;
    manifest_key = manifest_key_of repository_id commit_sha;
    file_count = length (entry ∷ entries);
    total_bytes = sum_by (λ (e : ManifestEntry). e.size) (entry ∷ entries);
  }),
  record {
    archives = replace (archive_key_of repository_id commit_sha) archive storage.archives;
    manifests =
        replace (manifest_key_of repository_id commit_sha) (entry ∷ entries) storage.manifests;
  },
)

abbrev entry_eq : ManifestEntry → ManifestEntry → Bool
entry_eq a b = str_eq a.path b.path && a.size == b.size && str_eq a.sha256 b.sha256

abbrev pub entries_eq : List ManifestEntry → List ManifestEntry → Bool
entries_eq [] [] = true
entries_eq [] (b ∷ bs) = false
entries_eq (a ∷ as_) [] = false
entries_eq (a ∷ as_) (b ∷ bs) = entry_eq a b && entries_eq as_ bs

-- What follows the extraction, whose result comes last.
unfoldable pub publish_result :
    String
    → String
    → Archive
    → Storage
    → Result (List ManifestEntry × Extraction)
    → Result StoredSnapshot × Storage
publish_result repository_id commit_sha archive storage (err e) = (err (as_invalid e), storage)
publish_result repository_id commit_sha archive storage (ok (entries, _)) =
    publish_entries repository_id commit_sha archive storage entries

module _ (sha256 : List ℕ → String) (limits : Limits) where
  unfoldable pub validate_and_publish :
      String → String → Archive → Storage → Result StoredSnapshot × Storage
  validate_and_publish repository_id commit_sha archive storage =
      publish_result repository_id commit_sha archive storage
        (extract_and_manifest sha256 limits archive)

  -- `tarfile.open` of a file that is not there raises an `OSError`.
  abbrev extract_stored : Option Archive → Result (List ManifestEntry × Extraction)
  extract_stored none = err read_error
  extract_stored (some archive) = extract_and_manifest sha256 limits archive

  abbrev read_manifest : Option (List ManifestEntry) → Result (List ManifestEntry)
  read_manifest none = err invalid_manifest
  read_manifest (some entries) = ok entries

  -- The files that `materialize` hands to its `with` block, and the workspace that they lie in.
  unfoldable pub materialize : String → String → Storage → Result (List ManifestEntry × Extraction)
  materialize archive_key manifest_key storage = resolve_key limits archive_key >>= λ archive.
      resolve_key limits manifest_key >>= λ manifest.
      read_manifest (storage.manifests manifest) >>= λ expected.
      extract_stored (storage.archives archive) >>= λ actual.
      if entries_eq actual.0 expected then ok actual else err snapshot_manifest_mismatch

-- `unlink(missing_ok=True)`.
abbrev pub remove {ℓ} : {A : Type ℓ} → String → (String → Option A) → String → Option A
remove key f k = if str_eq k key then none else f k

-- The body of the loop of `delete`: the error that is raised, if any, and the files.
abbrev pub unlink_file : Result String → Storage → Option SnapshotError × Storage
unlink_file (err e) storage = (some e, storage)
unlink_file (ok path) storage = (
  none,
  record { archives = remove path storage.archives; manifests = remove path storage.manifests },
)

abbrev pub unlink_next :
    Result String → Option SnapshotError × Storage → Option SnapshotError × Storage
unlink_next path (some e, storage) = (some e, storage)
unlink_next path (none, storage) = unlink_file path storage

-- The directory goes if it is empty, and has no place of its own in the storage.
unfoldable pub delete : Limits → String → String → Storage → Option SnapshotError × Storage
delete limits archive_key manifest_key storage =
    unlink_next (resolve_key limits manifest_key)
      (unlink_file (resolve_key limits archive_key) storage)
