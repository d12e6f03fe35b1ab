-- ===== src/Snapshots/Tests.antt =====
-- Extractions and publications of concrete archives, and their theorems there.
use showcase_host.Prelude.{
  sort_by, ℕ, ◌≡◌, refl, String, false, none, some, List, [], ◌∷◌, sum_by, length,
}
use showcase_host.Snapshots.{
  ManifestEntry, ok, err, Member, regular, directory, symlink, Archive, Limits, Extraction,
  pure_parts, copy_content, entry_of, store_file, extract_file, extract_kind, extract_parts,
  extract_member, extract_members, extract_and_manifest, unsafe_archive_path,
  duplicate_archive_path, file_too_large, invalid_snapshot_key,
}
use showcase_host.Snapshots.Manifest.{IsManifest, extract_and_manifest-IsManifest}
use showcase_host.Snapshots.Workspace.{Ensures}
use showcase_host.Snapshots.Store.{
  Storage, StoredSnapshot, publish_entries, publish_result, validate_and_publish, materialize,
  delete, archive_key_of, manifest_key_of, replace,
}
use showcase_host.Snapshots.Store.Published.{publish-materialize}
use showcase_host.Snapshots.Store.Deleted.{publish-delete}
use showcase_host.Snapshots.Paths.{IsSafePart}
use showcase_host.Snapshots.Keys.{resolve_key}
use showcase_host.Snapshots.Keys.Below.{IsBelow, resolve_key-IsBelow}

abbrev digest : List ℕ → String
digest bytes = "digest"

abbrev limits : Limits
limits = record {
  snapshot_root = "data" ∷ "snapshots" ∷ [];
  max_file_bytes = 4;
  max_files = 2;
  max_extracted_bytes = 6;
}

abbrev file : String → List ℕ → Member
file name bytes = record {
  name = name;
  kind = regular;
  size = length bytes;
  content = some (bytes ∷ []);
}

abbrev archive_of : List Member → Archive
archive_of members = record { members = members; is_broken = false }

abbrev archive : Archive
archive = archive_of (
    record { name = "repo"; kind = directory; size = 0; content = none }
    ∷ file "repo/b" (7 ∷ 8 ∷ [])
    ∷ record { name = "repo/link"; kind = symlink; size = 0; content = none }
    ∷ file "repo/./a" (9 ∷ [])
    ∷ [])

abbrev entries : List ManifestEntry
entries =
    record { path = "a"; size = 1; sha256 = "digest" }
    ∷ record { path = "b"; size = 2; sha256 = "digest" }
    ∷ []

abbrev extraction : Extraction
extraction = record {
  entries =
      record { path = "b"; size = 2; sha256 = "digest" }
      ∷ record { path = "a"; size = 1; sha256 = "digest" }
      ∷ [];
  seen = "a" ∷ "b" ∷ [];
  total_bytes = 3;
  root_component = some "repo";
  files = ("b" ∷ [], 7 ∷ 8 ∷ []) ∷ ("a" ∷ [], 9 ∷ []) ∷ [];
}

extract_and_manifest_runs :
    (extract_and_manifest digest limits archive ≡ ok (entries, extraction))
    × (extract_and_manifest digest limits (archive_of (file "repo/../x" (1 ∷ []) ∷ []))
        ≡ err unsafe_archive_path)
    × (extract_and_manifest digest limits
          (archive_of (file "repo/x" (1 ∷ []) ∷ file "repo//x" (1 ∷ []) ∷ []))
        ≡ err duplicate_archive_path)
    × (extract_and_manifest digest limits (archive_of (file "repo/x" (1 ∷ 1 ∷ 1 ∷ 1 ∷ 1 ∷ []) ∷ []))
        ≡ err file_too_large)
unfolding extract_and_manifest extract_members extract_member extract_parts extract_kind
    extract_file store_file copy_content entry_of pure_parts sort_by
extract_and_manifest_runs = (refl, refl, refl, refl)

extract_and_manifest-IsManifest_example :
    Ensures (IsManifest digest limits) (extract_and_manifest digest limits archive)
extract_and_manifest-IsManifest_example = extract_and_manifest-IsManifest digest limits archive

abbrev empty_storage : Storage
empty_storage = record { archives = λ _. none; manifests = λ _. none }

abbrev stored : StoredSnapshot
stored = record {
  archive_key = "github/7/abc/source.tar.gz";
  manifest_key = "github/7/abc/manifest.json";
  file_count = 2;
  total_bytes = 3;
}

abbrev full_storage : Storage
full_storage = record {
  archives = replace (archive_key_of "7" "abc") archive (λ _. none);
  manifests = replace (manifest_key_of "7" "abc") entries (λ _. none);
}

validate_and_publish_runs :
    validate_and_publish digest limits "7" "abc" archive empty_storage ≡ (ok stored, full_storage)
unfolding validate_and_publish publish_result publish_entries extract_and_manifest extract_members
    extract_member extract_parts extract_kind extract_file store_file copy_content entry_of
    pure_parts sort_by
validate_and_publish_runs = refl

plain_names : IsSafePart "7" × IsSafePart "abc"
plain_names = (
  record {
    not_parent = refl;
    not_here = refl;
    not_empty = refl;
    no_slash = refl;
    no_backslash = refl;
  },
  record {
    not_parent = refl;
    not_here = refl;
    not_empty = refl;
    no_slash = refl;
    no_backslash = refl;
  },
)

publish-materialize_example :
    (r : List ManifestEntry × Extraction) × (materialize digest limits stored.archive_key
        stored.manifest_key full_storage
      ≡ ok r)
    × (length r.0 ≡ 2)
    × (sum_by (λ (e : ManifestEntry). e.size) r.0 ≡ 3)
publish-materialize_example =
    publish-materialize digest limits "7" "abc" archive plain_names empty_storage full_storage
      stored validate_and_publish_runs

publish-delete_example :
    delete limits stored.archive_key stored.manifest_key full_storage ≡ (none, empty_storage)
publish-delete_example =
    publish-delete digest limits "7" "abc" archive plain_names empty_storage
      ((refl, refl), (refl, refl)) full_storage stored validate_and_publish_runs

-- Keys may leave the root and come back, but may not end outside of it.
resolve_key_runs :
    (resolve_key limits "github/./7/../8/x" ≡ ok "github/8/x")
    × (resolve_key limits "../snapshots/x" ≡ ok "x")
    × (resolve_key limits "/data/snapshots/x" ≡ ok "x")
    × (resolve_key limits "../secret" ≡ err invalid_snapshot_key)
    × (resolve_key limits "/etc/passwd" ≡ err invalid_snapshot_key)
    × (resolve_key limits "" ≡ err invalid_snapshot_key)
unfolding resolve_key pure_parts
resolve_key_runs = (refl, refl, refl, refl, refl, refl)

resolved : resolve_key limits "../snapshots/x" ≡ ok "x"
resolved = resolve_key_runs.1

resolve_key-IsBelow_example : IsBelow ("data" ∷ "snapshots" ∷ []) "../snapshots/x" "x"
resolve_key-IsBelow_example =
    resolve_key-IsBelow limits "../snapshots/x" "x" ((refl, refl), ((refl, refl), tt)) resolved
