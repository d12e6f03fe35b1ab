-- ===== src/Snapshots/Manifest.antt =====
-- What `_extract_and_manifest` has written when it returns, and what its manifest says of it.
use showcase_host.Prelude.{
  ℕ, ◌≤◌, String, ◌≡◌, refl, ap, subst, inl, inr, List, [], ◌∷◌, map, arith, length, length-map,
  sum_by, Bool-cases, sort_by, IsSorted, sort_by-IsSorted, sort_by-perm, str_leb-total, length-sort,
  sum_by-sort,
}
use mathlib.Core.List.{Perm}
use showcase_host.Snapshots.{
  ManifestEntry, Archive, Limits, Extraction, start, entry_of, by_path, extract_and_manifest,
}
use showcase_host.Snapshots.Workspace.{Ensures, Ensures-bind, File, IsExtracted}
use showcase_host.Snapshots.Steps.{extract_members-IsExtracted, start-IsExtracted}

manifest-sizes :
    (sha256 : List ℕ → String) (fs : List File)
    → sum_by (λ (e : ManifestEntry). e.size) (map (entry_of sha256) fs)
      ≡ sum_by (λ (f : File). length f.1) fs
unfolding entry_of
manifest-sizes sha256 [] = refl
manifest-sizes sha256 (f ∷ fs) = omega (arith, manifest-sizes sha256 fs)

-- The manifest lists exactly the files of the workspace, in the order of their paths; the files
-- respect the limits, have different paths, and each of their paths stays below the workspace.
pub record IsManifest (sha256 : List ℕ → String) (limits : Limits)
    (r : List ManifestEntry × Extraction) : Type 0 where
  pub extracted : IsExtracted sha256 limits r.1
  pub complete : Perm r.0 (map (entry_of sha256) r.1.files)
  pub sorted : IsSorted by_path r.0
  pub total : sum_by (λ (e : ManifestEntry). e.size) r.0 ≤ limits.max_extracted_bytes
  pub count : length r.0 ≤ limits.max_files

-- Whatever the archive holds: if `_extract_and_manifest` returns, it has written files with different
-- paths below the workspace, within the limits on files, file sizes and their total, and its manifest
-- lists exactly these files with their sizes and digests, sorted by path.
pub extract_and_manifest-IsManifest :
    (sha256 : List ℕ → String) (limits : Limits) (archive : Archive)
    → Ensures (IsManifest sha256 limits) (extract_and_manifest sha256 limits archive)
unfolding extract_and_manifest
extract_and_manifest-IsManifest sha256 limits archive =
    Ensures-bind (IsExtracted sha256 limits) (IsManifest sha256 limits) _ _
      (extract_members-IsExtracted sha256 limits archive.members start
        (start-IsExtracted sha256 limits))
      (λ s h. elim (Bool-cases archive.is_broken) [
        | inl broken ↦ rw broken tt
        | inr sound ↦ rw sound (manifest s h)
      ])
  where
    manifest :
        (s : Extraction)
        → IsExtracted sha256 limits s
        → IsManifest sha256 limits (sort_by by_path s.entries, s)
    manifest s h = record {
      extracted = h;
      complete =
          subst (λ es. Perm (sort_by by_path s.entries) es) h.listed
            (sort_by-perm by_path s.entries);
      sorted = sort_by-IsSorted by_path (λ a b. str_leb-total a.path b.path) s.entries;
      total = omega (
        arith,
        sum_by-sort by_path (λ (e : ManifestEntry). e.size) s.entries,
        ap (sum_by (λ (e : ManifestEntry). e.size)) h.listed,
        manifest-sizes sha256 s.files,
        h.counted,
        h.bounded,
      );
      count = omega (
        arith,
        length-sort by_path s.entries,
        ap length h.listed,
        length-map (entry_of sha256) s.files,
        h.few,
      );
    }
