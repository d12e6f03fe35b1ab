-- ===== src/Chunking/Files.antt =====
-- Which files of a snapshot are chunked: `skip_reason` and `_find_reusable` of app/services/chunking.py.
-- `str.lower` is a parameter.
pub mod Reuse
use Prim.Native.Char.{code}
use showcase_host.Prelude.{
  ℕ, String, Bool, true, false, ◌&&◌, ◌||◌, Option, none, some, List, [], ◌∷◌, map, ◌==◌,
  if◌then◌else◌, any, filter, str_eq, str_len,
}
use showcase_host.Snapshots.{ManifestEntry, pure_parts}
use showcase_host.Retrieval.{put}

abbrev pub engine_version : String
engine_version =
    "code-chunk@0.1.14+tree-sitter@0.26.3+tree-sitter-wasm@1.1.6+logical@2+text@2+overlap@2+quality@1"

abbrev pub normalization_version : String
normalization_version = "showcasehost-chunk-v2"

abbrev non_source_extensions : List String
non_source_extensions =
    ".7z" ∷ ".avi" ∷ ".bmp" ∷ ".class" ∷ ".doc" ∷ ".docx" ∷ ".eot" ∷ ".gif" ∷ ".gz" ∷ ".ico"
    ∷ ".jar" ∷ ".jpeg" ∷ ".jpg" ∷ ".lockb" ∷ ".mov" ∷ ".mp3" ∷ ".mp4" ∷ ".o" ∷ ".obj" ∷ ".otf"
    ∷ ".pdf" ∷ ".png" ∷ ".pyc" ∷ ".so" ∷ ".tar" ∷ ".ttf" ∷ ".wav" ∷ ".webm" ∷ ".webp" ∷ ".woff"
    ∷ ".woff2" ∷ ".xls" ∷ ".xlsx" ∷ ".zip" ∷ []

abbrev generated_components : List String
generated_components =
    "node_modules" ∷ "vendor" ∷ "dist" ∷ "build" ∷ "coverage" ∷ ".next" ∷ ".venv" ∷ []

abbrev is_member : String → List String → Bool
is_member s names = any (str_eq s) names

-- `s.endswith(t)`.
abbrev ends_with : String → String → Bool
ends_with t String.[] = str_eq t ""
ends_with t (String.◌∷◌ c s) = str_eq t (String.◌∷◌ c s) || ends_with t s

-- The rest of a name from its last dot on.
abbrev last_dot : String → Option String
last_dot String.[] = none
last_dot (String.◌∷◌ c s) = elim (last_dot s) [
  | some t ↦ some t
  | none ↦ if code c == b'.' then some (String.◌∷◌ c s) else none
]

abbrev suffix_or_empty : Option String → String
suffix_or_empty none = ""
suffix_or_empty (some t) = if str_len t == 1 then "" else t

-- `PurePosixPath.suffix` of a name: a first and a last dot start no suffix.
unfoldable pub suffix_of : String → String
suffix_of String.[] = ""
suffix_of (String.◌∷◌ c s) = suffix_or_empty (last_dot s)

-- `PurePosixPath.name`, the last part.
abbrev name_of : List String → String
name_of [] = ""
name_of (p ∷ []) = p
name_of (p ∷ q ∷ ps) = name_of (q ∷ ps)

abbrev is_minified : String → Bool
is_minified name =
    ends_with ".min.js" name || ends_with ".min.mjs" name || ends_with ".min.cjs" name

module _ (lower : String → String) where
  unfoldable pub skip_reason : ManifestEntry → Option String
  unfolding pure_parts suffix_of
  skip_reason entry =
      if any (λ part. is_member (lower part) generated_components) (pure_parts entry.path)
      then some "generated_or_dependency_path"
      else if is_minified (name_of (pure_parts entry.path))
      then some "minified_file"
      else if is_member (lower (suffix_of (name_of (pure_parts entry.path)))) non_source_extensions
      then some "unsupported_language"
      else none

-- A row of `chunked_files`; the options are any type.
pub record ChunkedFile (O : Type 0) : Type 0 where
  pub id : ℕ
  pub repository_id : ℕ
  pub path : String
  pub content_sha256 : String
  pub language : String
  pub fingerprint : String
  pub engine : String
  pub profile_key : String
  pub resolved_options : O

module _ {O : Type 0} where
  -- The `where` of the candidates, for the hashes of the entries.
  unfoldable pub is_candidate : ℕ → String → List String → ChunkedFile O → Bool
  is_candidate repository_id profile_key hashes file =
      file.repository_id == repository_id
      && str_eq file.profile_key profile_key
      && str_eq file.engine engine_version
      && is_member file.content_sha256 hashes

  abbrev pub has_identity : ManifestEntry → ChunkedFile O → Bool
  has_identity entry file = str_eq file.path entry.path && str_eq file.content_sha256 entry.sha256

  abbrev pub match_or :
      ManifestEntry → ChunkedFile O → Option (ChunkedFile O) → Option (ChunkedFile O)
  match_or entry file (some later) = some later
  match_or entry file none = if has_identity entry file then some file else none

  -- `by_identity.get((path, sha256))`: of equal keys the last one of the candidates stays.
  abbrev pub last_match : ManifestEntry → List (ChunkedFile O) → Option (ChunkedFile O)
  last_match entry [] = none
  last_match entry (file ∷ files) = match_or entry file (last_match entry files)

  abbrev pub add_found :
      String
      → Option (ChunkedFile O)
      → List (String × ChunkedFile O)
      → List (String × ChunkedFile O)
  add_found path none found = found
  add_found path (some file) found = put path file found

  -- The dictionary by path.
  abbrev pub collect_reusable :
      List (ChunkedFile O)
      → List ManifestEntry
      → List (String × ChunkedFile O)
      → List (String × ChunkedFile O)
  collect_reusable candidates [] found = found
  collect_reusable candidates (entry ∷ entries) found =
      collect_reusable candidates entries (add_found entry.path (last_match entry candidates) found)

  -- Without entries there are no hashes, so nothing is found either.
  unfoldable pub find_reusable :
      ℕ → String → List ManifestEntry → List (ChunkedFile O) → List (String × ChunkedFile O)
  unfolding is_candidate
  find_reusable repository_id profile_key entries files =
      let hashes = map (λ (e : ManifestEntry). e.sha256) entries in
      collect_reusable (filter (is_candidate repository_id profile_key hashes) files) entries []
