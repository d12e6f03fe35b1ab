-- ===== src/Snapshots.antt =====
-- Source snapshots: app/integrations/snapshots/base.py, and the extraction of an archive, its
-- publication and its materialization in app/integrations/snapshots/local.py.
mod Tests
pub mod Paths
pub mod Workspace
pub mod Steps
pub mod Manifest
pub mod Keys
pub mod Store
use Prim.Native.Char.{code}
use showcase_host.Prelude.{
  ℕ, ◌+◌, String, Bool, true, false, not, ◌||◌, ◌&&◌, Option, none, some, List, [], ◌∷◌, ◌++◌, ltb,
  ◌==◌, if◌then◌else◌, or_else, any, filter, length, sum_by, str_eq, str_leb, str_append, sort_by,
}

pub record ManifestEntry : Type 0 where
  pub path : String
  pub size : ℕ
  pub sha256 : String

-- The codes of `SnapshotError`, and `read_error` for a `TarError` or an `OSError`.
pub data SnapshotError : Type 0 where
  unsafe_archive_path invalid_archive_root unsafe_archive_entry duplicate_archive_path :
      SnapshotError
  file_too_large too_many_files extracted_content_too_large invalid_archive : SnapshotError
  empty_archive invalid_manifest snapshot_manifest_mismatch read_error : SnapshotError
  invalid_snapshot_key : SnapshotError

pub data Result (A : Type 0) : Type 0 where
  ok : A → Result A
  err : SnapshotError → Result A

infixl 5 ◌>>=◌
abbrev pub ◌>>=◌ : {A B : Type 0} → Result A → (A → Result B) → Result B
ok a >>= f = f a
err e >>= f = err e

-- What `isdir`, `issym`, `islnk` and `isfile` tell apart.
pub data MemberKind : Type 0 where
  directory symlink hardlink regular special : MemberKind

-- A member of a tar archive; `content` is what `extractfile` returns, as its successive nonempty reads.
pub record Member : Type 0 where
  pub name : String
  pub kind : MemberKind
  pub size : ℕ
  pub content : Option (List (List ℕ))

-- The members that the reader yields before it ends or, if `is_broken`, raises a `TarError`.
pub record Archive : Type 0 where
  pub members : List Member
  pub is_broken : Bool

-- The settings; the parts of the storage root are those of a resolved path.
pub record Limits : Type 0 where
  pub snapshot_root : List String
  pub max_file_bytes : ℕ
  pub max_files : ℕ
  pub max_extracted_bytes : ℕ

abbrev pub has_char : ℕ → String → Bool
has_char k String.[] = false
has_char k (String.◌∷◌ c s) = code c == k || has_char k s

abbrev pub is_absolute : String → Bool
is_absolute String.[] = false
is_absolute (String.◌∷◌ c s) = code c == b'/'

-- `name.split("/")`, of which `rest` is the first part from the left that is not ended yet.
abbrev pub split_slash : String → String × List String
split_slash String.[] = ("", [])
split_slash (String.◌∷◌ c s) =
    let (part, parts) = split_slash s in
    if code c == b'/' then ("", part ∷ parts) else (String.◌∷◌ c part, parts)

-- `PurePosixPath(name).parts` of a relative name: empty parts and "." vanish.
unfoldable pub pure_parts : String → List String
pure_parts name =
    filter (λ p. not (str_eq p "" || str_eq p ".")) ((split_slash name).0 ∷ (split_slash name).1)

abbrev pub join_path : List String → String
join_path [] = ""
join_path (p ∷ []) = p
join_path (p ∷ q ∷ ps) = str_append p (str_append "/" (join_path (q ∷ ps)))

-- The workspace as the files in it, and the variables of `_extract_and_manifest`.
pub record Extraction : Type 0 where
  pub entries : List ManifestEntry
  pub seen : List String
  pub total_bytes : ℕ
  pub root_component : Option String
  pub files : List (List String × List ℕ)

abbrev pub start : Extraction
start = record { entries = []; seen = []; total_bytes = 0; root_component = none; files = [] }

abbrev is_proper_prefix : List String → List String → Bool
is_proper_prefix [] [] = false
is_proper_prefix [] (q ∷ qs) = true
is_proper_prefix (p ∷ ps) [] = false
is_proper_prefix (p ∷ ps) (q ∷ qs) = str_eq p q && is_proper_prefix ps qs

-- A file stands where a directory is wanted, or the other way round: an `OSError`.
abbrev pub clashes : List String → List String × List ℕ → Bool
clashes relative (parts, _) = is_proper_prefix parts relative || is_proper_prefix relative parts

-- The `while` loop that copies a member's content: the bytes written.
unfoldable pub copy_content : Limits → ℕ → List (List ℕ) → List ℕ → Result (List ℕ)
copy_content limits size [] written = ok written
copy_content limits size (chunk ∷ chunks) written =
    let rest = copy_content limits size chunks (written ++ chunk) in
    if ltb size (length (written ++ chunk)) || ltb limits.max_file_bytes (length (written ++ chunk))
    then err file_too_large
    else rest

-- `key=lambda entry: entry.path`.
abbrev pub by_path : ManifestEntry → ManifestEntry → Bool
by_path a b = str_leb a.path b.path

module _ (sha256 : List ℕ → String) where
  unfoldable pub entry_of : List String × List ℕ → ManifestEntry
  entry_of (relative, bytes) = record {
    path = join_path relative;
    size = length bytes;
    sha256 = sha256 bytes;
  }

  -- From `extractfile` on, whose result comes last.
  unfoldable pub store_file :
      Limits → Member → List String → Extraction → Option (List (List ℕ)) → Result Extraction
  store_file limits member relative s none = err invalid_archive
  store_file limits member relative s (some chunks) =
      if any (clashes relative) s.files
      then err read_error
      else (copy_content limits member.size chunks [] >>= λ written.
          if length written == member.size
          then ok (record s {
            seen = join_path relative ∷ s.seen;
            entries = s.entries ++ entry_of (relative, written) ∷ [];
            files = s.files ++ (relative, written) ∷ [];
          })
          else err invalid_archive)

  unfoldable pub extract_file : Limits → Member → List String → Extraction → Result Extraction
  extract_file limits member relative s =
      if any (str_eq (join_path relative)) s.seen
      then err duplicate_archive_path
      else if ltb limits.max_file_bytes member.size
      then err file_too_large
      else if ltb limits.max_files (length s.entries + 1)
      then err too_many_files
      else if ltb limits.max_extracted_bytes (s.total_bytes + member.size)
      then err extracted_content_too_large
      else store_file limits member relative
          (record s { total_bytes = s.total_bytes + member.size }) member.content

  -- Directories are skipped, and so are links.
  unfoldable pub extract_kind :
      MemberKind → Limits → Member → List String → Extraction → Result Extraction
  extract_kind directory limits member relative s = ok s
  extract_kind symlink limits member relative s = ok s
  extract_kind hardlink limits member relative s = ok s
  extract_kind special limits member relative s = err unsafe_archive_entry
  extract_kind regular limits member relative s = extract_file limits member relative s

  unfoldable pub extract_parts : Limits → Member → List String → Extraction → Result Extraction
  extract_parts limits member [] s = ok s
  extract_parts limits member (root ∷ []) s =
      if str_eq root (or_else s.root_component root)
      then ok (record s { root_component = some (or_else s.root_component root) })
      else err invalid_archive_root
  extract_parts limits member (root ∷ p ∷ relative) s =
      if str_eq root (or_else s.root_component root)
      then extract_kind member.kind limits member (p ∷ relative)
          (record s { root_component = some (or_else s.root_component root) })
      else err invalid_archive_root

  -- The body of the loop over the members.
  unfoldable pub extract_member : Limits → Member → Extraction → Result Extraction
  extract_member limits member s =
      if is_absolute member.name
        || any (str_eq "..") (pure_parts member.name)
        || has_char b'\\' member.name
      then err unsafe_archive_path
      else extract_parts limits member (pure_parts member.name) s

  unfoldable pub extract_members : Limits → List Member → Extraction → Result Extraction
  extract_members limits [] s = ok s
  extract_members limits (member ∷ members) s =
      extract_member limits member s >>= λ s'. extract_members limits members s'

  unfoldable pub extract_and_manifest : Limits → Archive → Result (List ManifestEntry × Extraction)
  extract_and_manifest limits archive = extract_members limits archive.members start >>= λ s.
      if archive.is_broken then err read_error else ok (sort_by by_path s.entries, s)
