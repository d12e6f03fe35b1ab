-- ===== src/Snapshots/Workspace.antt =====
-- The invariant of the extraction: what the workspace holds.
use showcase_host.Prelude.{
  ℕ, ◌≤◌, String, ◌≡◌, ◌≢◌, refl, true, ◌||◌, inl, inr, List, [], ◌∷◌, ◌++◌, map, arith, ltb, any,
  length, sum_by, All, All-append, str_eq, str_eq_iff, Bool-cases,
}
use showcase_host.Snapshots.{
  Result, ok, err, Limits, Extraction, join_path, copy_content, entry_of, ◌>>=◌,
}
use showcase_host.Snapshots.Paths.{IsSafePart}

-- Nothing is promised of a run that raises.
abbrev pub Ensures : {A : Type 0} → (A → Type 0) → Result A → Type 0
Ensures P (ok a) = P a
Ensures P (err e) = Unit

pub Ensures-bind :
    {A B : Type 0} (P : A → Type 0) (Q : B → Type 0) (m : Result A) (f : A → Result B)
    → Ensures P m
    → ((a : A) → P a → Ensures Q (f a))
    → Ensures Q (m >>= f)
Ensures-bind P Q (ok a) f h k = k a h
Ensures-bind P Q (err e) f h k = tt

-- A file of the workspace: the parts of its path below the root, and its content.
abbrev pub File : Type 0
File = List String × List ℕ

-- No two files have the same path.
abbrev HasPaths : List File → Type 0
HasPaths [] = Unit
HasPaths (f ∷ fs) = All (λ (g : File). join_path f.0 ≢ join_path g.0) fs × HasPaths fs

pub HasPaths-append :
    (fs : List File) (f : File)
    → HasPaths fs
    → All (λ (g : File). join_path g.0 ≢ join_path f.0) fs
    → HasPaths (fs ++ f ∷ [])
HasPaths-append [] f h new = (tt, tt)
HasPaths-append (g ∷ fs) f h new =
    (All-append _ fs (f ∷ []) h.0 (new.0, tt), HasPaths-append fs f h.1 new.1)

-- The files respect the limits and have safe and different paths, and the entries are exactly what a
-- manifest says of these files.
pub record IsExtracted (sha256 : List ℕ → String) (limits : Limits) (s : Extraction) : Type 0 where
  pub few : length s.files ≤ limits.max_files
  pub small : All (λ (f : File). length f.1 ≤ limits.max_file_bytes) s.files
  pub counted : sum_by (λ (f : File). length f.1) s.files ≡ s.total_bytes
  pub bounded : s.total_bytes ≤ limits.max_extracted_bytes
  pub safe : All (λ (f : File). All IsSafePart f.0) s.files
  pub paths : HasPaths s.files
  pub known : All (λ (f : File). any (str_eq (join_path f.0)) s.seen ≡ true) s.files
  pub listed : s.entries ≡ map (entry_of sha256) s.files

pub copy_content-le :
    (limits : Limits) (size : ℕ) (chunks : List (List ℕ)) (written : List ℕ)
    → length written ≤ limits.max_file_bytes
    → Ensures (λ w. length w ≤ limits.max_file_bytes) (copy_content limits size chunks written)
unfolding copy_content
copy_content-le limits size [] written h = h
copy_content-le limits size (chunk ∷ chunks) written h =
    elim (Bool-cases (
      ltb size (length (written ++ chunk))
      || ltb limits.max_file_bytes (length (written ++ chunk)))) [
        | inl long ↦ rw long tt
        | inr fits ↦ rw fits (copy_content-le limits size chunks (written ++ chunk) (ground arith))
      ]

pub any-cons :
    (p : String) (q : String) (xs : List String)
    → any (str_eq p) xs ≡ true
    → any (str_eq p) (q ∷ xs) ≡ true
any-cons p q xs h = ground arith

pub any_self : (p : String) (xs : List String) → any (str_eq p) (p ∷ xs) ≡ true
any_self p xs = rw ((str_eq_iff p p).1 refl)
