-- ===== src/Snapshots/Steps.antt =====
-- Each step of the extraction keeps the invariant.
use showcase_host.Prelude.{
  ℕ, ◌+◌, ◌≤◌, String, ◌≡◌, refl, ap, subst, Bool, true, false, ◌||◌, inl, inr, Option, none, some,
  List, [], ◌∷◌, ◌++◌, arith, ltb, ◌==◌, or_else, any, length, length-append, length-map,
  sum_by-append, All, All-append, All-imp, str_eq, Bool-cases,
}
use mathlib.Core.List.{map-append}
use showcase_host.Snapshots.{
  Member, MemberKind, directory, symlink, hardlink, regular, special, Limits, Extraction, start,
  has_char, is_absolute, pure_parts, join_path, clashes, entry_of, store_file, extract_file,
  extract_kind, extract_parts, extract_member, extract_members,
}
use showcase_host.Snapshots.Paths.{IsSafePart, pure_parts-IsSafePart}
use showcase_host.Snapshots.Workspace.{
  Ensures, Ensures-bind, File, HasPaths-append, IsExtracted, copy_content-le, any-cons, any_self,
}

module _ (sha256 : List ℕ → String) (limits : Limits) where
  -- The state after one more file.
  abbrev added : List String → List ℕ → ℕ → Extraction → Extraction
  added relative written size s = record s {
    seen = join_path relative ∷ s.seen;
    entries = s.entries ++ entry_of sha256 (relative, written) ∷ [];
    files = s.files ++ (relative, written) ∷ [];
    total_bytes = s.total_bytes + size;
  }

  added-IsExtracted :
      (relative : List String) (written : List ℕ) (size : ℕ) (s : Extraction)
      → IsExtracted sha256 limits s
      → All IsSafePart relative
      → any (str_eq (join_path relative)) s.seen ≡ false
      → length s.entries + 1 ≤ limits.max_files
      → s.total_bytes + size ≤ limits.max_extracted_bytes
      → length written ≡ size
      → length written ≤ limits.max_file_bytes
      → IsExtracted sha256 limits (added relative written size s)
  added-IsExtracted relative written size s h safe new room budget whole fits = record {
    few = omega (
      arith,
      length-append s.files ((relative, written) ∷ []),
      ap length h.listed,
      length-map (entry_of sha256) s.files,
    );
    small = All-append _ s.files ((relative, written) ∷ []) h.small (fits, tt);
    counted = omega (
      arith,
      h.counted,
      sum_by-append (λ (f : File). length f.1) s.files ((relative, written) ∷ []),
    );
    bounded = budget;
    safe = All-append _ s.files ((relative, written) ∷ []) h.safe (safe, tt);
    paths =
        HasPaths-append s.files (relative, written) h.paths
          (All-imp _ _
            (λ g seen same. cc (subst (λ p. any (str_eq p) s.seen ≡ true) same seen, new)) s.files
            h.known);
    known =
        All-append _ s.files ((relative, written) ∷ [])
          (All-imp _ _ (λ g seen. any-cons (join_path g.0) (join_path relative) s.seen seen) s.files
            h.known)
          (any_self (join_path relative) s.seen, tt);
    listed = rw (h.listed, map-append);
  }

  store_file-IsExtracted :
      (member : Member) (relative : List String) (s : Extraction) (content : Option (List (List ℕ)))
      → IsExtracted sha256 limits s
      → All IsSafePart relative
      → any (str_eq (join_path relative)) s.seen ≡ false
      → length s.entries + 1 ≤ limits.max_files
      → s.total_bytes + member.size ≤ limits.max_extracted_bytes
      → Ensures (IsExtracted sha256 limits) (
          store_file sha256 limits member relative
            (record s { total_bytes = s.total_bytes + member.size })
            content)
  unfolding store_file
  store_file-IsExtracted member relative s none h safe new room budget = tt
  store_file-IsExtracted member relative s (some chunks) h safe new room budget =
      elim (Bool-cases (any (clashes relative) s.files)) [
        | inl clash ↦ rw clash tt
        | inr free ↦ rw free (
            Ensures-bind (λ w. length w ≤ limits.max_file_bytes) (IsExtracted sha256 limits) _ _
              (copy_content-le limits member.size chunks [] (omega arith))
              (λ written fits. elim (Bool-cases (length written == member.size)) [
                | inl whole ↦ rw whole (
                    added-IsExtracted relative written member.size s h safe new room budget
                      (ground arith) fits)
                | inr short ↦ rw short tt
              ]))
      ]

  extract_file-IsExtracted :
      (member : Member) (relative : List String) (s : Extraction)
      → IsExtracted sha256 limits s
      → All IsSafePart relative
      → Ensures (IsExtracted sha256 limits) (extract_file sha256 limits member relative s)
  unfolding extract_file
  extract_file-IsExtracted member relative s h safe =
      elim (Bool-cases (any (str_eq (join_path relative)) s.seen)) [
        | inl dup ↦ rw dup tt
        | inr new ↦ rw new (elim (Bool-cases (ltb limits.max_file_bytes member.size)) [
          | inl large ↦ rw large tt
          | inr small ↦ rw small (elim (Bool-cases (ltb limits.max_files (length s.entries + 1))) [
            | inl many ↦ rw many tt
            | inr few ↦
                rw few
                  (elim (Bool-cases
                    (ltb limits.max_extracted_bytes (s.total_bytes + member.size))) [
                      | inl much ↦ rw much tt
                      | inr budget ↦ rw budget (
                          store_file-IsExtracted member relative s member.content h safe new
                            (ground arith) (ground arith))
                    ])
          ])
        ])
      ]

  extract_kind-IsExtracted :
      (kind : MemberKind) (member : Member) (relative : List String) (s : Extraction)
      → IsExtracted sha256 limits s
      → All IsSafePart relative
      → Ensures (IsExtracted sha256 limits) (extract_kind sha256 kind limits member relative s)
  unfolding extract_kind
  extract_kind-IsExtracted directory member relative s h safe = h
  extract_kind-IsExtracted symlink member relative s h safe = h
  extract_kind-IsExtracted hardlink member relative s h safe = h
  extract_kind-IsExtracted regular member relative s h safe =
      extract_file-IsExtracted member relative s h safe
  extract_kind-IsExtracted special member relative s h safe = tt

  rooted-IsExtracted :
      (root : Option String) (s : Extraction)
      → IsExtracted sha256 limits s
      → IsExtracted sha256 limits (record s { root_component = root })
  rooted-IsExtracted root s h = record {
    few = h.few;
    small = h.small;
    counted = h.counted;
    bounded = h.bounded;
    safe = h.safe;
    paths = h.paths;
    known = h.known;
    listed = h.listed;
  }

  extract_parts-IsExtracted :
      (member : Member) (parts : List String) (s : Extraction)
      → IsExtracted sha256 limits s
      → All IsSafePart parts
      → Ensures (IsExtracted sha256 limits) (extract_parts sha256 limits member parts s)
  unfolding extract_parts
  extract_parts-IsExtracted member [] s h safe = h
  extract_parts-IsExtracted member (root ∷ []) s h safe =
      elim (Bool-cases (str_eq root (or_else s.root_component root))) [
        | inl same ↦ rw same (rooted-IsExtracted _ s h)
        | inr other ↦ rw other tt
      ]
  extract_parts-IsExtracted member (root ∷ p ∷ relative) s h safe =
      elim (Bool-cases (str_eq root (or_else s.root_component root))) [
        | inl same ↦ rw same (
            extract_kind-IsExtracted member.kind member (p ∷ relative) _ (rooted-IsExtracted _ s h)
              safe.1)
        | inr other ↦ rw other tt
      ]

  extract_member-IsExtracted :
      (member : Member) (s : Extraction)
      → IsExtracted sha256 limits s
      → Ensures (IsExtracted sha256 limits) (extract_member sha256 limits member s)
  unfolding extract_member
  extract_member-IsExtracted member s h = elim (Bool-cases is_unsafe) [
    | inl bad ↦ rw bad tt
    | inr good ↦
        let up : any (str_eq "..") (pure_parts member.name) ≡ false = ground arith in
        let back : has_char b'\\' member.name ≡ false = ground arith in
        rw good (
          extract_parts-IsExtracted member (pure_parts member.name) s h
            (pure_parts-IsSafePart member.name up back))
  ]
    where
      is_unsafe : Bool
      is_unsafe =
          is_absolute member.name
          || any (str_eq "..") (pure_parts member.name)
          || has_char b'\\' member.name

  pub extract_members-IsExtracted :
      (members : List Member) (s : Extraction)
      → IsExtracted sha256 limits s
      → Ensures (IsExtracted sha256 limits) (extract_members sha256 limits members s)
  unfolding extract_members
  extract_members-IsExtracted [] s h = h
  extract_members-IsExtracted (member ∷ members) s h =
      Ensures-bind (IsExtracted sha256 limits) (IsExtracted sha256 limits)
        (extract_member sha256 limits member s) (extract_members sha256 limits members)
        (extract_member-IsExtracted member s h) (extract_members-IsExtracted members)

  pub start-IsExtracted : IsExtracted sha256 limits start
  start-IsExtracted = record {
    few = omega arith;
    small = tt;
    counted = refl;
    bounded = omega arith;
    safe = tt;
    paths = tt;
    known = tt;
    listed = refl;
  }
