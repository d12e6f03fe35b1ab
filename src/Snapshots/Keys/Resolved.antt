-- ===== src/Snapshots/Keys/Resolved.antt =====
-- The keys that lie below the storage root, and where they lead.
use showcase_host.Prelude.{
  String, false, not, ◌||◌, some, List, [], ◌∷◌, ◌++◌, ◌≡◌, refl, sym, ap, ◌∙◌, inl, inr, All,
  Bool-cases, append-nil, filter, str_eq, str_eq_iff, str_append, append_assoc, ◌==◌, arith,
}
use Prim.Native.Char.{code}
use showcase_host.Snapshots.{ok, Limits, has_char, split_slash, is_absolute, pure_parts, join_path}
use showcase_host.Snapshots.Paths.{IsSafePart}
use showcase_host.Snapshots.Keys.{resolve_parts, parts_below, resolve_key}

-- A path that is joined from names splits into these.
split_slash-name : (name : String) → has_char b'/' name ≡ false → split_slash name ≡ (name, [])
split_slash-name String.[] h = refl
split_slash-name (String.◌∷◌ c s) h = elim (Bool-cases (code c == b'/')) [
  | inl slash ↦ absurd (ground (arith, slash))
  | inr other ↦ rw (split_slash-name s (ground arith), other) refl
]

split_slash-append :
    (name rest : String)
    → has_char b'/' name ≡ false
    → split_slash (str_append name (str_append "/" rest))
      ≡ (name, (split_slash rest).0 ∷ (split_slash rest).1)
split_slash-append String.[] rest h = refl
split_slash-append (String.◌∷◌ c s) rest h = elim (Bool-cases (code c == b'/')) [
  | inl slash ↦ absurd (ground (arith, slash))
  | inr other ↦ rw (split_slash-append s rest (ground arith), other) refl
]

split_slash-join_path :
    (p : String) (ps : List String)
    → All IsSafePart (p ∷ ps)
    → split_slash (join_path (p ∷ ps)) ≡ (p, ps)
split_slash-join_path p [] h = split_slash-name p h.0.no_slash
split_slash-join_path p (q ∷ ps) h =
    split_slash-append p (join_path (q ∷ ps)) h.0.no_slash
    ∙ ap (λ (x : String × List String). (p, x.0 ∷ x.1)) (split_slash-join_path q ps h.1)

filter_names :
    (ps : List String) → All IsSafePart ps → filter (λ p. not (str_eq p "" || str_eq p ".")) ps ≡ ps
filter_names [] h = refl
filter_names (p ∷ ps) h = rw (h.0.not_empty, h.0.not_here) (ap (λ l. p ∷ l) (filter_names ps h.1))

pure_parts-join_path :
    (p : String) (ps : List String)
    → All IsSafePart (p ∷ ps)
    → pure_parts (join_path (p ∷ ps)) ≡ p ∷ ps
unfolding pure_parts
pure_parts-join_path p ps h = rw (split_slash-join_path p ps h) (filter_names (p ∷ ps) h)

resolve_parts-names :
    (path parts : List String) → All IsSafePart parts → resolve_parts path parts ≡ path ++ parts
resolve_parts-names path [] h = sym (append-nil path)
resolve_parts-names path (p ∷ parts) h =
    rw h.0.not_parent
      (resolve_parts-names (path ++ p ∷ []) parts h.1 ∙ append_assoc path (p ∷ []) parts)

parts_below-append :
    (root : List String) (p : String) (ps : List String)
    → parts_below root (root ++ p ∷ ps) ≡ some (p ∷ ps)
parts_below-append [] p ps = refl
parts_below-append (r ∷ root) p ps = rw ((str_eq_iff r r).1 refl) (parts_below-append root p ps)

-- A key of single names is that of its own path below the root.
pub resolve_key-names :
    (limits : Limits) (p : String) (ps : List String)
    → is_absolute (join_path (p ∷ ps)) ≡ false
    → All IsSafePart (p ∷ ps)
    → resolve_key limits (join_path (p ∷ ps)) ≡ ok (join_path (p ∷ ps))
unfolding resolve_key
resolve_key-names limits p ps relative h =
    rw
      (
        relative,
        pure_parts-join_path p ps h,
        resolve_parts-names limits.snapshot_root (p ∷ ps) h,
        parts_below-append limits.snapshot_root p ps,
      )
      refl
