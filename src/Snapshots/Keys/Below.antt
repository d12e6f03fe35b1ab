-- ===== src/Snapshots/Keys/Below.antt =====
-- A key that is accepted stays below the storage root.
use showcase_host.Prelude.{
  ap, ◌⊎◌, sym, subst, str_eq_iff, String, Bool, true, false, not, ◌||◌, List, [], ◌∷◌, ◌≡◌, refl,
  inl, inr, All, All-filter, All-append, Bool-cases, if◌then◌else◌, str_eq, ◌==◌, arith, ◌++◌,
}
use Prim.Native.Char.{code}
use showcase_host.Snapshots.{ok, Limits, has_char, split_slash, is_absolute, pure_parts, join_path}
use showcase_host.Snapshots.Keys.{drop_last, enter, resolve_parts, parts_below, named, resolve_key}

-- The name of an entry of a directory, and not its parent.
abbrev IsName : String → Type 0
IsName p = (str_eq ".." p ≡ false) × (has_char b'/' p ≡ false)

abbrev HasNoSlash : String → Type 0
HasNoSlash p = has_char b'/' p ≡ false

split_slash-HasNoSlash :
    (key : String) → HasNoSlash (split_slash key).0 × All HasNoSlash (split_slash key).1
split_slash-HasNoSlash String.[] = (refl, tt)
split_slash-HasNoSlash (String.◌∷◌ c s) =
    let (first, others) = split_slash-HasNoSlash s in
    elim (Bool-cases (code c == b'/')) [
      | inl slash ↦ rw slash (refl, (first, others))
      | inr other ↦ rw other (ground (arith, first), others)
    ]

pure_parts-HasNoSlash : (key : String) → All HasNoSlash (pure_parts key)
unfolding pure_parts
pure_parts-HasNoSlash key =
    All-filter HasNoSlash (λ p. not (str_eq p "" || str_eq p "."))
      ((split_slash key).0 ∷ (split_slash key).1) (split_slash-HasNoSlash key)

drop_last-IsName : (path : List String) → All IsName path → All IsName (drop_last path)
drop_last-IsName [] h = tt
drop_last-IsName (p ∷ []) h = tt
drop_last-IsName (p ∷ q ∷ ps) h = (h.0, drop_last-IsName (q ∷ ps) h.1)

enter-IsName :
    (path : List String) (part : String)
    → All IsName path
    → HasNoSlash part
    → All IsName (enter path part)
enter-IsName path part h plain = elim (Bool-cases (str_eq ".." part)) [
  | inl up ↦ rw up (drop_last-IsName path h)
  | inr down ↦ rw down (All-append IsName path (part ∷ []) h ((down, plain), tt))
]

resolve_parts-IsName :
    (path parts : List String)
    → All IsName path
    → All HasNoSlash parts
    → All IsName (resolve_parts path parts)
resolve_parts-IsName path [] h plain = h
resolve_parts-IsName path (part ∷ parts) h plain =
    resolve_parts-IsName (enter path part) parts (enter-IsName path part h plain.0) plain.1

-- A walk along the parts of a key, from a directory to a path: a name leads into an entry, ".." to the
-- parent, and "/" is its own parent.
pub data Walks : List String → List String → List String → Type 0 where
  arrives : {path : List String} → Walks path [] path
  goes_in :
      {path parts end : List String} {name : String}
      → IsName name
      → Walks (path ++ name ∷ []) parts end
      → Walks path (name ∷ parts) end
  goes_up :
      {path parts end : List String} {up : String} (parent : List String) (name : String)
      → path ≡ parent ++ name ∷ []
      → up ≡ ".."
      → Walks parent parts end
      → Walks path (up ∷ parts) end
  stays :
      {path parts end : List String} {up : String}
      → path ≡ []
      → up ≡ ".."
      → Walks [] parts end
      → Walks path (up ∷ parts) end

drop_last-eq :
    (path : List String) → (path ≡ []) ⊎ ((name : String) × (path ≡ drop_last path ++ name ∷ []))
drop_last-eq [] = inl refl
drop_last-eq (p ∷ []) = inr (p, refl)
drop_last-eq (p ∷ q ∷ ps) = elim (drop_last-eq (q ∷ ps)) [
  | inl e ↦ absurd (cc e)
  | inr (name, e) ↦ inr (name, ap (λ l. p ∷ l) e)
]

goes_up-drop :
    (path parts end : List String) (up : String)
    → up ≡ ".."
    → Walks (drop_last path) parts end
    → Walks path (up ∷ parts) end
goes_up-drop path parts end up same walk = elim (drop_last-eq path) [
  | inl top ↦ stays top same (subst (λ p. Walks (drop_last p) parts end) top walk)
  | inr (name, e) ↦ goes_up (drop_last path) name e same walk
]

resolve_parts-Walks :
    (path parts : List String) → All HasNoSlash parts → Walks path parts (resolve_parts path parts)
resolve_parts-Walks path [] h = arrives
resolve_parts-Walks path (part ∷ parts) h = elim (Bool-cases (str_eq ".." part)) [
  | inl up ↦ rw up (
      goes_up-drop path parts (resolve_parts (drop_last path) parts) part
        (sym ((str_eq_iff ".." part).0 up)) (resolve_parts-Walks (drop_last path) parts h.1))
  | inr down ↦ rw down (goes_in (down, h.0) (resolve_parts-Walks (path ++ part ∷ []) parts h.1))
]

-- The text is of the one or more names that follow the root on the path to which the key leads from the root,
-- or from "/" if it is absolute.
pub record IsBelow (root : List String) (key path : String) : Type 0 where
  pub first : String
  pub others : List String
  pub leads : Walks (if is_absolute key then [] else root) (pure_parts key) (root ++ first ∷ others)
  pub parts : path ≡ join_path (first ∷ others)
  pub names : All IsName (first ∷ others)

-- What `parts_below` has returned: the end of a path that starts with the root.
abbrev IsRest : List String → List String → String → Type 0
IsRest root path text =
    (first : String) × (others : List String) × (path ≡ root ++ first ∷ others)
    × (text ≡ join_path (first ∷ others))
    × All IsName (first ∷ others)

parts_below-IsRest :
    (root path : List String) (text : String)
    → All IsName path
    → named (parts_below root path) ≡ ok text
    → IsRest root path text
parts_below-IsRest [] [] text h e = absurd (cc e)
parts_below-IsRest [] (q ∷ qs) text h e = (q, qs, refl, cc e, h)
parts_below-IsRest (p ∷ ps) [] text h e = absurd (cc e)
parts_below-IsRest (p ∷ ps) (q ∷ qs) text h e = elim (Bool-cases (str_eq p q)) [
  | inl same ↦
      let (first, others, ends, joined, names) = parts_below-IsRest ps qs text h.1 (rw same at e) in
      (first, others, cc ((str_eq_iff p q).0 same, ends), joined, names)
  | inr other ↦ absurd (cc (rw other at e))
]

-- If the storage root is a path of names, and a key is accepted, whatever its text, then the key leads from
-- the root, or from "/" if it is absolute, to one or more names below the root, and the result is these names.
pub resolve_key-IsBelow :
    (limits : Limits) (key path : String)
    → All IsName limits.snapshot_root
    → resolve_key limits key ≡ ok path
    → IsBelow limits.snapshot_root key path
unfolding resolve_key
resolve_key-IsBelow limits key path root e =
    let plain = pure_parts-HasNoSlash key in
    let (first, others, ends, joined, names) =
      parts_below-IsRest limits.snapshot_root _ path
        (resolve_parts-IsName _ (pure_parts key) (from_names (is_absolute key)) plain) e in
    record {
      first = first;
      others = others;
      leads = subst (Walks _ (pure_parts key)) ends (resolve_parts-Walks _ (pure_parts key) plain);
      parts = joined;
      names = names;
    }
  where
    from_names : (b : Bool) → All IsName (if b then [] else limits.snapshot_root)
    from_names true = tt
    from_names false = root
