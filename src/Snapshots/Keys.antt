-- ===== src/Snapshots/Keys.antt =====
-- The keys of stored files: `_resolve_key` of app/integrations/snapshots/local.py. A path is the list of its
-- parts from "/" on. `resolve` follows symbolic links, of which the storage has none.
pub mod Resolved
pub mod Below
pub mod Plain
use showcase_host.Prelude.{
  String, Bool, Option, none, some, List, [], ◌∷◌, ◌++◌, if◌then◌else◌, str_eq,
}
use showcase_host.Snapshots.{
  Result, ok, err, Limits, invalid_snapshot_key, is_absolute, pure_parts, join_path,
}

abbrev drop_last : List String → List String
drop_last [] = []
drop_last (p ∷ []) = []
drop_last (p ∷ q ∷ ps) = p ∷ drop_last (q ∷ ps)

abbrev enter : List String → String → List String
enter path part = if str_eq ".." part then drop_last path else path ++ part ∷ []

abbrev pub resolve_parts : List String → List String → List String
resolve_parts path [] = path
resolve_parts path (part ∷ parts) = resolve_parts (enter path part) parts

-- The parts below a directory, if the path lies below it: `root in path.parents`.
abbrev pub parts_below : List String → List String → Option (List String)
parts_below [] [] = none
parts_below [] (q ∷ qs) = some (q ∷ qs)
parts_below (p ∷ ps) [] = none
parts_below (p ∷ ps) (q ∷ qs) = if str_eq p q then parts_below ps qs else none

abbrev pub named : Option (List String) → Result String
named none = err invalid_snapshot_key
named (some parts) = ok (join_path parts)

-- The path that a key has below the root, as a text. An absolute key takes the place of the root.
unfoldable pub resolve_key : Limits → String → Result String
resolve_key limits key =
    let from = if is_absolute key then [] else limits.snapshot_root in
    named (parts_below limits.snapshot_root (resolve_parts from (pure_parts key)))
