-- ===== src/Evaluation/Runs/Errors.antt =====
-- `exception_leaves` and `evaluation_error` of app/evaluation/service.py.
use showcase_host.Prelude.{
  ℕ, max, String, Option, none, some, List, [], ◌∷◌, ◌++◌, map, if◌then◌else◌, str_eq, concat,
  str_take,
}

mutual
  -- An exception with its class and message, and its `__cause__`, or a group of exceptions.
  pub data Exc : Type 0 where
    exception : String → String → Option (String × String) → Option ℕ → Exc
    group : ExcList → Exc

  pub data ExcList : Type 0 where
    no_more : ExcList
    and_then : Exc → ExcList → ExcList

-- `max(..., default=0)`.
abbrev pub max_of : List ℕ → ℕ
max_of [] = 0
max_of (n ∷ ns) = max n (max_of ns)

-- A leaf: the class, the message, the cause and `retry_after`.
pub record Leaf : Type 0 where
  pub class_name : String
  pub message : String
  pub cause : Option (String × String)
  pub retry_after : Option ℕ

unfoldable mutual
  pub exception_leaves : Exc → List Leaf
  exception_leaves (exception class_name message cause retry_after) =
      record {
        class_name = class_name;
        message = message;
        cause = cause;
        retry_after = retry_after;
      }
      ∷ []
  exception_leaves (group children) = leaves_of children

  leaves_of : ExcList → List Leaf
  leaves_of no_more = []
  leaves_of (and_then e rest) = exception_leaves e ++ leaves_of rest

-- `str(leaf) or 'no details'`.
abbrev details_of : String → String
details_of message = if str_eq message "" then "no details" else message

abbrev cause_text : Option (String × String) → String
cause_text none = ""
cause_text (some (class_name, message)) =
    concat (" (caused by " ∷ class_name ∷ ": " ∷ details_of message ∷ ")" ∷ [])

abbrev leaf_text : Leaf → String
leaf_text leaf =
    concat (leaf.class_name ∷ ": " ∷ details_of leaf.message ∷ cause_text leaf.cause ∷ [])

-- `separator.join(parts)`.
abbrev join_with : String → List String → String
join_with separator [] = ""
join_with separator (part ∷ []) = part
join_with separator (part ∷ next ∷ parts) =
    concat (part ∷ separator ∷ join_with separator (next ∷ parts) ∷ [])

unfoldable pub evaluation_error : Exc → String
unfolding exception_leaves
evaluation_error exc = str_take 4000 (join_with "; " (map leaf_text (exception_leaves exc)))
