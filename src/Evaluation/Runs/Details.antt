-- ===== src/Evaluation/Runs/Details.antt =====
-- The details of the examples of a run in app/evaluation/service.py, by index.
use showcase_host.Prelude.{
  ℕ, suc, zero, String, Bool, true, false, Option, none, some, List, [], ◌∷◌, is_some,
}

pub data ExampleStatus : Type 0 where
  succeeded retrying failed : ExampleStatus

-- What is kept of an example. `scores` are the key of the same name, with what else an answer has.
pub record Detail (S : Type 0) : Type 0 where
  pub index : ℕ
  pub status : ExampleStatus
  pub attempts : ℕ
  pub error : Option String
  pub retry_errors : List String
  pub scores : Option S

abbrev pub has_scores : {S : Type 0} → Detail S → Bool
has_scores detail = is_some detail.scores

abbrev pub is_retrying : ExampleStatus → Bool
is_retrying retrying = true
is_retrying succeeded = false
is_retrying failed = false

abbrev pub is_failed : ExampleStatus → Bool
is_failed failed = true
is_failed succeeded = false
is_failed retrying = false

-- `details_by_index` and `completed`.
pub record Progress (S : Type 0) : Type 0 where
  pub details : List (Option (Detail S))
  pub completed : ℕ

-- `items[index]`, with none out of range, and its assignment.
abbrev pub item_at : {A : Type 0} → ℕ → List (Option A) → Option A
item_at n [] = none
item_at zero (x ∷ xs) = x
item_at (suc n) (x ∷ xs) = item_at n xs

abbrev pub set_item : {A : Type 0} → ℕ → A → List (Option A) → List (Option A)
set_item n a [] = []
set_item zero a (x ∷ xs) = some a ∷ xs
set_item (suc n) a (x ∷ xs) = x ∷ set_item n a xs

-- `sum(detail is not None for ...)`.
abbrev pub count_some : {A : Type 0} → List (Option A) → ℕ
count_some [] = 0
count_some (none ∷ xs) = count_some xs
count_some (some a ∷ xs) = suc (count_some xs)

abbrev pub somes : {A : Type 0} → List (Option A) → List A
somes [] = []
somes (none ∷ xs) = somes xs
somes (some a ∷ xs) = a ∷ somes xs
