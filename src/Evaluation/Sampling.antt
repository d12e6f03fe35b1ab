-- ===== src/Evaluation/Sampling.antt =====
-- The balanced samples of app/evaluation/datasets.py. The shuffles of `random.Random(seed)` are parameters,
-- which a property takes as permutations.
pub mod Targets
pub mod Sample
pub mod Rounds
use showcase_host.Prelude.{
  ℕ, zero, suc, ◌+◌, ◌-◌, ◌*◌, ◌/◌, ◌%◌, min, max, String, Bool, true, false, not, ◌||◌, ◌&&◌,
  Option, none, some, List, [], ◌∷◌, ◌++◌, map, ltb, leb, ◌==◌, if◌then◌else◌, or_else, any, filter,
  length, take, str_eq,
}
use showcase_host.Prelude.Results.{Result, ok, err, ◌>>=◌}

-- `DatasetLoadError`, by its message.
pub data LoadError : Type 0 where
  unbalanced_partition unbalanced_sample partial_response truncated_cells unavailable : LoadError

abbrev pub is_one_of : List String → String → Bool
is_one_of names name = any (str_eq name) names

-- The target of a group, where `order` is the shuffled order.
unfoldable pub target_of : ℕ → List String → String → ℕ
target_of count order group =
    count / length order + (if is_one_of (take (count % length order) order) group then 1 else 0)

-- `balanced_targets`; there is a group.
unfoldable pub balanced_targets : ℕ → List String → List String → List (String × ℕ)
unfolding target_of
balanced_targets count order groups = map (λ g. (g, target_of count order g)) groups

module _ {R : Type 0} where
  -- `grouped[group].append(row)` if the group is a key.
  abbrev pub add_row : String → R → List (String × List R) → List (String × List R)
  add_row group row [] = []
  add_row group row ((key, rows) ∷ grouped) =
      if str_eq key group
      then (key, rows ++ row ∷ []) ∷ grouped
      else (key, rows) ∷ add_row group row grouped

  abbrev pub group_rows : (R → String) → List R → List (String × List R) → List (String × List R)
  group_rows group_for [] grouped = grouped
  group_rows group_for (row ∷ rows) grouped =
      group_rows group_for rows (add_row (group_for row) row grouped)

  abbrev pub no_rows : List String → List (String × List R)
  no_rows groups = map (λ g. (g, [])) groups

  -- `grouped[group]`.
  abbrev pub rows_of : String → List (String × List R) → List R
  rows_of group [] = []
  rows_of group ((key, rows) ∷ grouped) = if str_eq key group then rows else rows_of group grouped

  abbrev pub pop_from : R → List R → List R × R
  pop_from row [] = ([], row)
  pop_from row (next ∷ rows) = let (left, last) = pop_from next rows in (row ∷ left, last)

  -- `rows.pop()`: what is left, and the last row.
  abbrev pub pop : List R → Option (List R × R)
  pop [] = none
  pop (row ∷ rows) = some (pop_from row rows)

  abbrev pop_next : List R → List (List R) × List R → Option (List R × R) → List (List R) × List R
  pop_next rows (lefts, popped) none = (rows ∷ lefts, popped)
  pop_next rows (lefts, popped) (some (left, last)) = (left ∷ lefts, last ∷ popped)

  -- The `for` loop, over the selected rows of the groups in the shuffled order.
  abbrev pub pop_round : List (List R) → List (List R) × List R
  pop_round [] = ([], [])
  pop_round (rows ∷ selected) = pop_next rows (pop_round selected) (pop rows)

  -- The `while` loop, which is given `fuel` rounds.
  unfoldable pub interleave : ℕ → ℕ → List (List R) → List R → Option (List R)
  interleave zero count selected result = if ltb (length result) count then none else some result
  interleave (suc fuel) count selected result =
      let (lefts, popped) = pop_round selected in
      let rest = interleave fuel count lefts (result ++ popped) in
      if ltb (length result) count then rest else some result

  -- `any(len(grouped[group]) < target for ...)`.
  abbrev pub lacks_rows : List (String × List R) → List (String × ℕ) → Bool
  lacks_rows grouped targets = any (λ (g, n). ltb (length (rows_of g grouped)) n) targets

  -- `balanced_random_sample`. Each group's rows have a shuffle of their own; as many rounds as rows
  -- are enough.
  unfoldable pub balanced_random_sample :
      (R → String)
      → List String
      → List String
      → (String → List R → List R)
      → ℕ
      → List R
      → Result LoadError (Option (List R))
  unfolding balanced_targets interleave
  balanced_random_sample group_for groups order shuffle count rows =
      let grouped = group_rows group_for rows (no_rows groups) in
      if lacks_rows grouped (balanced_targets count order groups)
      then err unbalanced_partition
      else ok (
          interleave count count
            (map (λ g. take (target_of count order g) (shuffle g (rows_of g grouped))) order) [])
