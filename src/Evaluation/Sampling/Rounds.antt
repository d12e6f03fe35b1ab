-- ===== src/Evaluation/Sampling/Rounds.antt =====
-- The loop that interleaves the groups: it ends, and returns the selected rows.
use showcase_host.Prelude.{
  ℕ, zero, suc, ◌+◌, ◌<◌, ◌≤◌, false, Option, some, List, [], ◌∷◌, ◌++◌, ◌≡◌, refl, ltb, length,
  sum_by, sum_by-append, length-append, inl, inr, Bool-cases, arith,
}
use showcase_host.Evaluation.Sampling.{pop_from, pop_round, interleave}

module _ {R : Type 0} (f : R → ℕ) where
  pop_from-sum :
      (row : R) (rows : List R)
      → sum_by f (row ∷ rows) ≡ sum_by f (pop_from row rows).0 + f (pop_from row rows).1
  pop_from-sum row [] = omega arith
  pop_from-sum row (next ∷ rows) = omega (arith, pop_from-sum next rows)

  -- What a round takes away, for any measure of the rows.
  pop_round-sum :
      (selected : List (List R))
      → sum_by (sum_by f) selected
        ≡ sum_by (sum_by f) (pop_round selected).0 + sum_by f (pop_round selected).1
  pop_round-sum [] = omega arith
  pop_round-sum ([] ∷ selected) = omega (arith, pop_round-sum selected)
  pop_round-sum ((row ∷ rows) ∷ selected) =
      omega (arith, pop_from-sum row rows, pop_round-sum selected)

-- How many rows there are.
abbrev pub size : {R : Type 0} → List (List R) → ℕ
size selected = sum_by (sum_by (λ _. 1)) selected

pub sum_by-one : {R : Type 0} (rows : List R) → sum_by (λ _. 1) rows ≡ length rows
sum_by-one [] = refl
sum_by-one (row ∷ rows) = omega (arith, sum_by-one rows)

-- While there are rows, a round takes one.
pop_round-progress :
    {R : Type 0} (selected : List (List R)) → 0 < size selected → 0 < length (pop_round selected).1
pop_round-progress [] h = absurd (omega (arith, h))
pop_round-progress ([] ∷ selected) h = pop_round-progress selected (omega (arith, h))
pop_round-progress ((row ∷ rows) ∷ selected) h = omega arith

-- The result of the loop: all rows, by any measure.
pub record IsInterleaved {R : Type 0} (selected : List (List R)) (result : List R)
    (returned : Option (List R)) : Type 0 where
  pub rows : List R
  pub returns : returned ≡ some rows
  pub all : (f : R → ℕ) → sum_by f rows ≡ sum_by f result + sum_by (sum_by f) selected

no_rows_left :
    {R : Type 0} (f : R → ℕ) (selected : List (List R))
    → size selected ≡ 0
    → sum_by (sum_by f) selected ≡ 0
no_rows_left f [] h = refl
no_rows_left f ([] ∷ selected) h = omega (arith, no_rows_left f selected (omega (arith, h)))
no_rows_left f ((row ∷ rows) ∷ selected) h = absurd (omega (arith, h))

all_there : (a b : ℕ) → a ≡ b → ltb a b ≡ false
all_there a b h = ground (arith, h)

ended :
    {R : Type 0} (result : List R) (selected : List (List R))
    → size selected ≡ 0
    → IsInterleaved selected result (some result)
ended result selected h = record {
  rows = result;
  returns = refl;
  all = λ f. omega (arith, no_rows_left f selected h);
}

after_round :
    {R : Type 0} (selected : List (List R)) (result : List R) (returned : Option (List R))
    → IsInterleaved (pop_round selected).0 (result ++ (pop_round selected).1) returned
    → IsInterleaved selected result returned
after_round selected result returned h = record {
  rows = h.rows;
  returns = h.returns;
  all = λ f.
      omega
        (arith, h.all f, pop_round-sum f selected, sum_by-append f result (pop_round selected).1);
}

-- If the missing rows are just those selected, the loop ends, and as many rounds suffice.
pub interleave-IsInterleaved :
    {R : Type 0} (fuel count : ℕ) (selected : List (List R)) (result : List R)
    → length result + size selected ≡ count
    → size selected ≤ fuel
    → IsInterleaved selected result (interleave fuel count selected result)
unfolding interleave
interleave-IsInterleaved zero count selected result total enough =
    rw (all_there (length result) count (omega (arith, total, enough)))
      (ended result selected (omega (arith, enough)))
interleave-IsInterleaved (suc fuel) count selected result total enough =
    elim (Bool-cases (ltb (length result) count)) [
      | inr done ↦ rw done (ended result selected (ground (arith, done, total)))
      | inl more ↦ rw more (
          after_round selected result _ (
            interleave-IsInterleaved fuel count (pop_round selected).0
              (result ++ (pop_round selected).1)
              (omega (
                arith,
                total,
                pop_round-sum (λ _. 1) selected,
                sum_by-one (pop_round selected).1,
                length-append result (pop_round selected).1,
              ))
              (omega (
                arith,
                enough,
                pop_round-sum (λ _. 1) selected,
                sum_by-one (pop_round selected).1,
                pop_round-progress selected (ground (arith, more, total)),
              ))))
    ]
