-- ===== src/Evaluation/Sampling/Sample.antt =====
-- A balanced sample has as many rows of each group as its target says.
use showcase_host.Prelude.{
  In-All, ℕ, zero, suc, ◌<◌, ◌≤◌, String, Bool, true, false, not, Option, some, List, [], ◌∷◌, ◌≡◌,
  refl, sym, ap, subst, ◌∙◌, length, take, map, All, All-imp, All-take, All-In, In, sum_by, str_eq,
  str_eq_iff, inl, inr, Bool-cases, arith,
}
use showcase_host.Prelude.Results.{ok, ok_eq}
use showcase_host.Evaluation.Sampling.{
  target_of, balanced_targets, group_rows, no_rows, rows_of, lacks_rows, balanced_random_sample,
  interleave,
}
use showcase_host.Evaluation.Sampling.Rounds.{
  IsInterleaved, interleave-IsInterleaved, size, sum_by-one,
}
use showcase_host.Evaluation.Sampling.Targets.{
  AreDistinct, one_if, target_of-total, IsShuffle, group_rows-AreGrouped, no_rows-AreGrouped,
  rows_of-All, count_of,
}

module _ {R : Type 0} where
  -- A property of rows as a measure.
  All-sum :
      (p : R → Bool) (rows : List R)
      → All (λ r. p r ≡ true) rows
      → sum_by (λ r. one_if (not (p r))) rows ≡ 0
  All-sum p [] h = refl
  All-sum p (r ∷ rows) h = rw h.0 (omega (arith, All-sum p rows h.1))

  sum-All :
      (p : R → Bool) (rows : List R)
      → sum_by (λ r. one_if (not (p r))) rows ≡ 0
      → All (λ r. p r ≡ true) rows
  sum-All p [] h = tt
  sum-All p (r ∷ rows) h = ground (arith, h, sum-All p rows)

  shuffle-All :
      (shuffle : List R → List R) (p : R → Bool) (rows : List R)
      → IsShuffle shuffle
      → All (λ r. p r ≡ true) rows
      → All (λ r. p r ≡ true) (shuffle rows)
  shuffle-All shuffle p rows s h = sum-All p (shuffle rows) (s _ rows ∙ All-sum p rows h)

  length-take_all : (n : ℕ) (rows : List R) → n ≤ length rows → length (take n rows) ≡ n
  length-take_all zero rows h = refl
  length-take_all (suc n) [] h = absurd (omega (arith, h))
  length-take_all (suc n) (r ∷ rows) h = omega (arith, length-take_all n rows (omega (arith, h)))

  count_of_own :
      (group_for : R → String) (g : String) (rows : List R)
      → All (λ r. str_eq (group_for r) g ≡ true) rows
      → count_of group_for g rows ≡ length rows
  count_of_own group_for g [] h = refl
  count_of_own group_for g (r ∷ rows) h = rw h.0 (omega (arith, count_of_own group_for g rows h.1))

  count_of_other :
      (group_for : R → String) (g h : String) (rows : List R)
      → str_eq h g ≡ false
      → All (λ r. str_eq (group_for r) h ≡ true) rows
      → count_of group_for g rows ≡ 0
  count_of_other group_for g h [] other k = refl
  count_of_other group_for g h (r ∷ rows) other k =
      rw (ap (λ x. str_eq x g) ((str_eq_iff (group_for r) h).0 k.0) ∙ other)
        (omega (arith, count_of_other group_for g h rows other k.1))

enough_rows :
    {R : Type 0} (grouped : List (String × List R)) (targets : List (String × ℕ))
    → lacks_rows grouped targets ≡ false
    → All (λ (t : String × ℕ). t.1 ≤ length (rows_of t.0 grouped)) targets
enough_rows grouped [] h = tt
enough_rows grouped ((g, n) ∷ targets) h = ground (arith, h, enough_rows grouped targets)

All-map_targets :
    (P : String × ℕ → Type 0) (f : String → ℕ) (groups : List String)
    → All P (map (λ g. (g, f g)) groups)
    → All (λ g. P (g, f g)) groups
All-map_targets P f [] h = tt
All-map_targets P f (g ∷ groups) h = (h.0, All-map_targets P f groups h.1)

str_eq_flip : (a b : String) → str_eq a b ≡ false → str_eq b a ≡ false
str_eq_flip a b h = ground (arith, h, str_eq_iff a b, str_eq_iff b a)

sum_at_none :
    {A : Type 0} (f : A → ℕ) (pick : String → A) (g : String) (order : List String)
    → ((h : String) → str_eq h g ≡ false → f (pick h) ≡ 0)
    → All (λ h. str_eq h g ≡ false) order
    → sum_by f (map pick order) ≡ 0
sum_at_none f pick g [] only h = refl
sum_at_none f pick g (x ∷ order) only h =
    omega (arith, only x h.0, sum_at_none f pick g order only h.1)

-- A measure that only one group's rows have, added up over distinct groups.
sum_at :
    {A : Type 0} (f : A → ℕ) (pick : String → A) (g : String) (order : List String)
    → ((h : String) → str_eq h g ≡ false → f (pick h) ≡ 0)
    → AreDistinct order
    → In g order
    → sum_by f (map pick order) ≡ f (pick g)
sum_at f pick g [] only d m = absurd m
sum_at f pick g (h ∷ order) only d (inl here) =
    let rest =
      sum_at_none f pick g order only
        (subst (λ x. All (λ y. str_eq y x ≡ false) order) (sym here) d.0) in
    omega (arith, ap (λ x. f (pick x)) here, rest)
sum_at f pick g (h ∷ order) only d (inr later) =
    let other = only h (str_eq_flip g h (All-In (λ y. str_eq y h ≡ false) g order d.0 later)) in
    omega (arith, other, sum_at f pick g order only d.1 later)

sum_by-map_eq :
    {A : Type 0} (f : A → ℕ) (pick : String → A) (n : String → ℕ) (order : List String)
    → All (λ h. f (pick h) ≡ n h) order
    → sum_by f (map pick order) ≡ sum_by n order
sum_by-map_eq f pick n [] h = refl
sum_by-map_eq f pick n (g ∷ order) h = omega (arith, h.0, sum_by-map_eq f pick n order h.1)

-- As many rows as were asked for, and of each group as many as its target.
pub record IsBalanced {R : Type 0} (group_for : R → String) (order : List String) (count : ℕ)
    (returned : Option (List R)) : Type 0 where
  pub rows : List R
  pub returns : returned ≡ some rows
  size_of_sample : length rows ≡ count
  pub balanced : All (λ g. count_of group_for g rows ≡ target_of count order g) order

-- The order and the shuffles that `random.Random(seed)` gives: the groups, in another order.
module _ {R : Type 0} (group_for : R → String) (groups order : List String)
    (shuffle : String → List R → List R) (distinct : AreDistinct order)
    (some_group : 0 < length order) (same_groups : All (λ g. In g groups) order)
    (shuffles : (g : String) → IsShuffle (shuffle g)) (count : ℕ) (rows : List R) where
  abbrev grouped : List (String × List R)
  grouped = group_rows group_for rows (no_rows groups)

  abbrev selected : String → List R
  selected g = take (target_of count order g) (shuffle g (rows_of g grouped))

  selected-All : (g : String) → All (λ r. str_eq (group_for r) g ≡ true) (selected g)
  selected-All g = All-take _ (target_of count order g) (shuffle g (rows_of g grouped)) (
      shuffle-All (shuffle g) (λ r. str_eq (group_for r) g) (rows_of g grouped) (shuffles g)
        (rows_of-All group_for g grouped (
          group_rows-AreGrouped group_for rows (no_rows groups)
            (no_rows-AreGrouped group_for groups))))

  selected-length :
      lacks_rows grouped (balanced_targets count order groups) ≡ false
      → (g : String) → In g order
      → length (selected g) ≡ target_of count order g
  unfolding balanced_targets
  selected-length enough g m =
      let all =
        All-map_targets (λ (t : String × ℕ). t.1 ≤ length (rows_of t.0 grouped))
          (target_of count order) groups (enough_rows grouped _ enough) in
      let own = All-In _ g groups all (All-In (λ h. In h groups) g order same_groups m) in
      length-take_all (target_of count order g) (shuffle g (rows_of g grouped)) (
        omega (
          arith,
          own,
          shuffles g (λ _. 1) (rows_of g grouped),
          sum_by-one (shuffle g (rows_of g grouped)),
          sum_by-one (rows_of g grouped),
        ))

  module _ (enough : lacks_rows grouped (balanced_targets count order groups) ≡ false) where
    every_length : All (λ g. length (selected g) ≡ target_of count order g) order
    every_length = In-All order (λ g m. selected-length enough g m)

    selected-size : size (map selected order) ≡ count
    selected-size =
        sum_by-map_eq (sum_by (λ _. 1)) selected (target_of count order) order
          (All-imp _ _ (λ g e. sum_by-one (selected g) ∙ e) order every_length)
        ∙ target_of-total count order distinct some_group

    interleaved :
        IsInterleaved (map selected order) [] (interleave count count (map selected order) [])
    interleaved =
        interleave-IsInterleaved count count (map selected order) [] (omega (arith, selected-size))
          (omega (arith, selected-size))

    group_count :
        (g : String)
        → In g order
        → sum_by (count_of group_for g) (map selected order) ≡ target_of count order g
    group_count g m =
        sum_at (count_of group_for g) selected g order
          (λ h other. count_of_other group_for g h (selected h) other (selected-All h)) distinct m
        ∙ count_of_own group_for g (selected g) (selected-All g)
        ∙ selected-length enough g m

    interleaved-IsBalanced :
        IsBalanced group_for order count (interleave count count (map selected order) [])
    interleaved-IsBalanced = record {
      rows = interleaved.rows;
      returns = interleaved.returns;
      size_of_sample =
          omega (arith, sum_by-one interleaved.rows, interleaved.all (λ _. 1), selected-size);
      balanced = In-All order (λ g m.
          omega (arith, interleaved.all (λ r. one_if (str_eq (group_for r) g)), group_count g m));
    }

  -- If the sample is not refused, the loop ends with `count` rows, of which each group has its target.
  pub balanced_random_sample-IsBalanced :
      (result : Option (List R))
      → balanced_random_sample group_for groups order shuffle count rows ≡ ok result
      → IsBalanced group_for order count result
  unfolding balanced_random_sample
  balanced_random_sample-IsBalanced result =
      elim (Bool-cases (lacks_rows grouped (balanced_targets count order groups))) [
        | inl lacking ↦ rw lacking (λ h. absurd (cc h))
        | inr enough ↦ rw enough (λ h.
            subst (IsBalanced group_for order count) (ok_eq h) (interleaved-IsBalanced enough))
      ]
