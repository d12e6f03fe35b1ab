-- ===== src/Evaluation/Sampling/Targets.antt =====
-- The targets of the groups add up to the size of the sample, and the sample meets them.
use native.Mathlib.Nat.{div-add-mod, mod-lt, suc-mul}
use showcase_host.Prelude.{
  ℕ, zero, suc, ◌+◌, ◌*◌, ◌/◌, ◌%◌, ◌<◌, ◌≤◌, String, Bool, true, false, List, [], ◌∷◌, ◌≡◌, refl,
  sym, ap, subst, ◌∙◌, if◌then◌else◌, length, take, All, All-append, sum_by, str_eq, str_eq_iff,
  inl, inr, Bool-cases, arith,
}
use showcase_host.Evaluation.Sampling.{is_one_of, target_of, add_row, group_rows, no_rows, rows_of}

-- No group stands twice.
abbrev pub AreDistinct : List String → Type 0
AreDistinct [] = Unit {0}
AreDistinct (g ∷ gs) = All (λ h. str_eq h g ≡ false) gs × AreDistinct gs

abbrev pub one_if : Bool → ℕ
one_if b = if b then 1 else 0

-- The first `k` groups are those that `is_one_of` finds.
taken_after :
    (x : String) (names gs : List String)
    → All (λ h. str_eq h x ≡ false) gs
    → sum_by (λ g. one_if (is_one_of (x ∷ names) g)) gs
      ≡ sum_by (λ g. one_if (is_one_of names g)) gs
taken_after x names [] h = refl
taken_after x names (g ∷ gs) h = rw h.0 (omega (arith, taken_after x names gs h.1))

none_taken : (gs : List String) → sum_by (λ g. one_if (is_one_of [] g)) gs ≡ 0
none_taken [] = refl
none_taken (g ∷ gs) = omega (arith, none_taken gs)

taken_sum :
    (k : ℕ) (gs : List String)
    → AreDistinct gs
    → k ≤ length gs
    → sum_by (λ g. one_if (is_one_of (take k gs) g)) gs ≡ k
taken_sum zero gs h le = none_taken gs
taken_sum (suc k) [] h le = absurd (omega (arith, le))
taken_sum (suc k) (g ∷ gs) h le =
    rw ((str_eq_iff g g).1 refl)
      (omega (arith, taken_after g (take k gs) gs h.0, taken_sum k gs h.1 (omega (arith, le))))

sum_by_const :
    (q : ℕ) (f : String → ℕ) (gs : List String)
    → sum_by (λ g. q + f g) gs ≡ length gs * q + sum_by f gs
sum_by_const q f [] = omega arith
sum_by_const q f (g ∷ gs) = omega (arith, sum_by_const q f gs, suc-mul (length gs) q)

-- Whatever the count, the targets add up to it.
pub target_of-total :
    (count : ℕ) (order : List String)
    → AreDistinct order
    → 0 < length order
    → sum_by (target_of count order) order ≡ count
unfolding target_of
target_of-total count order distinct some_group =
    let remainder = count % length order in
    sum_by_const (count / length order) (λ g. one_if (is_one_of (take remainder order) g)) order
    ∙ ap (λ n. length order * (count / length order) + n)
        (taken_sum remainder order distinct (omega (arith, mod-lt count some_group)))
    ∙ div-add-mod count (length order)

-- A shuffle keeps what any measure of the rows adds up to.
abbrev pub IsShuffle : {R : Type 0} → (List R → List R) → Type 0
IsShuffle {R} shuffle = (f : R → ℕ) (rows : List R) → sum_by f (shuffle rows) ≡ sum_by f rows

module _ {R : Type 0} (group_for : R → String) where
  -- The rows of each key are of that group.
  abbrev AreGrouped : List (String × List R) → Type 0
  AreGrouped [] = Unit {0}
  AreGrouped ((key, rows) ∷ grouped) =
      All (λ r. str_eq (group_for r) key ≡ true) rows × AreGrouped grouped

  add_row-AreGrouped :
      (row : R) (grouped : List (String × List R))
      → AreGrouped grouped
      → AreGrouped (add_row (group_for row) row grouped)
  add_row-AreGrouped row [] h = tt
  add_row-AreGrouped row ((key, rows) ∷ grouped) h =
      elim (Bool-cases (str_eq key (group_for row))) [
        | inl same ↦ rw same (
          All-append _ rows (row ∷ []) h.0 (
            (str_eq_iff (group_for row) key).1 (sym ((str_eq_iff key (group_for row)).0 same)),
            tt,
          ),
          h.1,
        )
        | inr other ↦ rw other (h.0, add_row-AreGrouped row grouped h.1)
      ]

  pub group_rows-AreGrouped :
      (rows : List R) (grouped : List (String × List R))
      → AreGrouped grouped
      → AreGrouped (group_rows group_for rows grouped)
  group_rows-AreGrouped [] grouped h = h
  group_rows-AreGrouped (row ∷ rows) grouped h =
      group_rows-AreGrouped rows _ (add_row-AreGrouped row grouped h)

  pub no_rows-AreGrouped : (groups : List String) → AreGrouped (no_rows groups)
  no_rows-AreGrouped [] = tt
  no_rows-AreGrouped (g ∷ groups) = (tt, no_rows-AreGrouped groups)

  pub rows_of-All :
      (g : String) (grouped : List (String × List R))
      → AreGrouped grouped
      → All (λ r. str_eq (group_for r) g ≡ true) (rows_of g grouped)
  rows_of-All g [] h = tt
  rows_of-All g ((key, rows) ∷ grouped) h = elim (Bool-cases (str_eq key g)) [
    | inl same ↦
        rw same (
          subst (λ k. All (λ r. str_eq (group_for r) k ≡ true) rows) ((str_eq_iff key g).0 same)
            h.0)
    | inr other ↦ rw other (rows_of-All g grouped h.1)
  ]

  -- How many rows are of a group.
  abbrev pub count_of : String → List R → ℕ
  count_of g rows = sum_by (λ r. one_if (str_eq (group_for r) g)) rows
