-- ===== src/Evaluation/RateLimit/Window.antt =====
-- The rolling window of the limiter in one round of the loop: what `drop_old` removes and leaves, and
-- what a wait of 0 or more says.
use showcase_host.Prelude.{
  ◌≤◌, ◌<◌, ℕ, ◌≡◌, ◌+◌, ◌-◌, ap, refl, inl, inr, All, List, [], ◌∷◌, ◌++◌, arith, leb, length,
  sum_by, Bool-cases, some, Option,
}
use showcase_host.Evaluation.RateLimit.{
  suc, Grant, Budget, minute, drop_old, interval_wait, wait_for,
}

abbrev pub tokens_in : List Grant → ℕ
tokens_in gs = sum_by (λ (g : Grant). g.tokens) gs

-- A minute has passed since the grant.
abbrev pub IsOld : Budget → ℕ → Grant → Type 0
IsOld budget now g = g.time + minute budget ≤ now

abbrev pub IsYoung : Budget → ℕ → List Grant → Type 0
IsYoung budget now [] = Unit {0}
IsYoung budget now (g ∷ gs) = now < g.time + minute budget

-- The window that is left has lost old grants only, and starts with a grant that is not old.
pub drop_old-split :
    (budget : Budget) (now : ℕ) (window : List Grant)
    → 1 ≤ budget.requests_per_minute
    → (dropped : List Grant) × (window ≡ dropped ++ drop_old budget now window)
      × All (IsOld budget now) dropped
      × IsYoung budget now (drop_old budget now window)
unfolding drop_old
drop_old-split budget now [] some_rate = ([], refl, tt, tt)
drop_old-split budget now (g ∷ window) some_rate =
    elim (Bool-cases (leb (minute budget) (now - g.time))) [
      | inl old ↦
          let (dropped, split, olds, young) = drop_old-split budget now window some_rate in
          rw old (g ∷ dropped, ap (λ gs. g ∷ gs) split, (ground arith, olds), young)
      | inr young ↦ rw young ([], refl, tt, ground arith)
    ]

pub drop_old-length :
    (budget : Budget) (now : ℕ) (window : List Grant)
    → length (drop_old budget now window) ≤ length window
unfolding drop_old
drop_old-length budget now [] = ground arith
drop_old-length budget now (g ∷ window) = ground (arith, drop_old-length budget now window)

drop_old-tokens :
    (budget : Budget) (now : ℕ) (window : List Grant)
    → tokens_in (drop_old budget now window) ≤ tokens_in window
unfolding drop_old
drop_old-tokens budget now [] = ground arith
drop_old-tokens budget now (g ∷ window) = ground (arith, drop_old-tokens budget now window)

-- If a round need not wait, the request fits the window and the interval is over.
pub wait_for-zero :
    (budget : Budget) (now estimated : ℕ) (last : Option ℕ) (window : List Grant)
    → IsYoung budget now window
    → wait_for budget now estimated last window ≡ some 0
    → (interval_wait now last ≡ 0)
      × (suc (length window) ≤ budget.requests_per_minute)
      × (tokens_in window + estimated ≤ budget.tokens_per_minute)
unfolding wait_for
wait_for-zero budget now estimated last [] young e = ground arith
wait_for-zero budget now estimated last (g ∷ window) young e = ground arith
