-- ===== src/Evaluation/Runs/Slots.antt =====
-- The list of details of app/evaluation/service.py: what an assignment changes.
use showcase_host.Prelude.{
  ℕ, zero, suc, ◌+◌, ◌<◌, Bool, true, false, not, Option, none, some, List, [], ◌∷◌, ◌≡◌, refl, ◌≢◌,
  if◌then◌else◌, All, length, arith,
}
use showcase_host.Evaluation.Runs.Details.{Detail, is_retrying, item_at, set_item}

module _ {A : Type 0} where
  pub item_at-set :
      (n : ℕ) (a : A) (xs : List (Option A)) → n < length xs → item_at n (set_item n a xs) ≡ some a
  item_at-set n a [] h = absurd (omega (arith, h))
  item_at-set zero a (x ∷ xs) h = refl
  item_at-set (suc n) a (x ∷ xs) h = item_at-set n a xs (omega (arith, h))

  pub item_at-set_other :
      (m n : ℕ) (a : A) (xs : List (Option A)) → m ≢ n → item_at m (set_item n a xs) ≡ item_at m xs
  item_at-set_other m n a [] h = refl
  item_at-set_other zero zero a (x ∷ xs) h = absurd (h refl)
  item_at-set_other zero (suc n) a (x ∷ xs) h = refl
  item_at-set_other (suc m) zero a (x ∷ xs) h = refl
  item_at-set_other (suc m) (suc n) a (x ∷ xs) h = item_at-set_other m n a xs (omega (arith, h))

  pub length-set : (n : ℕ) (a : A) (xs : List (Option A)) → length (set_item n a xs) ≡ length xs
  length-set n a [] = refl
  length-set zero a (x ∷ xs) = refl
  length-set (suc n) a (x ∷ xs) = omega (arith, length-set n a xs)

  pub All-set :
      (P : Option A → Type 0) (n : ℕ) (a : A) (xs : List (Option A))
      → P (some a)
      → All P xs
      → All P (set_item n a xs)
  All-set P n a [] p h = tt
  All-set P zero a (x ∷ xs) p h = (p, h.1)
  All-set P (suc n) a (x ∷ xs) p h = (h.0, All-set P n a xs p h.1)

  pub All-item :
      (P : Option A → Type 0) (n : ℕ) (xs : List (Option A)) → P none → All P xs → P (item_at n xs)
  All-item P n [] p h = p
  All-item P zero (x ∷ xs) p h = h.0
  All-item P (suc n) (x ∷ xs) p h = All-item P n xs p h.1

  pub item_at-All :
      (P : Option A → Type 0) (xs : List (Option A))
      → ((n : ℕ) → n < length xs → P (item_at n xs))
      → All P xs
  item_at-All P [] h = tt
  item_at-All P (x ∷ xs) h =
      (h 0 (omega arith), item_at-All P xs (λ n k. h (suc n) (omega (arith, k))))

module _ {S : Type 0} where
  -- The example needs no further attempt.
  abbrev pub is_done : Option (Detail S) → Bool
  is_done none = false
  is_done (some d) = not (is_retrying d.status)

  abbrev pub count_done : List (Option (Detail S)) → ℕ
  count_done [] = 0
  count_done (x ∷ xs) = if is_done x then suc (count_done xs) else count_done xs

  pub count_done-set :
      (n : ℕ) (d : Detail S) (xs : List (Option (Detail S)))
      → n < length xs
      → is_done (item_at n xs) ≡ false
      → count_done (set_item n d xs)
        ≡ (if not (is_retrying d.status) then count_done xs + 1 else count_done xs)
  count_done-set n d [] h k = absurd (omega (arith, h))
  count_done-set zero d (x ∷ xs) h k = ground (arith, k)
  count_done-set (suc n) d (x ∷ xs) h k = ground (arith, count_done-set n d xs (omega (arith, h)) k)

  pub count_done-all :
      (xs : List (Option (Detail S))) → All (λ x. is_done x ≡ true) xs → count_done xs ≡ length xs
  count_done-all [] h = refl
  count_done-all (x ∷ xs) h = ground (arith, h.0, count_done-all xs h.1)
