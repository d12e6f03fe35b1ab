-- ===== src/SourceControl/Pages.antt =====
-- The pages of GitHub's lists, put together.
use showcase_host.Prelude.{
  ℕ, zero, suc, ◌+◌, ◌*◌, ◌<◌, List, [], ◌∷◌, ◌++◌, ◌≡◌, refl, length, take, append-nil,
  append_assoc, arith, some, Bool-cases, inl, inr, ltb, ap, sym, ◌∙◌, ◌≤◌, subst,
}
use showcase_host.Prelude.Results.{ok}
use showcase_host.Embeddings.Calls.{drop}
use showcase_host.Embeddings.Batches.{take-drop}
use showcase_host.SourceControl.{Reply, response, request, paginate_from, paginate}

add_zero : (n : ℕ) → n + 0 ≡ n
add_zero n = omega arith

zero_times : (n : ℕ) → 0 * n ≡ 0
zero_times n = omega arith

suc_plus : (n m : ℕ) → suc (n + m) ≡ suc n + m
suc_plus n m = omega arith

-- The answers to the pages from a number on are those of a list.
abbrev pub IsPaged : {A : Type 0} → ℕ → (ℕ → Reply (List A)) → ℕ → List A → Type 0
IsPaged per_page page_at first xs =
    (n : ℕ) → page_at (first + n) ≡ response 200 (take per_page (drop (n * per_page) xs))

module _ {A : Type 0} where
  drop_none : (n : ℕ) → drop {A = A} n [] ≡ []
  drop_none zero = refl
  drop_none (suc n) = refl

  drop-drop : (m n : ℕ) (xs : List A) → drop m (drop n xs) ≡ drop (n + m) xs
  drop-drop m zero xs = ap (λ k. drop k xs) (omega arith)
  drop-drop m (suc n) [] = drop_none m ∙ sym (drop_none (suc n + m))
  drop-drop m (suc n) (x ∷ xs) =
      subst (λ k. drop m (drop n xs) ≡ drop k (x ∷ xs)) (suc_plus n m) (drop-drop m n xs)

  drop_nil : (n : ℕ) (xs : List A) → length (take n xs) < n → drop n xs ≡ []
  drop_nil zero xs h = absurd (omega (arith, h))
  drop_nil (suc n) [] h = refl
  drop_nil (suc n) (x ∷ xs) h = drop_nil n xs (omega (arith, h))

  take_all : (n : ℕ) (xs : List A) → drop n xs ≡ [] → take n xs ≡ xs
  take_all n xs e = sym (append-nil (take n xs)) ∙ ap (λ l. take n xs ++ l) (sym e) ∙ take-drop n xs

  length-drop_full :
      (n : ℕ) (xs : List A) → n ≤ length (take n xs) → length (drop n xs) + n ≡ length xs
  length-drop_full zero xs h = omega arith
  length-drop_full (suc n) [] h = absurd (omega (arith, h))
  length-drop_full (suc n) (x ∷ xs) h = omega (arith, length-drop_full n xs (omega (arith, h)))

module _ {A : Type 0} (per_page : ℕ) (page_at : ℕ → Reply (List A)) (some_item : 0 < per_page) where
  next_pages :
      (page : ℕ) (xs : List A)
      → IsPaged per_page page_at page xs
      → IsPaged per_page page_at (page + 1) (drop per_page xs)
  next_pages page xs h n =
      ap page_at (omega arith)
      ∙ h (suc n)
      ∙ ap (λ l. response 200 (take per_page l))
          (ap (λ k. drop k xs) (omega arith) ∙ sym (drop-drop (n * per_page) per_page xs))

  first_page :
      (page : ℕ) (xs : List A)
      → IsPaged per_page page_at page xs
      → page_at page ≡ response 200 (take per_page xs)
  first_page page xs h =
      subst (λ k. page_at k ≡ response 200 (take per_page xs)) (add_zero page)
        (h 0 ∙ ap (λ k. response 200 (take per_page (drop k xs))) (zero_times per_page))

  paginate_from-All :
      (fuel page : ℕ) (items xs : List A)
      → IsPaged per_page page_at page xs
      → length xs < fuel
      → paginate_from per_page page_at fuel page items ≡ ok (some (items ++ xs))
  unfolding paginate_from request
  paginate_from-All zero page items xs h enough = absurd (omega (arith, enough))
  paginate_from-All (suc fuel) page items xs h enough =
      let joined = take-drop per_page xs in
      rw (first_page page xs h) (elim (Bool-cases (ltb (length (take per_page xs)) per_page)) [
        | inl last ↦ rw last (
            ap (λ l. ok (some (items ++ l)))
              (take_all per_page xs (drop_nil per_page xs (ground arith))))
        | inr full ↦ rw full (
            paginate_from-All fuel (page + 1) (items ++ take per_page xs) (drop per_page xs)
              (next_pages page xs h)
              (omega (arith, some_item, enough, length-drop_full per_page xs (ground arith)))
            ∙ ap (λ l. ok (some l))
                (append_assoc items (take per_page xs) (drop per_page xs)
                  ∙ ap (λ l. items ++ l) joined))
      ])

  -- The pages of a list, of some length each, are put together to the list, if there is fuel for them.
  pub paginate-All :
      (fuel : ℕ) (xs : List A)
      → IsPaged per_page page_at 1 xs
      → length xs < fuel
      → paginate per_page page_at fuel ≡ ok (some xs)
  unfolding paginate
  paginate-All fuel xs h enough = paginate_from-All fuel 1 [] xs h enough
