-- ===== src/Chunking/Process/Collected/Targets.antt =====
-- Lists of rows that a filter keeps, and which the rows that stay refer to.
use showcase_host.Prelude.{
  ℕ, Bool, true, false, not, Option, none, some, List, [], ◌∷◌, ◌++◌, ◌≡◌, refl, any, filter, All,
  All-imp, arith, ==_iff,
}
use showcase_host.Chunking.Publish.Tables.{SnapshotChunkFile}
use showcase_host.Chunking.Process.Publishing.{is_referenced}

module _ {A : Type 0} where
  pub any-append_left : (p : A → Bool) (xs ys : List A) → any p xs ≡ true → any p (xs ++ ys) ≡ true
  any-append_left p [] ys h = absurd (cc h)
  any-append_left p (x ∷ xs) ys h = ground (arith, any-append_left p xs ys)

  pub any-append_last :
      (p : A → Bool) (xs : List A) (y : A) → p y ≡ true → any p (xs ++ y ∷ []) ≡ true
  any-append_last p [] y h = ground arith
  any-append_last p (x ∷ xs) y h = ground (arith, any-append_last p xs y h)

  -- What is found and not dropped is found in what is kept.
  pub any-filter :
      (p q : A → Bool) (xs : List A)
      → any p xs ≡ true
      → any p (filter (λ x. not (q x)) xs) ≡ false
      → any p (filter q xs) ≡ true
  any-filter p q [] h k = absurd (cc h)
  any-filter p q (x ∷ xs) h k = ground (arith, any-filter p q xs)

  -- Every found element satisfies `q`, so none of them is dropped.
  pub any-dropped :
      (p q : A → Bool) (xs : List A)
      → ((x : A) → p x ≡ true → q x ≡ true)
      → any p (filter (λ x. not (q x)) xs) ≡ false
  any-dropped p q [] h = refl
  any-dropped p q (x ∷ xs) h = ground (arith, any-dropped p q xs h, h x)

module _ {A : Type 0} where
  pub All-both :
      (P Q R : A → Type 0)
      → ((a : A) → P a → Q a → R a)
      → (xs : List A) → All P xs
      → All Q xs
      → All R xs
  All-both P Q R f [] h k = tt
  All-both P Q R f (x ∷ xs) h k = (f x h.0 k.0, All-both P Q R f xs h.1 k.1)

abbrev pub is_target_of : List SnapshotChunkFile → Option ℕ → Bool
is_target_of rows none = true
is_target_of rows (some id) = is_referenced rows id

is_target_of_more :
    (row : SnapshotChunkFile) (rows : List SnapshotChunkFile) (id : Option ℕ)
    → is_target_of rows id ≡ true
    → is_target_of (row ∷ rows) id ≡ true
is_target_of_more row rows none h = refl
is_target_of_more row rows (some id) h = ground (arith, h)

is_target_of_first :
    (row : SnapshotChunkFile) (rows : List SnapshotChunkFile) (id : Option ℕ)
    → row.chunked_file_id ≡ id
    → is_target_of (row ∷ rows) id ≡ true
is_target_of_first row rows none e = refl
is_target_of_first row rows (some id) e = rw e (rw ((==_iff id id).1 refl) refl)

pub All-target :
    (rows : List SnapshotChunkFile)
    → All (λ (r : SnapshotChunkFile). is_target_of rows r.chunked_file_id ≡ true) rows
All-target [] = tt
All-target (row ∷ rows) = (
  is_target_of_first row rows row.chunked_file_id refl,
  All-imp _ _ (λ r. is_target_of_more row rows r.chunked_file_id) rows (All-target rows),
)
