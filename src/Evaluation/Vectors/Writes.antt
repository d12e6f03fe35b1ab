-- ===== src/Evaluation/Vectors/Writes.antt =====
-- What the writes of batches come to, for a provider that embeds each text by itself.
use showcase_host.Prelude.{
  ℕ, zero, suc, ◌+◌, ◌≡◌, refl, sym, ap, ◌∙◌, subst, String, false, Option, none, some, List, [],
  ◌∷◌, ◌++◌, map, any, length, length-append, All, append_assoc, arith,
}
use showcase_host.Evaluation.Runs.Details.{set_item, somes}
use showcase_host.Evaluation.Vectors.{Batch, texts, no_vectors, with_vectors, is_none, write}
use showcase_host.Evaluation.Vectors.Batches.{flatten, missing}

abbrev input_at : ℕ → List String → Option String
input_at n [] = none
input_at zero (value ∷ inputs) = some value
input_at (suc n) (value ∷ inputs) = input_at n inputs

abbrev pub IsEntry : List String → ℕ × String → Type 0
IsEntry inputs e = input_at e.0 inputs ≡ some e.1

input_at-append :
    (before : List String) (value : String) (inputs : List String)
    → input_at (length before) (before ++ value ∷ inputs) ≡ some value
input_at-append [] value inputs = refl
input_at-append (x ∷ before) value inputs = input_at-append before value inputs

pub All-flatten :
    (P : ℕ × String → Type 0) (batches : List Batch) → All P (flatten batches) → All (All P) batches
All-flatten P [] h = tt
All-flatten P (batch ∷ batches) h = (first batch h, All-flatten P batches (later batch h))
  where
    first : (b : Batch) → All P (b ++ flatten batches) → All P b
    first [] h = tt
    first (e ∷ b) h = (h.0, first b h.1)

    later : (b : Batch) → All P (b ++ flatten batches) → All P (flatten batches)
    later [] h = h
    later (e ∷ b) h = later b h.1

later-IsEntry :
    (before : List String) (value : String) (inputs : List String) (batch : Batch)
    → All (IsEntry ((before ++ value ∷ []) ++ inputs)) batch
    → All (IsEntry (before ++ value ∷ inputs)) batch
later-IsEntry before value inputs batch h =
    subst (λ l. All (IsEntry l) batch) (append_assoc before (value ∷ []) inputs) h

module _ {V : Type 0} where
  pub missing-IsEntry :
      (before inputs : List String) (vectors : List (Option V)) (n : ℕ)
      → n ≡ length before
      → All (IsEntry (before ++ inputs)) (missing n (with_vectors inputs vectors))
  missing-IsEntry before [] vectors n e = tt
  missing-IsEntry before (value ∷ inputs) [] n e = (
    rw e (input_at-append before value inputs),
    later-IsEntry before value inputs (missing (n + 1) (with_vectors inputs [])) (
        missing-IsEntry (before ++ value ∷ []) inputs [] (n + 1)
          (omega (arith, e, length-append before (value ∷ [])))),
  )
  missing-IsEntry before (value ∷ inputs) (none ∷ vectors) n e = (
    rw e (input_at-append before value inputs),
    later-IsEntry before value inputs (missing (n + 1) (with_vectors inputs vectors)) (
        missing-IsEntry (before ++ value ∷ []) inputs vectors (n + 1)
          (omega (arith, e, length-append before (value ∷ [])))),
  )
  missing-IsEntry before (value ∷ inputs) (some v ∷ vectors) n e =
      later-IsEntry before value inputs (missing (n + 1) (with_vectors inputs vectors)) (
        missing-IsEntry (before ++ value ∷ []) inputs vectors (n + 1)
          (omega (arith, e, length-append before (value ∷ []))))

  set_item-append :
      (before : List (Option V)) (x : Option V) (v : V) (rest : List (Option V))
      → set_item (length before) v (before ++ x ∷ rest) ≡ before ++ some v ∷ rest
  set_item-append [] x v rest = refl
  set_item-append (y ∷ before) x v rest = ap (λ l. y ∷ l) (set_item-append before x v rest)

  pub any-none : (vs : List V) → any is_none (map some vs) ≡ false
  any-none [] = refl
  any-none (v ∷ vs) = any-none vs

  pub somes-map : (vs : List V) → somes (map some vs) ≡ vs
  somes-map [] = refl
  somes-map (v ∷ vs) = ap (λ l. v ∷ l) (somes-map vs)

module _ {V : Type 0} (embed : String → V) where
  -- As many vectors as inputs, of which each is missing or that of its input.
  abbrev pub AreVectors : List String → List (Option V) → Type 0
  AreVectors [] [] = Unit {0}
  AreVectors [] (x ∷ vectors) = ⊥
  AreVectors (value ∷ inputs) [] = ⊥
  AreVectors (value ∷ inputs) (none ∷ vectors) = AreVectors inputs vectors
  AreVectors (value ∷ inputs) (some v ∷ vectors) = (v ≡ embed value) × AreVectors inputs vectors

  pub no_vectors-AreVectors : (inputs : List String) → AreVectors inputs (no_vectors inputs)
  no_vectors-AreVectors [] = tt
  no_vectors-AreVectors (value ∷ inputs) = no_vectors-AreVectors inputs

  set_item-AreVectors :
      (inputs : List String) (vectors : List (Option V)) (n : ℕ) (value : String)
      → input_at n inputs ≡ some value
      → AreVectors inputs vectors
      → AreVectors inputs (set_item n (embed value) vectors)
  set_item-AreVectors [] [] n value e h = tt
  set_item-AreVectors [] (_ ∷ vectors) n value e h = elim h [ ]
  set_item-AreVectors (x ∷ inputs) [] n value e h = elim h [ ]
  set_item-AreVectors (x ∷ inputs) (none ∷ vectors) zero value e h = (ap embed (cc e), h)
  set_item-AreVectors (x ∷ inputs) (some v ∷ vectors) zero value e h = (ap embed (cc e), h.1)
  set_item-AreVectors (x ∷ inputs) (none ∷ vectors) (suc n) value e h =
      set_item-AreVectors inputs vectors n value e h
  set_item-AreVectors (x ∷ inputs) (some v ∷ vectors) (suc n) value e h =
      (h.0, set_item-AreVectors inputs vectors n value e h.1)

  -- The entries of a batch with the vectors of their texts.
  abbrev pub write_all : Batch → List (Option V) → List (Option V)
  write_all batch vectors = write batch (map embed (texts batch)) vectors

  pub write_all-AreVectors :
      (inputs : List String) (batch : Batch) (vectors : List (Option V))
      → All (IsEntry inputs) batch
      → AreVectors inputs vectors
      → AreVectors inputs (write_all batch vectors)
  unfolding write
  write_all-AreVectors inputs [] vectors entries h = h
  write_all-AreVectors inputs ((n, value) ∷ batch) vectors entries h =
      write_all-AreVectors inputs batch (set_item n (embed value) vectors) entries.1
        (set_item-AreVectors inputs vectors n value entries.0 h)

  pub write_all-append :
      (a b : Batch) (vectors : List (Option V))
      → write_all (a ++ b) vectors ≡ write_all b (write_all a vectors)
  unfolding write
  write_all-append [] b vectors = refl
  write_all-append ((n, value) ∷ a) b vectors =
      write_all-append a b (set_item n (embed value) vectors)

  next_missing :
      (before : List (Option V)) (x : Option V) (vectors : List (Option V)) (batch : Batch)
      (inputs : List String)
      → write_all batch ((before ++ x ∷ []) ++ vectors)
        ≡ (before ++ x ∷ []) ++ map some (map embed inputs)
      → write_all batch (before ++ x ∷ vectors) ≡ before ++ x ∷ map some (map embed inputs)
  next_missing before x vectors batch inputs h =
      ap (write_all batch) (sym (append_assoc before (x ∷ []) vectors))
      ∙ h
      ∙ append_assoc before (x ∷ []) (map some (map embed inputs))

  -- With the missing vectors written, all inputs have theirs.
  pub write_all-missing :
      (before : List (Option V)) (inputs : List String) (vectors : List (Option V)) (n : ℕ)
      → n ≡ length before
      → AreVectors inputs vectors
      → write_all (missing n (with_vectors inputs vectors)) (before ++ vectors)
        ≡ before ++ map some (map embed inputs)
  unfolding write
  write_all-missing before [] [] n e h = refl
  write_all-missing before [] (_ ∷ vectors) n e h = elim h [ ]
  write_all-missing before (value ∷ inputs) [] n e h = elim h [ ]
  write_all-missing before (value ∷ inputs) (none ∷ vectors) n e h =
      let rest = missing (n + 1) (with_vectors inputs vectors) in
      ap (write_all rest) (rw e (set_item-append before none (embed value) vectors))
      ∙ next_missing before (some (embed value)) vectors rest inputs (
          write_all-missing (before ++ some (embed value) ∷ []) inputs vectors (n + 1)
            (omega (arith, e, length-append before (some (embed value) ∷ []))) h)
  write_all-missing before (value ∷ inputs) (some v ∷ vectors) n e h =
      next_missing before (some v) vectors (missing (n + 1) (with_vectors inputs vectors)) inputs (
        write_all-missing (before ++ some v ∷ []) inputs vectors (n + 1)
          (omega (arith, e, length-append before (some v ∷ []))) h.1)
      ∙ ap (λ u. before ++ some u ∷ map some (map embed inputs)) h.0

  pub somes-AreVectors :
      (inputs : List String) (vectors : List (Option V))
      → AreVectors inputs vectors
      → any is_none vectors ≡ false
      → somes vectors ≡ map embed inputs
  somes-AreVectors [] [] h e = refl
  somes-AreVectors [] (_ ∷ vectors) h e = elim h [ ]
  somes-AreVectors (value ∷ inputs) [] h e = elim h [ ]
  somes-AreVectors (value ∷ inputs) (none ∷ vectors) h e = absurd (cc e)
  somes-AreVectors (value ∷ inputs) (some v ∷ vectors) h e =
      rw (h.0, somes-AreVectors inputs vectors h.1 e) refl
