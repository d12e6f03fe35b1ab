-- ===== src/Evaluation/Vectors/Batches.antt =====
-- The batches are the missing inputs in their order, cut within the limits.
use showcase_host.Prelude.{
  ℕ, zero, suc, ◌+◌, ◌≤◌, ◌<◌, ◌≡◌, refl, sym, ap, ◌∙◌, ◌⊎◌, inl, inr, String, Bool, true, false,
  ◌&&◌, Option, none, some, List, [], ◌∷◌, ◌++◌, ltb, length, sum_by, str_len, All, Bool-cases,
  arith,
}
use showcase_host.Evaluation.Vectors.{Batch, fill, batches_from, prepend}

abbrev chars_of : Batch → ℕ
chars_of batch = sum_by (λ (e : ℕ × String). str_len e.1) batch

-- A batch of at most so many inputs, which have few characters or are one input.
abbrev pub IsWithin : ℕ → ℕ → Batch → Type 0
IsWithin batch_max_chars batch_size batch =
    (length batch ≤ batch_size) × ((chars_of batch ≤ batch_max_chars) ⊎ (length batch ≤ 1))

abbrev pub flatten : List Batch → Batch
flatten [] = []
flatten (batch ∷ batches) = batch ++ flatten batches

module _ {V : Type 0} where
  -- The inputs without a vector, with their indices from a position on.
  abbrev pub missing : ℕ → List (String × Option V) → Batch
  missing index [] = []
  missing index ((value, none) ∷ items) = (index, value) ∷ missing (index + 1) items
  missing index ((value, some v) ∷ items) = missing (index + 1) items

  -- What the inner loop takes and leaves.
  record IsFilled (index room : ℕ) (items : List (String × Option V))
      (r : Batch × List (String × Option V)) : Type 0 where
    pub split : missing index items ≡ r.0 ++ missing (index + length r.0) r.1
    pub size : length r.0 ≤ room
    pub left : length r.1 + length r.0 ≡ length items

with_first :
    (max_chars index : ℕ) (value : String) (batch : Batch)
    → (0 + str_len value + chars_of batch ≤ max_chars) ⊎ (batch ≡ [])
    → (chars_of ((index, value) ∷ batch) ≤ max_chars) ⊎ (length ((index, value) ∷ batch) ≤ 1)
with_first max_chars index value batch (inl below) = inl (omega (arith, below))
with_first max_chars index value batch (inr none_more) = inr (rw none_more (omega arith))

module _ {V : Type 0} (max_chars : ℕ) where
  nothing-IsFilled :
      (index room : ℕ) (items : List (String × Option V)) → IsFilled index room items ([], items)
  nothing-IsFilled index room items = record {
    split = ap (λ n. missing n items) (omega arith);
    size = omega arith;
    left = omega arith;
  }

  prepend-IsFilled :
      (index room : ℕ) (value : String) (items : List (String × Option V))
      (r : Batch × List (String × Option V))
      → IsFilled (index + 1) room items r
      → IsFilled index (suc room) ((value, none) ∷ items) (prepend (index, value) r)
  prepend-IsFilled index room value items (batch, left) h = record {
    split =
        ap (λ l. (index, value) ∷ l) (h.split ∙ ap (λ n. batch ++ missing n left) (omega arith));
    size = omega (arith, h.size);
    left = omega (arith, h.left);
  }

  fill-IsFilled :
      (room : ℕ) (started : Bool) (chars index : ℕ) (items : List (String × Option V))
      → IsFilled index room items (fill max_chars room started chars index items)
  unfolding fill
  fill-IsFilled zero started chars index items = nothing-IsFilled index zero items
  fill-IsFilled (suc room) started chars index [] = nothing-IsFilled index (suc room) []
  fill-IsFilled (suc room) started chars index ((value, some v) ∷ items) =
      nothing-IsFilled index (suc room) ((value, some v) ∷ items)
  fill-IsFilled (suc room) started chars index ((value, none) ∷ items) =
      elim (Bool-cases (started && ltb max_chars (chars + str_len value))) [
        | inl full ↦ rw full (nothing-IsFilled index (suc room) ((value, none) ∷ items))
        | inr fits ↦ rw fits (
            prepend-IsFilled index room value items
              (fill max_chars room true (chars + str_len value) (index + 1) items)
              (fill-IsFilled room true (chars + str_len value) (index + 1) items))
      ]

  -- Once the batch has an input, nothing more is taken that does not fit.
  fill-chars :
      (room chars index : ℕ) (items : List (String × Option V))
      → (chars + chars_of (fill max_chars room true chars index items).0 ≤ max_chars)
        ⊎ ((fill max_chars room true chars index items).0 ≡ [])
  unfolding fill
  fill-chars zero chars index items = inr refl
  fill-chars (suc room) chars index [] = inr refl
  fill-chars (suc room) chars index ((value, some v) ∷ items) = inr refl
  fill-chars (suc room) chars index ((value, none) ∷ items) =
      elim (Bool-cases (ltb max_chars (chars + str_len value))) [
        | inl full ↦ rw full (inr refl)
        | inr fits ↦ rw fits (elim (fill-chars room (chars + str_len value) (index + 1) items) [
          | inl below ↦ inl (omega (arith, below))
          | inr last ↦ inl (rw last (ground arith))
        ])
      ]

  -- The first round takes an input, and leaves a batch within the limits.
  fill-IsWithin :
      (room index : ℕ) (value : String) (items : List (String × Option V))
      → IsWithin max_chars
          (suc room)
          (fill max_chars (suc room) false 0 index ((value, none) ∷ items)).0
        × (0 < length (fill max_chars (suc room) false 0 index ((value, none) ∷ items)).0)
  unfolding fill
  fill-IsWithin room index value items =
      let more = fill max_chars room true (0 + str_len value) (index + 1) items in
      let filled = fill-IsFilled room true (0 + str_len value) (index + 1) items in
      (
        (
          omega (arith, filled.size),
          with_first max_chars index value more.0
              (fill-chars room (0 + str_len value) (index + 1) items),
        ),
        omega arith,
      )

  pub record AreBatches (batch_size index : ℕ) (items : List (String × Option V))
      (batches : List Batch) : Type 0 where
    pub all_missing : flatten batches ≡ missing index items
    pub within : All (IsWithin max_chars batch_size) batches

  add_batch :
      (room index : ℕ) (value : String) (items : List (String × Option V))
      (r : Batch × List (String × Option V)) (batches : List Batch)
      → IsFilled index (suc room) ((value, none) ∷ items) r
      → IsWithin max_chars (suc room) r.0
      → AreBatches (suc room) (index + length r.0) r.1 batches
      → AreBatches (suc room) index ((value, none) ∷ items) (r.0 ∷ batches)
  add_batch room index value items (batch, left) batches filled within rest = record {
    all_missing = ap (λ l. batch ++ l) rest.all_missing ∙ sym filled.split;
    within = (within, rest.within);
  }

  pub batches_from-AreBatches :
      (fuel room index : ℕ) (items : List (String × Option V))
      → length items ≤ fuel
      → AreBatches (suc room) index items (batches_from max_chars fuel (suc room) index items)
  unfolding batches_from
  batches_from-AreBatches zero room index [] h = record { all_missing = refl; within = tt }
  batches_from-AreBatches zero room index (x ∷ items) h = absurd (omega (arith, h))
  batches_from-AreBatches (suc fuel) room index [] h = record { all_missing = refl; within = tt }
  batches_from-AreBatches (suc fuel) room index ((value, some v) ∷ items) h =
      let rest = batches_from-AreBatches fuel room (index + 1) items (omega (arith, h)) in
      record { all_missing = rest.all_missing; within = rest.within }
  batches_from-AreBatches (suc fuel) room index ((value, none) ∷ items) h =
      let r = fill max_chars (suc room) false 0 index ((value, none) ∷ items) in
      let filled = fill-IsFilled (suc room) false 0 index ((value, none) ∷ items) in
      let (within, some_input) = fill-IsWithin room index value items in
      add_batch room index value items r
        (batches_from max_chars fuel (suc room) (index + length r.0) r.1) filled within
        (batches_from-AreBatches fuel room (index + length r.0) r.1
          (omega (arith, h, filled.left, some_input)))
