-- ===== src/Evaluation/Vectors/Runs.antt =====
-- What the batches of an attempt leave, for a provider that embeds each text by itself.
use showcase_host.Prelude.{
  ℕ, ◌+◌, ◌≤◌, ◌≡◌, refl, sym, ap, ◌∙◌, subst, inl, inr, String, Bool, true, false, Option, none,
  some, List, [], ◌∷◌, map, any, or_else, ◌==◌, ==_iff, length, length-map, All, Bool-cases, arith,
}
use showcase_host.Prelude.Results.{ok, ok_eq}
use showcase_host.Embeddings.Calls.{Response, returns, provider_error, other_error}
use showcase_host.Evaluation.Vectors.{
  VectorError, Corpus, Batch, texts, no_vectors, is_none, halve, write, embed_batch, run_batches,
  complete,
}
use showcase_host.Evaluation.Vectors.Batches.{IsWithin, flatten}
use showcase_host.Evaluation.Vectors.Writes.{
  IsEntry, any-none, somes-map, AreVectors, no_vectors-AreVectors, write_all, write_all-AreVectors,
  write_all-append, somes-AreVectors,
}

-- The size of the batches: positive, and at most the first one.
abbrev IsSize : ℕ → Option ℕ → Type 0
IsSize first none = Unit {0}
IsSize first (some n) = (1 ≤ n) × (n ≤ first)

halve-IsSize :
    (first n : ℕ) (retryable : Bool) (size : Option ℕ)
    → 1 ≤ first
    → n ≤ first
    → IsSize first size
    → IsSize first (halve n retryable size)
halve-IsSize first n true size some_first below h = (omega arith, omega arith)
halve-IsSize first n false size some_first below h = h

module _ {V : Type 0} (embed : String → V) where
  -- The vectors that the provider returns, if their number is right, are those of the texts.
  abbrev pub IsFaithful : (ℕ → List String → Response (List V)) → Type 0
  IsFaithful answers =
      (n : ℕ) (inputs : List String) (vs : List V)
      → answers n inputs ≡ returns vs
      → length vs ≡ length inputs
      → vs ≡ map embed inputs

  module _ (first : ℕ) (inputs : List String) where
    abbrev IsState : List (Option V) × Option ℕ → Type 0
    IsState (vectors, size) = AreVectors embed inputs vectors × IsSize first size

    embed_batch-IsState :
        (n : ℕ) (batch : Batch) (r : Response (List V)) (state : List (Option V) × Option ℕ)
        → 1 ≤ first
        → n ≤ first
        → All (IsEntry inputs) batch
        → ((vs : List V)
            → r ≡ returns vs
            → length vs ≡ length (texts batch)
            → vs ≡ map embed (texts batch))
        → IsState state
        → IsState (embed_batch n batch r state).0
    unfolding embed_batch
    embed_batch-IsState n batch (provider_error retryable) (vectors, size) some_first below entries
          faithful h =
        (h.0, halve-IsSize first n retryable size some_first below h.1)
    embed_batch-IsState n batch other_error (vectors, size) some_first below entries faithful h = h
    embed_batch-IsState n batch (returns vs) (vectors, size) some_first below entries faithful h =
        elim (Bool-cases (length vs == length batch)) [
          | inl same ↦
              let all = faithful vs refl (
                (==_iff (length vs) (length batch)).0 same
                ∙ sym (length-map (λ (e : ℕ × String). e.1) batch)) in
              rw same (
                subst (λ us. AreVectors embed inputs (write batch us vectors)) (sym all)
                    (write_all-AreVectors embed inputs batch vectors entries h.0),
                h.1,
              )
          | inr other ↦ rw other h
        ]

    pub run_batches-IsState :
        (answers : ℕ → List String → Response (List V)) (size n : ℕ) (batches : List Batch)
        (state : List (Option V) × Option ℕ)
        → IsFaithful answers
        → 1 ≤ first
        → size ≤ first
        → All (All (IsEntry inputs)) batches
        → IsState state
        → IsState (run_batches answers size n batches state).0
    unfolding run_batches
    run_batches-IsState answers size n [] state faithful some_first below entries h = h
    run_batches-IsState answers size n (batch ∷ batches) state faithful some_first below entries h =
        run_batches-IsState answers size (n + 1) batches
          (embed_batch size batch (answers n (texts batch)) state).0 faithful some_first below
          entries.1
          (embed_batch-IsState size batch (answers n (texts batch)) state some_first below entries.0
            (faithful n (texts batch)) h)

    -- The provider answers every batch within the limits.
    abbrev pub IsAnswering : ℕ → (ℕ → List String → Response (List V)) → Type 0
    IsAnswering max_chars answers =
        (n : ℕ) (batch : Batch)
        → IsWithin max_chars first batch
        → answers n (texts batch) ≡ returns (map embed (texts batch))

    wider :
        (max_chars size : ℕ) (batch : Batch)
        → size ≤ first
        → IsWithin max_chars size batch
        → IsWithin max_chars first batch
    wider max_chars size batch below h = (omega (arith, below, h.0), h.1)

    texts_count : (batch : Batch) → (length (map embed (texts batch)) == length batch) ≡ true
    texts_count batch =
        (==_iff (length (map embed (texts batch))) (length batch)).1
          (length-map embed (texts batch) ∙ length-map (λ (e : ℕ × String). e.1) batch)

    pub run_batches-all :
        (max_chars : ℕ) (answers : ℕ → List String → Response (List V)) (size n : ℕ)
        (batches : List Batch) (vectors : List (Option V)) (stored : Option ℕ)
        → IsAnswering max_chars answers
        → size ≤ first
        → All (IsWithin max_chars size) batches
        → run_batches answers size n batches (vectors, stored)
          ≡ ((write_all embed (flatten batches) vectors, stored), none)
    unfolding run_batches embed_batch write
    run_batches-all max_chars answers size n [] vectors stored answering below within = refl
    run_batches-all max_chars answers size n (batch ∷ batches) vectors stored answering below
          within =
        let rest =
          run_batches-all max_chars answers size (n + 1) batches (write_all embed batch vectors)
            stored answering below within.1 in
        rw (answering n batch (wider max_chars size batch below within.0), texts_count batch)
          (rw rest (
            ap (λ (l : List (Option V)). ((l, stored), none))
              (sym (write_all-append embed batch (flatten batches) vectors))))

    pub complete-all : (vs : List V) → complete (map some vs) none ≡ ok vs
    complete-all vs = rw (any-none vs, somes-map vs) refl

    pub complete-ok :
        (vectors : List (Option V)) (outcome : Option VectorError) (vs : List V)
        → AreVectors embed inputs vectors
        → complete vectors outcome ≡ ok vs
        → vs ≡ map embed inputs
    complete-ok vectors (some e) vs h done = absurd (cc done)
    complete-ok vectors none vs h done = elim (Bool-cases (any is_none vectors)) [
      | inl open_ ↦ absurd (cc (rw open_ at done))
      | inr all ↦ sym (ok_eq (rw all at done)) ∙ somes-AreVectors embed inputs vectors h all
    ]

    abbrev pub IsCached : Option (List V) → Type 0
    IsCached none = Unit {0}
    IsCached (some vs) = vs ≡ map embed inputs

    abbrev HasVectors : Option (List (Option V)) → Type 0
    HasVectors none = Unit {0}
    HasVectors (some vectors) = AreVectors embed inputs vectors

    pub record IsCorpus (c : Corpus V) : Type 0 where
      pub cached : IsCached c.cached
      pub vectors : HasVectors c.vectors
      pub size : IsSize first c.batch_size

    pub HasVectors-AreVectors :
        (o : Option (List (Option V)))
        → HasVectors o
        → AreVectors embed inputs (or_else o (no_vectors inputs))
    HasVectors-AreVectors none h = no_vectors-AreVectors embed inputs
    HasVectors-AreVectors (some vectors) h = h

    pub IsSize-bounds :
        (o : Option ℕ)
        → 1 ≤ first
        → IsSize first o
        → (1 ≤ or_else o first) × (or_else o first ≤ first)
    IsSize-bounds none some_first h = (some_first, omega arith)
    IsSize-bounds (some n) some_first h = h
