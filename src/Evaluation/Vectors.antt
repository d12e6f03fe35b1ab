-- ===== src/Evaluation/Vectors.antt =====
-- The vectors of a corpus of chunks: `_embed_documents` and `_cached_document_vectors` of
-- app/evaluation/retrieval.py. How each request of the provider ends is a parameter.
pub mod Batches
pub mod Writes
pub mod Runs
pub mod Cached
mod Tests
use showcase_host.Prelude.{
  ℕ, zero, suc, ◌+◌, ◌/◌, min, max, String, Bool, true, false, ◌&&◌, Option, none, some, List, [],
  ◌∷◌, map, ltb, ◌==◌, if◌then◌else◌, or_else, any, length, str_len,
}
use showcase_host.Prelude.Results.{Result, ok, err}
use showcase_host.Embeddings.Calls.{Response, returns, provider_error, other_error}
use showcase_host.Evaluation.Runs.Details.{set_item, somes}

pub record BatchSettings : Type 0 where
  pub embedding_batch_size : ℕ
  pub evaluation_batch_size : ℕ
  pub batch_max_chars : ℕ

abbrev pub first_size : BatchSettings → ℕ
first_size settings = min settings.embedding_batch_size settings.evaluation_batch_size

-- What is raised: an `EmbeddingProviderError`, another exception, or one of the two `ValueError`s.
pub data VectorError : Type 0 where
  provider_failed : Bool → VectorError
  request_failed wrong_number incomplete : VectorError

-- The entries of the three dictionaries for the key of the chunks.
pub record Corpus (V : Type 0) : Type 0 where
  pub cached : Option (List V)
  pub vectors : Option (List (Option V))
  pub batch_size : Option ℕ

abbrev pub new_corpus : {V : Type 0} → Corpus V
new_corpus = record { cached = none; vectors = none; batch_size = none }

-- The indices and the texts of a batch, by entries.
abbrev pub Batch : Type 0
Batch = List (ℕ × String)

abbrev pub texts : Batch → List String
texts batch = map (λ e. e.1) batch

abbrev pub no_vectors : {V : Type 0} → List String → List (Option V)
no_vectors inputs = map (λ _. none) inputs

-- Each input with its vector, if it has one.
abbrev pub with_vectors : {V : Type 0} → List String → List (Option V) → List (String × Option V)
with_vectors [] vectors = []
with_vectors (value ∷ inputs) [] = (value, none) ∷ with_vectors inputs []
with_vectors (value ∷ inputs) (v ∷ vectors) = (value, v) ∷ with_vectors inputs vectors

abbrev pub prepend : {A B : Type 0} → A → List A × B → List A × B
prepend a (as_, b) = (a ∷ as_, b)

abbrev pub is_none : {A : Type 0} → Option A → Bool
is_none none = true
is_none (some a) = false

-- The error of `gather`'s outcomes that is raised: that of the first batch which failed.
abbrev first_error : Option VectorError → Option VectorError → Option VectorError
first_error (some e) later = some e
first_error none later = later

-- `self._document_batch_sizes[key] = max(1, batch_size // 2)`, after an error that is retryable.
abbrev pub halve : ℕ → Bool → Option ℕ → Option ℕ
halve batch_size true size = some (max 1 (batch_size / 2))
halve batch_size false size = size

module _ {V : Type 0} (batch_max_chars : ℕ) where
  -- The inner loop, with room for so many more inputs: the entries that it adds, and what is left.
  unfoldable pub fill :
      ℕ → Bool → ℕ → ℕ → List (String × Option V) → Batch × List (String × Option V)
  fill zero started batch_chars index items = ([], items)
  fill (suc room) started batch_chars index [] = ([], [])
  fill (suc room) started batch_chars index ((value, some v) ∷ items) =
      ([], (value, some v) ∷ items)
  fill (suc room) started batch_chars index ((value, none) ∷ items) =
      let more = fill room true (batch_chars + str_len value) (index + 1) items in
      if started && ltb batch_max_chars (batch_chars + str_len value)
      then ([], (value, none) ∷ items)
      else prepend (index, value) more

  -- The outer loop. For a positive size each round takes an input, so as many rounds as inputs are enough.
  unfoldable pub batches_from : ℕ → ℕ → ℕ → List (String × Option V) → List Batch
  unfolding fill
  batches_from zero batch_size index items = []
  batches_from (suc fuel) batch_size index [] = []
  batches_from (suc fuel) batch_size index ((value, some v) ∷ items) =
      batches_from fuel batch_size (index + 1) items
  batches_from (suc fuel) batch_size index ((value, none) ∷ items) =
      let (batch, left) = fill batch_size false 0 index ((value, none) ∷ items) in
      batch ∷ batches_from fuel batch_size (index + length batch) left

module _ {V : Type 0} where
  -- `vectors[vector_index] = vector`, for each pair.
  unfoldable pub write : Batch → List V → List (Option V) → List (Option V)
  write [] vs vectors = vectors
  write (e ∷ batch) [] vectors = vectors
  write ((index, value) ∷ batch) (v ∷ vs) vectors = write batch vs (set_item index v vectors)

  -- `embed_batch`: the vectors and the size of later batches, and its outcome.
  unfoldable pub embed_batch :
      ℕ
      → Batch
      → Response (List V)
      → List (Option V) × Option ℕ
      → (List (Option V) × Option ℕ) × Option VectorError
  unfolding write
  embed_batch batch_size batch (provider_error retryable) (vectors, size) =
      ((vectors, halve batch_size retryable size), some (provider_failed retryable))
  embed_batch batch_size batch other_error (vectors, size) = ((vectors, size), some request_failed)
  embed_batch batch_size batch (returns vs) (vectors, size) =
      if length vs == length batch
      then ((write batch vs vectors, size), none)
      else ((vectors, size), some wrong_number)

  -- `gather`: all batches end, from the number `n` on. They write to different places, and the same size.
  unfoldable pub run_batches :
      (ℕ → List String → Response (List V))
      → ℕ
      → ℕ
      → List Batch
      → List (Option V) × Option ℕ
      → (List (Option V) × Option ℕ) × Option VectorError
  unfolding embed_batch
  run_batches answers batch_size n [] state = (state, none)
  run_batches answers batch_size n (batch ∷ batches) state =
      let (next, outcome) = embed_batch batch_size batch (answers n (texts batch)) state in
      let (last, later) = run_batches answers batch_size (n + 1) batches next in
      (last, first_error outcome later)

  abbrev pub complete : List (Option V) → Option VectorError → Result VectorError (List V)
  complete vectors (some e) = err e
  complete vectors none = if any is_none vectors then err incomplete else ok (somes vectors)

  module _ (settings : BatchSettings) where
    unfoldable pub embed_documents :
        (ℕ → List String → Response (List V))
        → List String
        → Corpus V
        → Result VectorError (List V) × Corpus V
    unfolding batches_from run_batches
    embed_documents answers inputs c =
        let vectors = or_else c.vectors (no_vectors inputs) in
        let batch_size = or_else c.batch_size (first_size settings) in
        let batches =
          batches_from settings.batch_max_chars (length inputs) batch_size 0
            (with_vectors inputs vectors) in
        let ((after, size), outcome) =
          run_batches answers batch_size 0 batches (vectors, c.batch_size) in
        (complete after outcome, record c { vectors = some after; batch_size = size })

    abbrev pub keep :
        Result VectorError (List V) × Corpus V → Result VectorError (List V) × Corpus V
    keep (err e, c) = (err e, c)
    keep (ok vs, c) = (ok vs, record { cached = some vs; vectors = none; batch_size = none })

    -- The body of the lock in `_cached_document_vectors`, by what is cached.
    abbrev pub cached_or_new :
        (ℕ → List String → Response (List V))
        → List String
        → Corpus V
        → Option (List V)
        → Result VectorError (List V) × Corpus V
    cached_or_new answers inputs c (some vs) = (ok vs, c)
    cached_or_new answers inputs c none = keep (embed_documents answers inputs c)

    unfoldable pub cached_document_vectors :
        (ℕ → List String → Response (List V))
        → List String
        → Corpus V
        → Result VectorError (List V) × Corpus V
    unfolding embed_documents
    cached_document_vectors answers inputs c = cached_or_new answers inputs c c.cached

    -- The corpus after some attempts, of which each has the lock in its turn.
    unfoldable pub after_attempts :
        List (ℕ → List String → Response (List V)) → List String → Corpus V → Corpus V
    unfolding cached_document_vectors
    after_attempts [] inputs c = c
    after_attempts (answers ∷ attempts) inputs c =
        after_attempts attempts inputs (cached_document_vectors answers inputs c).1
