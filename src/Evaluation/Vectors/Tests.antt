-- ===== src/Evaluation/Vectors/Tests.antt =====
-- Runs of the cache of document vectors. The vector of a text is its length.
use showcase_host.Prelude.{
  ℕ, zero, suc, ◌≡◌, refl, String, true, Option, none, some, List, [], ◌∷◌, map, str_len, arith,
}
use showcase_host.Prelude.Results.{ok, err}
use showcase_host.Embeddings.Calls.{Response, returns, provider_error}
use showcase_host.Evaluation.Vectors.{
  BatchSettings, provider_failed, new_corpus, batches_from, with_vectors, no_vectors,
  cached_document_vectors, after_attempts,
}
use showcase_host.Evaluation.Vectors.Runs.{IsFaithful, IsAnswering}
use showcase_host.Evaluation.Vectors.Cached.{cached_document_vectors-eq-map}

abbrev settings : BatchSettings
settings = record { embedding_batch_size = 8; evaluation_batch_size = 2; batch_max_chars = 10 }

abbrev inputs : List String
inputs = "a" ∷ "bb" ∷ "ccc" ∷ "a long text without end" ∷ "dd" ∷ []

-- The first request is answered, all others are refused for now.
abbrev first_only : ℕ → List String → Response (List ℕ)
first_only zero ts = returns (map str_len ts)
first_only (suc n) ts = provider_error true

abbrev answer_all : ℕ → List String → Response (List ℕ)
answer_all n ts = returns (map str_len ts)

abbrev unknown : List (Option ℕ)
unknown = no_vectors inputs

cut_to_limits :
    batches_from 10 5 2 0 (with_vectors inputs unknown)
    ≡ ((0, "a") ∷ (1, "bb") ∷ [])
      ∷ ((2, "ccc") ∷ [])
      ∷ ((3, "a long text without end") ∷ [])
      ∷ ((4, "dd") ∷ [])
      ∷ []
unfolding batches_from
cut_to_limits = refl

-- The finished batch stays, and later batches have half the size.
failed_attempt : cached_document_vectors settings first_only inputs new_corpus ≡ (
  err (provider_failed true),
  record {
    cached = none;
    vectors = some (some 1 ∷ some 2 ∷ none ∷ none ∷ none ∷ []);
    batch_size = some 1;
  },
)
unfolding cached_document_vectors
failed_attempt = refl

next_attempt :
    cached_document_vectors settings answer_all inputs
      (cached_document_vectors settings first_only inputs new_corpus).1
    ≡ (
      ok (1 ∷ 2 ∷ 3 ∷ 23 ∷ 2 ∷ []),
      record { cached = some (1 ∷ 2 ∷ 3 ∷ 23 ∷ 2 ∷ []); vectors = none; batch_size = none },
    )
unfolding cached_document_vectors
next_attempt = refl

returned : {A : Type 0} {a b : A} → returns a ≡ returns b → b ≡ a
returned h = cc h

first_only-IsFaithful : IsFaithful str_len first_only
first_only-IsFaithful zero ts vs e same = returned e
first_only-IsFaithful (suc n) ts vs e same = absurd (cc e)

answer_all-IsAnswering : IsAnswering str_len 2 inputs 10 answer_all
answer_all-IsAnswering n batch within = refl

cached_document_vectors-eq-map_example :
    (cached_document_vectors settings answer_all inputs
      (after_attempts settings (first_only ∷ []) inputs new_corpus)).0
    ≡ ok (map str_len inputs)
cached_document_vectors-eq-map_example =
    cached_document_vectors-eq-map str_len settings inputs (omega arith) (first_only ∷ [])
      answer_all (first_only-IsFaithful, tt) answer_all-IsAnswering
