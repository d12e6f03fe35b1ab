-- ===== src/Retrieval/Rerank.antt =====
-- The reranking of candidates in app/services/chat.py, with app/integrations/reranking/catalog.py. A call
-- of a provider ends as a `Response`: with scores, a `RerankerProviderError` or another exception.
pub mod Relevance
pub mod Gate
mod Tests
use showcase_host.Prelude.{
  ℕ, zero, suc, ◌+◌, ◌≡◌, ◌⊎◌, String, Bool, true, false, not, ◌||◌, ◌&&◌, Option, none, some, List,
  [], ◌∷◌, ◌++◌, leb, ltb, ◌==◌, if◌then◌else◌, or_else, any, take, map, length, str_eq,
}
use showcase_host.Embeddings.Calls.{Response, returns, provider_error, other_error, retry}
use showcase_host.Retrieval.{Score, Value, number, SearchRecord, payload_of, rank_retrieved_chunks}

pub record RerankSettings (F : Type 0) : Type 0 where
  pub relevance_threshold : F
  pub relative_relevance_threshold : F
  pub retrieval_limit : ℕ
  pub reranker_model : String
  pub fallback_model : String
  pub max_retries : ℕ

-- What reranking comes to; a `ValueError` and the other exceptions are `fails`.
pub data Reranked (F : Type 0) : Type 0 where
  ranked : List (SearchRecord F) → Reranked F
  provider_fails : Reranked F
  fails : Reranked F

-- `model_id in RERANKER_BY_ID`, without which `require_reranker_model` raises a `ValueError`.
abbrev pub is_reranker_model : String → Bool
is_reranker_model model_id =
    str_eq model_id "BAAI/bge-reranker-v2-m3" || str_eq model_id "BAAI/bge-reranker-large"

abbrev pub all_in_unit : {F : Type 0} → Score F → List F → Bool
all_in_unit scores [] = true
all_in_unit scores (s ∷ ss) = scores.in_unit s && all_in_unit scores ss

module _ {F : Type 0} (scores : Score F) (settings : RerankSettings F) where
  -- `max` of two numbers: the first one unless the second is greater.
  abbrev pub max_of : F → F → F
  max_of a b = if scores.score_leb b a then a else b

  unfoldable pub max_from : F → List F → F
  max_from m [] = m
  max_from m (s ∷ ss) = max_from (max_of m s) ss

  -- `max(normalized_scores, default=0.0)`.
  abbrev max_score : List F → F
  max_score [] = scores.nought
  max_score (s ∷ ss) = max_from s ss

  unfoldable pub relevance_floor : List F → F
  relevance_floor ss =
      max_of settings.relevance_threshold
        (scores.scale (max_score ss) settings.relative_relevance_threshold)

  abbrev pub scored_record : SearchRecord F → F → SearchRecord F
  scored_record candidate score = record {
    id = some (or_else candidate.id "");
    score = some (number score);
    payload = some (("reranker_score", number score) ∷ payload_of candidate);
  }

  unfoldable pub keep_relevant : F → List (SearchRecord F) → List F → List (SearchRecord F)
  keep_relevant floor [] ss = []
  keep_relevant floor (c ∷ candidates) [] = []
  keep_relevant floor (c ∷ candidates) (s ∷ ss) =
      let rest = keep_relevant floor candidates ss in
      if scores.score_leb floor s then scored_record c s ∷ rest else rest

  -- `none` is a `ValueError`.
  unfoldable pub apply_reranker_scores :
      List (SearchRecord F) → List F → Option (List (SearchRecord F))
  apply_reranker_scores candidates ss =
      if not (length candidates == length ss)
      then none
      else if not (all_in_unit scores ss)
      then none
      else some (
          take settings.retrieval_limit
            (rank_retrieved_chunks scores (keep_relevant (relevance_floor ss) candidates ss)))

  abbrev pub reranked_of : Option (List (SearchRecord F)) → Reranked F
  reranked_of none = fails
  reranked_of (some records) = ranked records

  -- `break` after a model's last attempt leads to the next model, which is `next`.
  unfoldable pub after_reranker :
      List (SearchRecord F) → Reranked F → Response (List F) → Reranked F
  after_reranker candidates next (returns ss) = reranked_of (apply_reranker_scores candidates ss)
  after_reranker candidates next (provider_error r) = next
  after_reranker candidates next other_error = fails

  -- The loop over the models. The one over a model's attempts is that of `_retry`, with a `break` where
  -- that raises; `calls` gives how each attempt of a model ends.
  unfoldable pub try_rerankers :
      (String → ℕ → Response (List F)) → List (SearchRecord F) → List String → Reranked F
  try_rerankers calls candidates [] = provider_fails
  try_rerankers calls candidates (model_id ∷ model_ids) =
      let next = try_rerankers calls candidates model_ids in
      if is_reranker_model model_id
      then after_reranker candidates next (retry settings.max_retries (calls model_id))
      else fails

  abbrev pub model_ids : List String
  model_ids =
      if str_eq settings.fallback_model settings.reranker_model
      then settings.reranker_model ∷ []
      else settings.reranker_model ∷ settings.fallback_model ∷ []

  unfoldable pub rerank_retrieved_chunks :
      (String → ℕ → Response (List F)) → List (SearchRecord F) → Reranked F
  rerank_retrieved_chunks calls [] = ranked []
  rerank_retrieved_chunks calls (c ∷ candidates) = try_rerankers calls (c ∷ candidates) model_ids
