-- ===== src/Retrieval/Hybrid.antt =====
-- The retrieval of a question in app/services/chat.py, from the two channels to the reranked chunks.
pub mod Found
mod Tests
use showcase_host.Prelude.{ℕ, max, String, List, take}
use showcase_host.Embeddings.Calls.{Response}
use showcase_host.Retrieval.{Score, SearchRecord, rank_retrieved_chunks, reciprocal_rank_fusion}
use showcase_host.Retrieval.Rerank.{RerankSettings, Reranked, rerank_retrieved_chunks}

pub record HybridSettings (F : Type 0) : Type 0 where
  pub retrieval_candidate_limit : ℕ
  pub rerank_candidate_limit : ℕ
  pub rrf_k : ℕ
  pub dense_weight : F
  pub keyword_weight : F
  pub reranking : RerankSettings F

module _ {F : Type 0} (scores : Score F) (settings : HybridSettings F) where
  abbrev candidate_limit : ℕ
  candidate_limit = max settings.retrieval_candidate_limit settings.reranking.retrieval_limit

  abbrev pub pool : List (SearchRecord F) → List (SearchRecord F)
  pool channel = take candidate_limit (rank_retrieved_chunks scores channel)

  abbrev pub fused_limit : ℕ
  fused_limit = max settings.rerank_candidate_limit settings.reranking.retrieval_limit

  unfoldable pub configured_retrieval_candidates :
      List (SearchRecord F) → List (SearchRecord F) → List (SearchRecord F)
  configured_retrieval_candidates dense keyword =
      reciprocal_rank_fusion scores (pool dense) (pool keyword) fused_limit settings.rrf_k
        settings.dense_weight settings.keyword_weight

  -- What both channels found, fused and reranked. `calls` gives how each attempt of a model ends for the
  -- passages of some candidates.
  unfoldable pub retrieve :
      (List (SearchRecord F) → String → ℕ → Response (List F))
      → List (SearchRecord F)
      → List (SearchRecord F)
      → Reranked F
  unfolding configured_retrieval_candidates
  retrieve calls dense keyword =
      let candidates = configured_retrieval_candidates dense keyword in
      rerank_retrieved_chunks scores settings.reranking (calls candidates) candidates
