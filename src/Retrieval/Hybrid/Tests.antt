-- ===== src/Retrieval/Hybrid/Tests.antt =====
-- A retrieval with natural numbers for scores, which the second model reranks.
use showcase_host.Prelude.{
  ℕ, ◌+◌, ◌*◌, ◌/◌, ◌≡◌, refl, String, true, false, none, some, List, [], ◌∷◌, leb, str_eq,
  if◌then◌else◌, sort_by, arith,
}
use showcase_host.Embeddings.Calls.{
  Response, returns, provider_error, retry, retry_from, after_attempt,
}
use showcase_host.Retrieval.{
  Score, number, SearchRecord, number_of, rank_retrieved_chunks, fuse_entry, fuse_channel,
  fuse_channels, reciprocal_rank_fusion,
}
use showcase_host.Retrieval.Rerank.{
  ranked, max_from, relevance_floor, keep_relevant, apply_reranker_scores, after_reranker,
  try_rerankers, rerank_retrieved_chunks, scored_record,
}
use showcase_host.Retrieval.Hybrid.{HybridSettings, configured_retrieval_candidates, retrieve}
use showcase_host.Retrieval.Hybrid.Found.{IsRetrieved, retrieve-IsRetrieved}

abbrev numbers : Score ℕ
numbers = record {
  nought = 0;
  add = λ a b. a + b;
  weigh = λ w n. w / n;
  score_leb = leb;
  parse = λ t. none;
  scale = λ a b. a * b / 10;
  in_unit = λ a. leb a 10;
}

numbers-total : (a b : ℕ) → leb a b ≡ false → leb b a ≡ true
numbers-total a b h = ground arith

numbers-transitive : (a b c : ℕ) → leb a b ≡ true → leb b c ≡ true → leb a c ≡ true
numbers-transitive a b c h k = ground arith

abbrev settings : HybridSettings ℕ
settings = record {
  retrieval_candidate_limit = 2;
  rerank_candidate_limit = 3;
  rrf_k = 60;
  dense_weight = 62000;
  keyword_weight = 61000;
  reranking = record {
    relevance_threshold = 3;
    relative_relevance_threshold = 5;
    retrieval_limit = 2;
    reranker_model = "BAAI/bge-reranker-v2-m3";
    fallback_model = "BAAI/bge-reranker-large";
    max_retries = 1;
  };
}

abbrev hit : String → ℕ → SearchRecord ℕ
hit id score = record { id = some id; score = some (number score); payload = none }

-- The pools hold the two best of each: "b" and "d", "a" and "c".
abbrev dense : List (SearchRecord ℕ)
dense = hit "a" 5 ∷ hit "b" 9 ∷ hit "d" 6 ∷ []

abbrev keyword : List (SearchRecord ℕ)
keyword = hit "a" 3 ∷ hit "c" 2 ∷ []

abbrev fused : String → ℕ → SearchRecord ℕ
fused id score = record { id = some id; score = some (number score); payload = some [] }

candidates_run :
    configured_retrieval_candidates numbers settings dense keyword
    ≡ fused "b" 1016 ∷ fused "a" 1000 ∷ fused "d" 1000 ∷ []
unfolding configured_retrieval_candidates reciprocal_rank_fusion fuse_channels fuse_channel
    fuse_entry rank_retrieved_chunks number_of sort_by
candidates_run = refl

-- The first model fails for good, and the second one answers.
abbrev calls : List (SearchRecord ℕ) → String → ℕ → Response (List ℕ)
calls candidates model_id attempt =
    if str_eq model_id "BAAI/bge-reranker-v2-m3"
    then provider_error false
    else returns (2 ∷ 6 ∷ 9 ∷ [])

abbrev results : List (SearchRecord ℕ)
results =
    scored_record numbers settings.reranking (fused "d" 1000) 9
    ∷ scored_record numbers settings.reranking (fused "a" 1000) 6
    ∷ []

retrieve_runs : retrieve numbers settings calls dense keyword ≡ ranked results
unfolding retrieve configured_retrieval_candidates reciprocal_rank_fusion fuse_channels fuse_channel
    fuse_entry rerank_retrieved_chunks try_rerankers after_reranker apply_reranker_scores
    keep_relevant relevance_floor max_from rank_retrieved_chunks number_of sort_by retry retry_from
    after_attempt
retrieve_runs = refl

retrieve-IsRetrieved_example :
    IsRetrieved numbers settings numbers-total numbers-transitive calls dense keyword
      (configured_retrieval_candidates numbers settings dense keyword)
      results
retrieve-IsRetrieved_example =
    retrieve-IsRetrieved numbers settings numbers-total numbers-transitive calls dense keyword
      results retrieve_runs
