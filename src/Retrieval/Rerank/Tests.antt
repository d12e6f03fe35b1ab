-- ===== src/Retrieval/Rerank/Tests.antt =====
-- A reranking by the fallback model, with natural numbers up to 10 for scores.
use showcase_host.Prelude.{
  ℕ, ◌+◌, ◌*◌, ◌/◌, ◌≡◌, refl, String, true, false, none, some, List, [], ◌∷◌, leb, str_eq,
  if◌then◌else◌, sort_by,
}
use showcase_host.Embeddings.Calls.{
  Response, returns, provider_error, retry, retry_from, after_attempt,
}
use showcase_host.Retrieval.{Score, SearchRecord, number_of, rank_retrieved_chunks}
use showcase_host.Retrieval.Rerank.{
  RerankSettings, ranked, max_from, relevance_floor, keep_relevant, apply_reranker_scores,
  after_reranker, try_rerankers, rerank_retrieved_chunks, scored_record,
}

abbrev numbers : Score ℕ
numbers = record {
  nought = 0;
  add = λ a b. a + b;
  weigh = λ w n. w / n;
  score_leb = leb;
  parse = λ t. none;
  scale = λ a b. a * b / 10;
  in_unit = λ a. leb a 10;
}

abbrev settings : RerankSettings ℕ
settings = record {
  relevance_threshold = 3;
  relative_relevance_threshold = 5;
  retrieval_limit = 2;
  reranker_model = "BAAI/bge-reranker-v2-m3";
  fallback_model = "BAAI/bge-reranker-large";
  max_retries = 1;
}

abbrev hit : String → SearchRecord ℕ
hit id = record { id = some id; score = none; payload = none }

abbrev candidates : List (SearchRecord ℕ)
candidates = hit "a" ∷ hit "b" ∷ hit "c" ∷ []

-- The first model fails for good, the second one answers at its second attempt.
abbrev calls : String → ℕ → Response (List ℕ)
calls model_id attempt =
    if str_eq model_id "BAAI/bge-reranker-v2-m3"
    then provider_error false
    else if leb 1 attempt
    then returns (2 ∷ 6 ∷ 9 ∷ [])
    else provider_error true

abbrev results : List (SearchRecord ℕ)
results =
    scored_record numbers settings (hit "c") 9 ∷ scored_record numbers settings (hit "b") 6 ∷ []

rerank_runs : rerank_retrieved_chunks numbers settings calls candidates ≡ ranked results
unfolding rerank_retrieved_chunks try_rerankers after_reranker apply_reranker_scores keep_relevant
    relevance_floor max_from rank_retrieved_chunks number_of sort_by retry retry_from after_attempt
rerank_runs = refl
