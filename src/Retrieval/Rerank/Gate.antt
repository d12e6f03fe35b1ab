-- ===== src/Retrieval/Rerank/Gate.antt =====
-- The gate of the reranker: which candidates pass it, and in which order.
use showcase_host.Prelude.{
  subst, ◌≤◌, ℕ, zero, suc, ◌≡◌, refl, sym, ◌∙◌, inl, inr, some, or_else, String, Bool, true, false,
  List, [], ◌∷◌, ==_iff, ◌==◌, take, length, All, All-take, In, Bool-cases, sort_by, sort_by-All,
  sort_by-IsSorted, IsSorted, length-take-le, arith,
}
use showcase_host.Embeddings.Calls.{Response, returns, provider_error, other_error, retry}
use showcase_host.Embeddings.Retry.{retry-Decides}
use showcase_host.Retrieval.{
  Score, SearchRecord, number, number_of, quality, payload_of, ranks_before, rank_retrieved_chunks,
}
use showcase_host.Retrieval.Rerank.{
  RerankSettings, Reranked, ranked, all_in_unit, relevance_floor, keep_relevant,
  apply_reranker_scores, reranked_of, after_reranker, try_rerankers, model_ids,
  rerank_retrieved_chunks, is_reranker_model,
}
use showcase_host.Retrieval.Rerank.Relevance.{IsHigh, given-IsHigh}

IsSorted-take :
    {A : Type 0} (le : A → A → Bool) (n : ℕ) (xs : List A)
    → IsSorted le xs
    → IsSorted le (take n xs)
IsSorted-take le zero xs h = tt
IsSorted-take le (suc n) [] h = tt
IsSorted-take le (suc zero) (x ∷ xs) h = tt
IsSorted-take le (suc (suc n)) (x ∷ []) h = tt
IsSorted-take le (suc (suc n)) (x ∷ y ∷ xs) h = (h.0, IsSorted-take le (suc n) (y ∷ xs) h.1)

pub ranked_records : {F : Type 0} {a b : List (SearchRecord F)} → ranked a ≡ ranked b → a ≡ b
ranked_records e = cc e

-- Each candidate with its score.
abbrev pub scored : {F : Type 0} → List (SearchRecord F) → List F → List (SearchRecord F × F)
scored [] ss = []
scored (c ∷ candidates) [] = []
scored (c ∷ candidates) (s ∷ ss) = (c, s) ∷ scored candidates ss

module _ {F : Type 0} (scores : Score F) (settings : RerankSettings F)
    (total : (a b : F) → scores.score_leb a b ≡ false → scores.score_leb b a ≡ true)
    (transitive : (a b c : F)
      → scores.score_leb a b ≡ true
      → scores.score_leb b c ≡ true
      → scores.score_leb a c ≡ true) where
  -- A candidate whose own score is relevant, with the score of the reranker as the new one and in the payload.
  pub record IsRelevant (candidates : List (SearchRecord F)) (ss : List F) (r : SearchRecord F)
      : Type 0 where
    pub candidate : SearchRecord F
    pub score : F
    pub own : In (candidate, score) (scored candidates ss)
    pub high : IsHigh scores settings ss score
    pub named : r.id ≡ some (or_else candidate.id "")
    pub rescored : r.score ≡ some (number score)
    pub paid : r.payload ≡ some (("reranker_score", number score) ∷ payload_of candidate)

  -- A reranking by the scores of an attempt that one of the models answered.
  pub record IsReranked (calls : String → ℕ → Response (List F))
      (candidates : List (SearchRecord F)) (records : List (SearchRecord F)) : Type 0 where
    pub model_id : String
    pub attempt : ℕ
    pub ss : List F
    pub model : In model_id (model_ids scores settings)
    pub attempts : attempt ≤ settings.max_retries
    pub answered : calls model_id attempt ≡ returns ss
    pub one_each : length candidates ≡ length ss
    pub normalized : all_in_unit scores ss ≡ true
    pub relevant : All (IsRelevant candidates ss) records
    pub sorted : IsSorted (ranks_before scores) records
    pub count : length records ≤ settings.retrieval_limit

  ranks_before-total :
      (a b : SearchRecord F) → ranks_before scores a b ≡ false → ranks_before scores b a ≡ true
  ranks_before-total a b h = ground (
    arith,
    total (number_of scores a.score) (number_of scores b.score),
    total (quality scores (payload_of a)) (quality scores (payload_of b)),
  )

  keep_relevant-IsRelevant :
      (all_candidates : List (SearchRecord F)) (all_ss : List F)
      (candidates : List (SearchRecord F)) (ss : List F)
      → ((score : F)
          → scores.score_leb (relevance_floor scores settings all_ss) score ≡ true
          → In score ss
          → IsHigh scores settings all_ss score)
      → ((x : SearchRecord F × F)
          → In x (scored candidates ss)
          → In x (scored all_candidates all_ss))
      → All
          (IsRelevant all_candidates all_ss)
          (keep_relevant scores settings (relevance_floor scores settings all_ss) candidates ss)
  unfolding keep_relevant
  keep_relevant-IsRelevant all_candidates all_ss [] ss high within = tt
  keep_relevant-IsRelevant all_candidates all_ss (c ∷ candidates) [] high within = tt
  keep_relevant-IsRelevant all_candidates all_ss (c ∷ candidates) (s ∷ ss) high within =
      let rest =
        keep_relevant-IsRelevant all_candidates all_ss candidates ss (λ t h m. high t h (inr m))
          (λ x m. within x (inr m)) in
      elim (Bool-cases (scores.score_leb (relevance_floor scores settings all_ss) s)) [
        | inl reaches ↦ rw reaches (
          record {
            candidate = c;
            score = s;
            own = within (c, s) (inl refl);
            high = high s reaches (inl refl);
            named = refl;
            rescored = refl;
            paid = refl;
          },
          rest,
        )
        | inr below ↦ rw below rest
      ]

  abbrev kept : List (SearchRecord F) → List F → List (SearchRecord F)
  kept candidates ss =
      keep_relevant scores settings (relevance_floor scores settings ss) candidates ss

  -- What the gate makes of one answer.
  apply_reranker_scores-IsReranked :
      (calls : String → ℕ → Response (List F)) (candidates : List (SearchRecord F))
      (model_id : String) (attempt : ℕ) (ss : List F)
      → In model_id (model_ids scores settings)
      → attempt ≤ settings.max_retries
      → calls model_id attempt ≡ returns ss
      → (records : List (SearchRecord F))
      → reranked_of scores settings (apply_reranker_scores scores settings candidates ss)
        ≡ ranked records
      → IsReranked calls candidates records
  unfolding apply_reranker_scores rank_retrieved_chunks
  apply_reranker_scores-IsReranked calls candidates model_id attempt ss known bounded answered
        records =
      elim (Bool-cases (length candidates == length ss)) [
        | inr differ ↦ rw differ (λ e. absurd (cc e))
        | inl same ↦ elim (Bool-cases (all_in_unit scores ss)) [
          | inr invalid ↦ rw (same, invalid) (λ e. absurd (cc e))
          | inl valid ↦
              rw (same, valid)
                (λ e.
                  subst (λ (rs : List (SearchRecord F)). IsReranked calls candidates rs)
                    (ranked_records e)
                    (record {
                      model_id = model_id;
                      attempt = attempt;
                      ss = ss;
                      model = known;
                      attempts = bounded;
                      answered = answered;
                      one_each = (==_iff (length candidates) (length ss)).0 same;
                      normalized = valid;
                      relevant =
                          All-take (IsRelevant candidates ss) settings.retrieval_limit
                            (sort_by (ranks_before scores) (kept candidates ss))
                            (sort_by-All (ranks_before scores) (IsRelevant candidates ss)
                              (kept candidates ss)
                              (keep_relevant-IsRelevant candidates ss candidates ss
                                (given-IsHigh scores settings total transitive ss) (λ x m. m)));
                      sorted =
                          IsSorted-take (ranks_before scores) settings.retrieval_limit
                            (sort_by (ranks_before scores) (kept candidates ss))
                            (sort_by-IsSorted (ranks_before scores) ranks_before-total
                              (kept candidates ss));
                      count =
                          length-take-le settings.retrieval_limit
                            (sort_by (ranks_before scores) (kept candidates ss));
                    }))
        ]
      ]

  answer-IsReranked :
      (calls : String → ℕ → Response (List F)) (candidates : List (SearchRecord F))
      (records : List (SearchRecord F)) (next : Reranked F) (m : String) (r : Response (List F))
      → In m (model_ids scores settings)
      → retry settings.max_retries (calls m) ≡ r
      → (next ≡ ranked records → IsReranked calls candidates records)
      → after_reranker scores settings candidates next r ≡ ranked records
      → IsReranked calls candidates records
  unfolding after_reranker
  answer-IsReranked calls candidates records next m (returns ss) known retried later e =
      let decided = retry-Decides settings.max_retries (calls m) in
      apply_reranker_scores-IsReranked calls candidates m decided.attempt ss known decided.bounded
        (sym decided.decided ∙ retried) records e
  answer-IsReranked calls candidates records next m (provider_error r) known retried later e =
      later e
  answer-IsReranked calls candidates records next m other_error known retried later e =
      absurd (cc e)

  try_rerankers-IsReranked :
      (calls : String → ℕ → Response (List F)) (candidates : List (SearchRecord F))
      (ids : List String) (records : List (SearchRecord F))
      → ((m : String) → In m ids → In m (model_ids scores settings))
      → try_rerankers scores settings calls candidates ids ≡ ranked records
      → IsReranked calls candidates records
  unfolding try_rerankers
  try_rerankers-IsReranked calls candidates [] records within = λ e. absurd (cc e)
  try_rerankers-IsReranked calls candidates (m ∷ ids) records within =
      elim (Bool-cases (is_reranker_model m)) [
        | inr unknown ↦ rw unknown (λ e. absurd (cc e))
        | inl known ↦ rw known (
            answer-IsReranked calls candidates records
              (try_rerankers scores settings calls candidates ids) m
              (retry settings.max_retries (calls m)) (within m (inl refl)) refl
              (λ e.
                try_rerankers-IsReranked calls candidates ids records (λ n k. within n (inr k)) e))
      ]

  -- If the reranking of some candidates returns, one of the configured models answered, within its
  -- attempts, with a normalized score for each candidate; every result is a candidate whose own score is
  -- relevant among these, and the results are sorted and at most the limit.
  pub rerank_retrieved_chunks-IsReranked :
      (calls : String → ℕ → Response (List F)) (candidates records : List (SearchRecord F))
      → ¬ candidates ≡ []
      → rerank_retrieved_chunks scores settings calls candidates ≡ ranked records
      → IsReranked calls candidates records
  unfolding rerank_retrieved_chunks
  rerank_retrieved_chunks-IsReranked calls [] records some_left e = absurd (some_left refl)
  rerank_retrieved_chunks-IsReranked calls (c ∷ candidates) records some_left e =
      try_rerankers-IsReranked calls (c ∷ candidates) (model_ids scores settings) records (λ m k. k)
        e
