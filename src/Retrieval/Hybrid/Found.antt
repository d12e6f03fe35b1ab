-- ===== src/Retrieval/Hybrid/Found.antt =====
-- Every chunk that a question retrieves comes from one of the channels.
use showcase_host.Prelude.{
  ℕ, suc, ◌≤◌, ◌≡◌, refl, sym, ap, ◌∙◌, ◌⊎◌, inl, inr, String, true, false, Option, none, some,
  List, [], ◌∷◌, or_else, take, length, All, All-take, All-In, In, In-All, Bool-cases, str_eq,
  str_eq_iff, sort_by, sort_by-All, subst,
}
use showcase_host.Embeddings.Calls.{Response}
use showcase_host.Retrieval.{Score, SearchRecord, rank_retrieved_chunks, ranks_before}
use showcase_host.Retrieval.Fusion.{first_rank, IsScored, reciprocal_rank_fusion-IsScored, score_of}
use showcase_host.Retrieval.Rerank.{ranked, rerank_retrieved_chunks}
use showcase_host.Retrieval.Rerank.Gate.{
  IsReranked, IsRelevant, scored, rerank_retrieved_chunks-IsReranked, ranked_records,
}
use showcase_host.Retrieval.Hybrid.{
  HybridSettings, pool, fused_limit, configured_retrieval_candidates, retrieve,
}

scored-In :
    {F : Type 0} (candidates : List (SearchRecord F)) (ss : List F) (c : SearchRecord F) (s : F)
    → In (c, s) (scored candidates ss)
    → In c candidates
scored-In [] ss c s h = h
scored-In (d ∷ candidates) [] c s h = absurd h
scored-In (d ∷ candidates) (t ∷ ss) c s (inl here) = inl (ap (λ (x : SearchRecord _ × _). x.0) here)
scored-In (d ∷ candidates) (t ∷ ss) c s (inr later) = inr (scored-In candidates ss c s later)

Option-cases : (o : Option ℕ) → (o ≡ none) ⊎ ((k : ℕ) × (o ≡ some k))
Option-cases none = inl refl
Option-cases (some k) = inr (k, refl)

module _ {F : Type 0} where
  -- A chunk of a channel with an identifier.
  abbrev Has : String → List (SearchRecord F) → Type 0
  Has id channel = (r : SearchRecord F) × In r channel × (or_else r.id "" ≡ id)

  first_rank-Has :
      (id : String) (rank k : ℕ) (channel : List (SearchRecord F))
      → first_rank id rank channel ≡ some k
      → Has id channel
  unfolding first_rank
  first_rank-Has id rank k [] e = absurd (cc e)
  first_rank-Has id rank k (r ∷ channel) e = elim (Bool-cases (str_eq (or_else r.id "") id)) [
    | inl here ↦ (r, inl refl, (str_eq_iff (or_else r.id "") id).0 here)
    | inr other ↦
        let later = first_rank-Has id (suc rank) k channel (rw other at e) in
        (later.0, inr later.1, later.2)
  ]

module _ {F : Type 0} (scores : Score F) where
  rank-Has :
      (id : String) (channel : List (SearchRecord F))
      → Has id (rank_retrieved_chunks scores channel)
      → Has id channel
  unfolding rank_retrieved_chunks
  rank-Has id channel (r, m, e) = (
    r,
    All-In (λ (x : SearchRecord F). In x channel) r (sort_by (ranks_before scores) channel)
        (sort_by-All (ranks_before scores) (λ (x : SearchRecord F). In x channel) channel
          (In-All channel (λ x n. n)))
        m,
    e,
  )

  take-Has :
      (id : String) (limit : ℕ) (channel : List (SearchRecord F))
      → Has id (take limit channel)
      → Has id channel
  take-Has id limit channel (r, m, e) = (
    r,
    All-In (λ (x : SearchRecord F). In x channel) r (take limit channel)
        (All-take (λ (x : SearchRecord F). In x channel) limit channel (In-All channel (λ x n. n)))
        m,
    e,
  )

  score_of-Has :
      (dense_weight keyword_weight : F) (k : ℕ) (dense keyword : List (SearchRecord F))
      (id : String) (s : F)
      → score_of scores dense_weight keyword_weight k dense keyword id ≡ some s
      → Has id dense ⊎ Has id keyword
  score_of-Has dense_weight keyword_weight k dense keyword id s e =
      elim (Option-cases (first_rank id 1 (rank_retrieved_chunks scores dense))) [
        | inr (n, d) ↦
            inl (rank-Has id dense (first_rank-Has id 1 n (rank_retrieved_chunks scores dense) d))
        | inl out ↦ elim (Option-cases (first_rank id 1 (rank_retrieved_chunks scores keyword))) [
          | inr (n, w) ↦
              inr (
                rank-Has id keyword
                  (first_rank-Has id 1 n (rank_retrieved_chunks scores keyword) w))
          | inl also_out ↦ absurd (cc (rw (out, also_out) at e))
        ]
      ]

  -- A result with an identifier that one of the channels has.
  abbrev IsFound : List (SearchRecord F) → List (SearchRecord F) → SearchRecord F → Type 0
  IsFound dense keyword r =
      (id : String) × (r.id ≡ some id) × (str_eq id "" ≡ false) × (Has id dense ⊎ Has id keyword)

module _ {F : Type 0} (scores : Score F) (settings : HybridSettings F) where
  pool-Has :
      (id : String) (channel : List (SearchRecord F))
      → Has id (pool scores settings channel)
      → Has id channel
  pool-Has id channel h =
      rank-Has scores id channel (take-Has scores id _ (rank_retrieved_chunks scores channel) h)

  scored-IsFound :
      (dense keyword : List (SearchRecord F)) (r : SearchRecord F)
      → IsScored scores settings.dense_weight settings.keyword_weight settings.rrf_k
          (pool scores settings dense)
          (pool scores settings keyword)
          r
      → IsFound scores dense keyword r
  scored-IsFound dense keyword r (id, s, named, some_id, scored, given) =
      elim (score_of-Has scores settings.dense_weight settings.keyword_weight settings.rrf_k
        (pool scores settings dense) (pool scores settings keyword) id s given) [
          | inl d ↦ (id, named, some_id, inl (pool-Has id dense d))
          | inr w ↦ (id, named, some_id, inr (pool-Has id keyword w))
        ]

  configured_retrieval_candidates-IsFound :
      (dense keyword : List (SearchRecord F))
      → All
          (IsFound scores dense keyword)
          (configured_retrieval_candidates scores settings dense keyword)
        × (length (configured_retrieval_candidates scores settings dense keyword)
            ≤ fused_limit scores settings)
  unfolding configured_retrieval_candidates
  configured_retrieval_candidates-IsFound dense keyword =
      let all =
        reciprocal_rank_fusion-IsScored scores settings.dense_weight settings.keyword_weight
          settings.rrf_k (pool scores settings dense) (pool scores settings keyword)
          (fused_limit scores settings) in
      (In-All _ (λ r m. scored-IsFound dense keyword r (All-In _ r _ all.0 m)), all.1)

  module _ (total : (a b : F) → scores.score_leb a b ≡ false → scores.score_leb b a ≡ true)
      (transitive : (a b c : F)
        → scores.score_leb a b ≡ true
        → scores.score_leb b c ≡ true
        → scores.score_leb a c ≡ true) where
    relevant-IsFound :
        (dense keyword candidates : List (SearchRecord F)) (ss : List F) (r : SearchRecord F)
        → All (IsFound scores dense keyword) candidates
        → IsRelevant scores settings.reranking total transitive candidates ss r
        → IsFound scores dense keyword r
    relevant-IsFound dense keyword candidates ss r all h =
        let (id, named, some_id, where_) =
          All-In (IsFound scores dense keyword) h.candidate candidates all
            (scored-In candidates ss h.candidate h.score h.own) in
        (id, h.named ∙ ap (λ o. some (or_else o "")) named, some_id, where_)

    -- What a retrieval of some candidates returns.
    pub record IsRetrieved (calls : List (SearchRecord F) → String → ℕ → Response (List F))
        (dense keyword candidates records : List (SearchRecord F)) : Type 0 where
      pub candidates_found : All (IsFound scores dense keyword) candidates
      pub candidate_count : length candidates ≤ fused_limit scores settings
      pub found : All (IsFound scores dense keyword) records
      pub reranked :
          ((candidates ≡ []) × (records ≡ []))
          ⊎ IsReranked scores settings.reranking total transitive
              (calls candidates)
              candidates
              records

    reranked-IsRetrieved :
        (calls : List (SearchRecord F) → String → ℕ → Response (List F))
        (dense keyword candidates records : List (SearchRecord F))
        → All (IsFound scores dense keyword) candidates
        → length candidates ≤ fused_limit scores settings
        → rerank_retrieved_chunks scores settings.reranking (calls candidates) candidates
          ≡ ranked records
        → IsRetrieved calls dense keyword candidates records
    unfolding rerank_retrieved_chunks
    reranked-IsRetrieved calls dense keyword [] records all count e =
        let nothing = ranked_records e in
        record {
          candidates_found = tt;
          candidate_count = count;
          found = subst (All (IsFound scores dense keyword)) nothing tt;
          reranked = inl (refl, sym nothing);
        }
    reranked-IsRetrieved calls dense keyword (c ∷ candidates) records all count e =
        let h =
          rerank_retrieved_chunks-IsReranked scores settings.reranking total transitive
            (calls (c ∷ candidates)) (c ∷ candidates) records (λ n. cc n) e in
        record {
          candidates_found = all;
          candidate_count = count;
          found = In-All records (λ r m.
              relevant-IsFound dense keyword (c ∷ candidates) h.ss r all
                (All-In _ r records h.relevant m));
          reranked = inr h;
        }

    -- If a retrieval returns, for scores that are ordered by a total and transitive comparison, then the
    -- candidates are at most the limit of the fusion, and every candidate and every result has an identifier
    -- that the dense or the keyword channel found. Without candidates there is no result; otherwise a configured
    -- model answered within its attempts with a normalized score for each candidate. Every result is a candidate
    -- with its own score of that answer in place of the old one and in the payload; this score is at least the
    -- threshold and at least the relative threshold of a greatest score. The results are sorted and at most the
    -- limit of the retrieval.
    pub retrieve-IsRetrieved :
        (calls : List (SearchRecord F) → String → ℕ → Response (List F))
        (dense keyword records : List (SearchRecord F))
        → retrieve scores settings calls dense keyword ≡ ranked records
        → IsRetrieved calls dense keyword
            (configured_retrieval_candidates scores settings dense keyword)
            records
    unfolding retrieve
    retrieve-IsRetrieved calls dense keyword records e =
        let all = configured_retrieval_candidates-IsFound dense keyword in
        reranked-IsRetrieved calls dense keyword
          (configured_retrieval_candidates scores settings dense keyword) records all.0 all.1 e
