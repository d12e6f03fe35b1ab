-- ===== src/Retrieval/Rerank/Relevance.antt =====
-- Which scores of the reranker are relevant: the floor of app/services/chat.py.
use showcase_host.Prelude.{
  ◌≡◌, refl, ◌∙◌, ◌⊎◌, inl, inr, true, false, List, [], ◌∷◌, All, In, Bool-cases,
}
use showcase_host.Retrieval.{Score}
use showcase_host.Retrieval.Rerank.{RerankSettings, relevance_floor, max_of, max_from}

module _ {F : Type 0} (scores : Score F) (settings : RerankSettings F) where
  -- A score is relevant if it is at least the threshold, and at least the relative threshold of a greatest
  -- score.
  pub record IsHigh (ss : List F) (score : F) : Type 0 where
    pub above : scores.score_leb settings.relevance_threshold score ≡ true
    pub top : F
    pub given : In top ss
    pub greatest : All (λ s. scores.score_leb s top ≡ true) ss
    pub near :
        scores.score_leb (scores.scale top settings.relative_relevance_threshold) score ≡ true

module _ {F : Type 0} (scores : Score F) (settings : RerankSettings F)
    (total : (a b : F) → scores.score_leb a b ≡ false → scores.score_leb b a ≡ true)
    (transitive : (a b c : F)
      → scores.score_leb a b ≡ true
      → scores.score_leb b c ≡ true
      → scores.score_leb a c ≡ true) where
  score_refl : (a : F) → scores.score_leb a a ≡ true
  score_refl a = elim (Bool-cases (scores.score_leb a a)) [ inl e ↦ e | inr e ↦ total a a e ]

  max_of-le :
      (a b : F)
      → (scores.score_leb a (max_of scores settings a b) ≡ true)
        × (scores.score_leb b (max_of scores settings a b) ≡ true)
  max_of-le a b = elim (Bool-cases (scores.score_leb b a)) [
    | inl e ↦ rw e (score_refl a, e)
    | inr e ↦ rw e (total b a e, score_refl b)
  ]

  max_of-eq : (a b : F) → (max_of scores settings a b ≡ a) ⊎ (max_of scores settings a b ≡ b)
  max_of-eq a b = elim (Bool-cases (scores.score_leb b a)) [
    | inl e ↦ rw e (inl refl)
    | inr e ↦ rw e (inr refl)
  ]

  -- The greatest of a number and of others is one of them, and none is greater.
  max_from-greatest :
      (m : F) (ss : List F)
      → In (max_from scores settings m ss) (m ∷ ss)
        × (scores.score_leb m (max_from scores settings m ss) ≡ true)
        × All (λ s. scores.score_leb s (max_from scores settings m ss) ≡ true) ss
  unfolding max_from
  max_from-greatest m [] = (inl refl, score_refl m, tt)
  max_from-greatest m (s ∷ ss) =
      let (among, first, rest) = max_from-greatest (max_of scores settings m s) ss in
      let (left, right) = max_of-le m s in
      (
        elim among [
          | inl here ↦ elim (max_of-eq m s) [
            | inl same ↦ inl (here ∙ same)
            | inr same ↦ inr (inl (here ∙ same))
          ]
          | inr later ↦ inr (inr later)
        ],
        transitive m (max_of scores settings m s) _ left first,
        (transitive s (max_of scores settings m s) _ right first, rest),
      )

  floor-IsHigh :
      (first : F) (others : List F) (score : F)
      → scores.score_leb (relevance_floor scores settings (first ∷ others)) score ≡ true
      → IsHigh scores settings (first ∷ others) score
  unfolding relevance_floor
  floor-IsHigh first others score reaches =
      let (among, start, rest) = max_from-greatest first others in
      let (low, relative) = max_of-le settings.relevance_threshold (
        scores.scale (max_from scores settings first others)
          settings.relative_relevance_threshold) in
      record {
        above = transitive _ _ score low reaches;
        top = max_from scores settings first others;
        given = among;
        greatest = (start, rest);
        near = transitive _ _ score relative reaches;
      }

  -- There is a greatest score, since there is a score.
  pub given-IsHigh :
      (ss : List F) (score : F)
      → scores.score_leb (relevance_floor scores settings ss) score ≡ true
      → In score ss
      → IsHigh scores settings ss score
  given-IsHigh [] score reaches given = absurd given
  given-IsHigh (s ∷ ss) score reaches given = floor-IsHigh s ss score reaches
