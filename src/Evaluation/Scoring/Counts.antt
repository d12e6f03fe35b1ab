-- ===== src/Evaluation/Scoring/Counts.antt =====
-- The counts partition the gold labels, and the rank is that of the first chunk that has the target.
use showcase_host.Prelude.{
  All-append, length-append, append_assoc, append-nil, ◌≤◌, subst, ℕ, suc, ◌+◌, ◌≡◌, refl, sym, ◌∙◌,
  inl, inr, String, Bool, not, Option, none, some, List, [], ◌∷◌, ◌++◌, ◌==◌, if◌then◌else◌, length,
  All, Bool-cases, str_eq, str_eq_iff, arith,
}
use showcase_host.Evaluation.Scoring.{
  count_labels, is_retrieved, confusion_counts, RankedChunk, Target, contains, rank_from,
  repoqa_target_rank,
}

-- Every label is 0 or 1.
abbrev IsBinary : List (String × ℕ) → Type 0
IsBinary gold_labels = All (λ (entry : String × ℕ). entry.1 ≤ 1) gold_labels

-- The number of chunks that have a label.
unfoldable labelled : ℕ → List (String × ℕ) → ℕ
labelled wanted [] = 0
labelled wanted ((chunk_id, label) ∷ gold_labels) =
    let rest = labelled wanted gold_labels in if label == wanted then suc rest else rest

count_labels-split :
    (wanted : ℕ) (selected : String → Bool) (gold_labels : List (String × ℕ))
    → count_labels wanted selected gold_labels
        + count_labels wanted (λ chunk_id. not (selected chunk_id)) gold_labels
      ≡ labelled wanted gold_labels
unfolding count_labels labelled
count_labels-split wanted selected [] = omega arith
count_labels-split wanted selected ((chunk_id, label) ∷ gold_labels) =
    ground (arith, count_labels-split wanted selected gold_labels)

labelled-length :
    (gold_labels : List (String × ℕ))
    → IsBinary gold_labels
    → labelled 0 gold_labels + labelled 1 gold_labels ≡ length gold_labels
unfolding labelled
labelled-length [] h = omega arith
labelled-length ((chunk_id, label) ∷ gold_labels) h =
    ground (arith, labelled-length gold_labels h.1)

-- With binary labels the four counts add up to the labelled chunks, and the two that make the recall's
-- denominator are the chunks with label 1, whatever is retrieved.
confusion_counts-sums :
    (gold_labels : List (String × ℕ)) (retrieved_ids : List String)
    → IsBinary gold_labels
    → ((confusion_counts gold_labels retrieved_ids).true_positive
          + (confusion_counts gold_labels retrieved_ids).false_positive
          + (confusion_counts gold_labels retrieved_ids).false_negative
          + (confusion_counts gold_labels retrieved_ids).true_negative
        ≡ length gold_labels)
      × ((confusion_counts gold_labels retrieved_ids).true_positive
            + (confusion_counts gold_labels retrieved_ids).false_negative
          ≡ labelled 1 gold_labels)
unfolding confusion_counts
confusion_counts-sums gold_labels retrieved_ids h = (
  omega (
    arith,
    count_labels-split 1 (is_retrieved retrieved_ids) gold_labels,
    count_labels-split 0 (is_retrieved retrieved_ids) gold_labels,
    labelled-length gold_labels h,
  ),
  count_labels-split 1 (is_retrieved retrieved_ids) gold_labels,
)

-- A chunk of the target's file that spans its lines.
abbrev HasTarget : Target → RankedChunk → Type 0
HasTarget target chunk =
    (chunk.path ≡ target.path)
    × (chunk.start_line ≤ target.start_line)
    × (target.end_line ≤ chunk.end_line)

-- The chunks before the one at a rank lack the target, which that one has; or all lack it.
data FirstRank (target : Target) (chunks : List RankedChunk) : Option ℕ → Type 0 where
  found :
      (before : List RankedChunk) (chunk : RankedChunk) (after : List RankedChunk)
      → chunks ≡ before ++ chunk ∷ after
      → All (λ c. ¬ HasTarget target c) before
      → HasTarget target chunk
      → FirstRank target chunks (some (suc (length before)))
  missing : All (λ c. ¬ HasTarget target c) chunks → FirstRank target chunks none

rank_from-FirstRank :
    (target : Target) (rank : ℕ) (all before chunks : List RankedChunk)
    → all ≡ before ++ chunks
    → rank ≡ suc (length before)
    → All (λ c. ¬ HasTarget target c) before
    → FirstRank target all (rank_from target rank chunks)
unfolding rank_from
rank_from-FirstRank target rank all before [] split at lacking =
    missing (subst (All (λ c. ¬ HasTarget target c)) (sym (split ∙ append-nil before)) lacking)
rank_from-FirstRank target rank all before (chunk ∷ chunks) split at lacking =
    let later = λ (lacks : ¬ HasTarget target chunk).
      rank_from-FirstRank target (suc rank) all (before ++ chunk ∷ []) chunks
        (split ∙ sym (append_assoc before (chunk ∷ []) chunks))
        (omega (arith, at, length-append before (chunk ∷ [])))
        (All-append (λ c. ¬ HasTarget target c) before (chunk ∷ []) lacking (lacks, tt)) in
    elim (Bool-cases (str_eq chunk.path target.path)) [
      | inr elsewhere ↦
          rw elsewhere (later (λ h. cc (elsewhere, (str_eq_iff chunk.path target.path).1 h.0)))
      | inl here ↦ elim (Bool-cases (contains target chunk)) [
        | inl spans ↦
            rw (here, spans)
              (subst (λ n. FirstRank target all (some n)) (sym at)
                (found before chunk chunks split lacking (
                  (str_eq_iff chunk.path target.path).0 here,
                  ground (arith, spans),
                  ground (arith, spans),
                )))
        | inr outside ↦ rw (here, outside) (later (λ h. absurd (ground (arith, outside, h.1, h.2))))
      ]
    ]

-- The rank of a target is that of the first retrieved chunk of its file that spans its lines, counted
-- from 1, and there is none if no retrieved chunk does.
repoqa_target_rank-FirstRank :
    (target : Target) (chunks : List RankedChunk)
    → FirstRank target chunks (repoqa_target_rank target chunks)
unfolding repoqa_target_rank
repoqa_target_rank-FirstRank target chunks =
    rank_from-FirstRank target 1 chunks [] chunks refl (omega arith) tt
