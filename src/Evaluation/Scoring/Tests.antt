-- ===== src/Evaluation/Scoring/Tests.antt =====
-- The counts of some labels, and the rank of a target.
use showcase_host.Prelude.{ℕ, ◌≡◌, refl, String, some, List, [], ◌∷◌}
use showcase_host.Evaluation.Scoring.{
  count_labels, confusion_counts, RankedChunk, Target, rank_from, repoqa_target_rank,
}

abbrev gold_labels : List (String × ℕ)
gold_labels = ("a", 1) ∷ ("b", 0) ∷ ("c", 1) ∷ ("d", 0) ∷ []

confusion_counts_runs :
    confusion_counts gold_labels ("a" ∷ "b" ∷ "x" ∷ [])
    ≡ record { true_positive = 1; false_positive = 1; false_negative = 1; true_negative = 1 }
unfolding confusion_counts count_labels
confusion_counts_runs = refl

abbrev chunk : String → ℕ → ℕ → RankedChunk
chunk path start_line end_line = record {
  path = path;
  start_line = start_line;
  end_line = end_line;
}

abbrev target : Target
target = record { path = "p"; start_line = 5; end_line = 9 }

abbrev chunks : List RankedChunk
chunks = chunk "q" 1 20 ∷ chunk "p" 6 20 ∷ chunk "p" 5 9 ∷ chunk "p" 1 20 ∷ []

repoqa_target_rank_runs : repoqa_target_rank target chunks ≡ some 3
unfolding repoqa_target_rank rank_from
repoqa_target_rank_runs = refl
