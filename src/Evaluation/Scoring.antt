-- ===== src/Evaluation/Scoring.antt =====
-- The confusion counts and the rank of a target in app/evaluation/scoring.py.
pub mod Counts
mod Tests
use showcase_host.Prelude.{
  ℕ, suc, ◌+◌, String, Bool, true, false, not, ◌&&◌, Option, none, some, List, [], ◌∷◌, leb, ◌==◌,
  if◌then◌else◌, any, str_eq,
}

-- The four counts of `confusion`.
pub record Confusion : Type 0 where
  pub true_positive : ℕ
  pub false_positive : ℕ
  pub false_negative : ℕ
  pub true_negative : ℕ

-- `sum(label == wanted and ... for chunk_id, label in gold_labels.items())`.
unfoldable pub count_labels : ℕ → (String → Bool) → List (String × ℕ) → ℕ
count_labels wanted selected [] = 0
count_labels wanted selected ((chunk_id, label) ∷ gold_labels) =
    let rest = count_labels wanted selected gold_labels in
    if label == wanted && selected chunk_id then 1 + rest else rest

-- `chunk_id in predicted_relevant`.
abbrev pub is_retrieved : List String → String → Bool
is_retrieved retrieved_ids chunk_id = any (str_eq chunk_id) retrieved_ids

-- The counts of `codequery_relevance_scores`; `gold_labels` are the items of the dictionary.
unfoldable pub confusion_counts : List (String × ℕ) → List String → Confusion
confusion_counts gold_labels retrieved_ids = record {
  true_positive = count_labels 1 (is_retrieved retrieved_ids) gold_labels;
  false_positive = count_labels 0 (is_retrieved retrieved_ids) gold_labels;
  false_negative =
      count_labels 1 (λ chunk_id. not (is_retrieved retrieved_ids chunk_id)) gold_labels;
  true_negative =
      count_labels 0 (λ chunk_id. not (is_retrieved retrieved_ids chunk_id)) gold_labels;
}

-- The entries of a retrieved chunk, with the defaults of missing ones filled in.
pub record RankedChunk : Type 0 where
  pub path : String
  pub start_line : ℕ
  pub end_line : ℕ

pub record Target : Type 0 where
  pub path : String
  pub start_line : ℕ
  pub end_line : ℕ

abbrev pub contains : Target → RankedChunk → Bool
contains target chunk = leb chunk.start_line target.start_line && leb target.end_line chunk.end_line

-- The loop of `repoqa_target_rank` from a rank on.
unfoldable pub rank_from : Target → ℕ → List RankedChunk → Option ℕ
rank_from target rank [] = none
rank_from target rank (chunk ∷ chunks) =
    let rest = rank_from target (suc rank) chunks in
    if not (str_eq chunk.path target.path)
    then rest
    else if contains target chunk
    then some rank
    else rest

unfoldable pub repoqa_target_rank : Target → List RankedChunk → Option ℕ
repoqa_target_rank target chunks = rank_from target 1 chunks
