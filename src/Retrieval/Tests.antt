-- ===== src/Retrieval/Tests.antt =====
-- A fusion of two channels with natural numbers for scores.
use showcase_host.Prelude.{
  ℕ, ◌+◌, ◌/◌, ◌*◌, ◌≡◌, ◌≤◌, refl, String, none, some, List, [], ◌∷◌, length, All, leb, sort_by,
}
use showcase_host.Retrieval.{
  Score, number, SearchRecord, number_of, rank_retrieved_chunks, fuse_entry, fuse_channel,
  fuse_channels, reciprocal_rank_fusion,
}
use showcase_host.Retrieval.Fusion.{IsScored, reciprocal_rank_fusion-IsScored}

abbrev numbers : Score ℕ
numbers = record {
  nought = 0;
  add = λ a b. a + b;
  weigh = λ w n. w / n;
  score_leb = leb;
  parse = λ t. none;
  scale = λ a b. a * b / 10;
  in_unit = λ a. leb a 10;
}

abbrev hit : String → ℕ → SearchRecord ℕ
hit id score = record { id = some id; score = some (number score); payload = none }

abbrev dense : List (SearchRecord ℕ)
dense = hit "a" 5 ∷ hit "b" 9 ∷ []

abbrev keyword : List (SearchRecord ℕ)
keyword = hit "a" 3 ∷ hit "c" 2 ∷ hit "" 7 ∷ []

abbrev fused : String → ℕ → SearchRecord ℕ
fused id score = record { id = some id; score = some (number score); payload = some [] }

-- "b" and then "a" are the dense ranks; the chunk without identifier takes the first keyword rank.
fusion_runs :
    reciprocal_rank_fusion numbers dense keyword 2 60 62000 61000
    ≡ fused "a" 1983 ∷ fused "b" 1016 ∷ []
unfolding reciprocal_rank_fusion fuse_channels fuse_channel fuse_entry rank_retrieved_chunks
    number_of sort_by
fusion_runs = refl

reciprocal_rank_fusion-IsScored_example :
    All
      (IsScored numbers 62000 61000 60 dense keyword)
      (reciprocal_rank_fusion numbers dense keyword 2 60 62000 61000)
    × (length (reciprocal_rank_fusion numbers dense keyword 2 60 62000 61000) ≤ 2)
reciprocal_rank_fusion-IsScored_example =
    reciprocal_rank_fusion-IsScored numbers 62000 61000 60 dense keyword 2
