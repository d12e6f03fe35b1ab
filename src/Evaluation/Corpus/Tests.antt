-- ===== src/Evaluation/Corpus/Tests.antt =====
-- A file of four lines.
use showcase_host.Prelude.{ℕ, ◌≡◌, ◌/◌, refl, String, List, [], ◌∷◌, arith}
use showcase_host.Evaluation.Corpus.{fitting, end_of, step_back, chunk_lines, file_chunks}
use showcase_host.Evaluation.Corpus.Cover.{Covers, file_chunks-Covers}

abbrev fifth : ℕ → ℕ
fifth n = n / 5

abbrev lines : List String
lines = "aaa" ∷ "bb" ∷ "c" ∷ "ddddddd" ∷ []

file_chunks_runs :
    file_chunks fifth 6 lines
    ≡ record { text = "aaabbc"; start_line = 1; end_line = 3 }
      ∷ record { text = "c"; start_line = 3; end_line = 3 }
      ∷ record { text = "ddddddd"; start_line = 4; end_line = 4 }
      ∷ []
unfolding file_chunks chunk_lines end_of fitting step_back
file_chunks_runs = refl

file_chunks-Covers_example : Covers lines 0 (file_chunks fifth 6 lines)
file_chunks-Covers_example = file_chunks-Covers fifth 6 lines (omega arith)
