-- ===== src/Evaluation/Corpus.antt =====
-- The chunks of one file of a RepoQA repository: the loops of `repository_chunks` in
-- app/evaluation/retrieval.py. Lines are given from a position on, and `rounded n` is the rounded share
-- of n characters that overlaps.
pub mod Cover
mod Tests
use showcase_host.Prelude.{
  ℕ, zero, suc, ◌+◌, ◌-◌, String, Bool, true, false, ◌||◌, ◌&&◌, Option, none, some, List, [], ◌∷◌,
  ltb, leb, ◌==◌, if◌then◌else◌, length, sum_by, take, str_len, concat,
}

-- The fields that the loops compute; `id` is a hash of them, and `path` and `metadata` are the same for all.
pub record EvaluationChunk : Type 0 where
  pub text : String
  pub start_line : ℕ
  pub end_line : ℕ

abbrev pub skip : {A : Type 0} → ℕ → List A → List A
skip zero xs = xs
skip (suc n) [] = []
skip (suc n) (x ∷ xs) = skip n xs

-- The number of lines that the loop over `end` adds after the first ones, whose size is given.
unfoldable pub fitting : ℕ → ℕ → List String → ℕ
fitting target size [] = 0
fitting target size (line ∷ lines) =
    let rest = fitting target (size + str_len line) lines in
    if leb (size + str_len line) target then suc rest else 0

-- `end`, where the lines from `start` on are given; the first one is taken whatever its size is.
unfoldable pub end_of : ℕ → ℕ → List String → ℕ
end_of target start [] = start
end_of target start (line ∷ lines) = start + suc (fitting target (str_len line) lines)

-- `len(lines[i])`.
abbrev pub line_size : ℕ → List String → ℕ
line_size i [] = 0
line_size zero (line ∷ lines) = str_len line
line_size (suc i) (line ∷ lines) = line_size i lines

-- `next_start`, from `start + 1 + n` down; each round takes one from n.
unfoldable pub step_back : List String → ℕ → ℕ → ℕ → ℕ → ℕ
step_back lines start overlap_target overlap_size zero = start + 1
step_back lines start overlap_target overlap_size (suc n) =
    let rest =
      step_back lines start overlap_target (overlap_size + line_size (start + 1 + n) lines) n in
    if ltb overlap_size overlap_target then rest else start + 1 + suc n

abbrev pub overlap_target_of : (ℕ → ℕ) → String → ℕ
overlap_target_of rounded text =
    if leb 1 (rounded (str_len text)) then rounded (str_len text) else 1

-- The `while start < len(lines)` loop.
unfoldable pub chunk_lines : (ℕ → ℕ) → ℕ → ℕ → List String → ℕ → List EvaluationChunk
chunk_lines rounded target zero lines start = []
chunk_lines rounded target (suc fuel) lines start =
    let end_ = end_of target start (skip start lines) in
    let text = concat (take (end_ - start) (skip start lines)) in
    let next_start =
      step_back lines start (overlap_target_of rounded text) 0 (end_ - (start + 1)) in
    let chunk : EvaluationChunk = record { text = text; start_line = start + 1; end_line = end_ } in
    let rest =
      chunk_lines rounded target fuel lines (if ltb start next_start then next_start else end_) in
    if leb (length lines) start
    then []
    else if leb (length lines) end_
    then chunk ∷ []
    else chunk ∷ rest

-- As many rounds as lines are enough, since `start` grows in each.
unfoldable pub file_chunks : (ℕ → ℕ) → ℕ → List String → List EvaluationChunk
file_chunks rounded target lines = chunk_lines rounded target (length lines) lines 0
