-- ===== src/Evaluation/Corpus/Cover.antt =====
-- The chunks of a file cover all its lines, with no gap.
use showcase_host.Prelude.{
  ap, ◌<◌, ◌≤◌, ℕ, zero, suc, ◌+◌, ◌-◌, ◌≡◌, inl, inr, String, true, List, [], ◌∷◌, ltb, leb,
  length, take, Bool-cases, str_len, concat, arith,
}
use showcase_host.Evaluation.Corpus.{
  EvaluationChunk, skip, fitting, end_of, line_size, step_back, overlap_target_of, chunk_lines,
  file_chunks,
}

-- The chunks cover the lines, where those up to `reached` are covered already, and the text of each is that of
-- its lines.
abbrev pub Covers : List String → ℕ → List EvaluationChunk → Type 0
Covers lines reached [] = length lines ≤ reached
Covers lines reached (c ∷ chunks) =
    (1 ≤ c.start_line)
    × (c.start_line ≤ c.end_line)
    × (c.start_line ≤ suc reached)
    × (c.end_line ≤ length lines)
    × (c.text ≡ concat (take (c.end_line - (c.start_line - 1)) (skip (c.start_line - 1) lines)))
    × Covers lines c.end_line chunks

fitting-le : (target size : ℕ) (lines : List String) → fitting target size lines ≤ length lines
unfolding fitting
fitting-le target size [] = omega arith
fitting-le target size (line ∷ lines) =
    ground (arith, fitting-le target (size + str_len line) lines)

skip-length : {A : Type 0} (n : ℕ) (xs : List A) → length (skip n xs) ≡ length xs - n
skip-length zero xs = omega arith
skip-length (suc n) [] = omega arith
skip-length (suc n) (x ∷ xs) = omega (arith, skip-length n xs)

end_of-bounds :
    (target start : ℕ) (rest : List String)
    → 1 ≤ length rest
    → (suc start ≤ end_of target start rest) × (end_of target start rest ≤ start + length rest)
unfolding end_of
end_of-bounds target start [] h = absurd (omega arith)
end_of-bounds target start (line ∷ lines) h =
    (omega arith, omega (arith, fitting-le target (str_len line) lines))

step_back-bounds :
    (lines : List String) (start overlap size n : ℕ)
    → (suc start ≤ step_back lines start overlap size n)
      × (step_back lines start overlap size n ≤ start + 1 + n)
unfolding step_back
step_back-bounds lines start overlap size zero = (omega arith, omega arith)
step_back-bounds lines start overlap size (suc n) = elim (Bool-cases (ltb size overlap)) [
  | inl more ↦
      let (low, high) =
        step_back-bounds lines start overlap (size + line_size (start + 1 + n) lines) n in
      rw more (omega (arith, low), omega (arith, high))
  | inr enough ↦ rw enough (omega arith, omega arith)
]

chunk_lines-Covers :
    (rounded : ℕ → ℕ) (target fuel : ℕ) (lines : List String) (start reached : ℕ)
    → length lines ≤ start + fuel
    → start ≤ reached
    → reached ≤ length lines
    → start < length lines
    → Covers lines reached (chunk_lines rounded target fuel lines start)
unfolding chunk_lines
chunk_lines-Covers rounded target zero lines start reached enough before within more =
    absurd (omega arith)
chunk_lines-Covers rounded target (suc fuel) lines start reached enough before within more =
    let end_ = end_of target start (skip start lines) in
    let text = concat (take (end_ - start) (skip start lines)) in
    let next_start =
      step_back lines start (overlap_target_of rounded text) 0 (end_ - (start + 1)) in
    let ends =
      end_of-bounds target start (skip start lines) (omega (arith, skip-length start lines)) in
    let back =
      step_back-bounds lines start (overlap_target_of rounded text) 0 (end_ - (start + 1)) in
    let before_start : start ≡ start + 1 - 1 = omega arith in
    let text_at : text ≡ concat (take (end_ - (start + 1 - 1)) (skip (start + 1 - 1) lines)) =
      ap (λ k. concat (take (end_ - k) (skip k lines))) before_start in
    elim (Bool-cases (leb (length lines) start)) [
      | inl over ↦ absurd (ground arith)
      | inr open_ ↦ elim (Bool-cases (leb (length lines) end_)) [
        | inl last ↦
            let fits : length lines ≤ end_ = ground (arith, last) in
            rw (open_, last)
              (
                omega arith,
                omega (arith, ends.0),
                omega arith,
                omega (arith, ends.1, skip-length start lines),
                text_at,
                fits,
              )
        | inr inner ↦
            let short : end_ < length lines = ground (arith, inner) in
            let moved : ltb start next_start ≡ true = ground (arith, back.0) in
            rw (open_, inner, moved)
              (
                omega arith,
                omega (arith, ends.0),
                omega arith,
                omega arith,
                text_at,
                chunk_lines-Covers rounded target fuel lines next_start end_ (omega (arith, back.0))
                    (omega (arith, back.1, ends.0)) (omega arith) (omega (arith, back.1, ends.0)),
              )
      ]
    ]

-- Whatever the share of the overlap is: the chunks of a file cover all its lines from the first to the
-- last, each chunk has a line and the text of its lines, and none starts later than just after the one before.
pub file_chunks-Covers :
    (rounded : ℕ → ℕ) (target : ℕ) (lines : List String)
    → 1 ≤ length lines
    → Covers lines 0 (file_chunks rounded target lines)
unfolding file_chunks
file_chunks-Covers rounded target lines some_lines =
    chunk_lines-Covers rounded target (length lines) lines 0 0 (omega arith) (omega arith)
      (omega arith) (omega arith)
