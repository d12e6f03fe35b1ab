-- ===== src/Evaluation/Datasets/Tests.antt =====
-- A sample of four rows, and requests that fail first.
use showcase_host.Prelude.{
  arith, ℕ, zero, suc, String, Bool, true, false, some, List, [], ◌∷◌, ◌≡◌, refl, inl, inr,
}
use showcase_host.Prelude.Results.{ok, err}
use showcase_host.Evaluation.Sampling.{partial_response, unavailable, balanced_random_sample}
use showcase_host.Evaluation.Sampling.Sample.{IsBalanced, balanced_random_sample-IsBalanced}
use showcase_host.Evaluation.Datasets.{
  Answer, payload, http_status, other_failure, hf_rows, QueryRow, codequery_group, query_groups,
  codequery_rows,
}

abbrev row_at : ℕ → Bool → QueryRow ℕ
row_at n positive = record { row_index = n; is_positive = positive; content = 0 }

abbrev rows : List (QueryRow ℕ)
rows = row_at 1 true ∷ row_at 2 false ∷ row_at 3 true ∷ row_at 4 true ∷ row_at 5 false ∷ []

abbrev order : List String
order = "positive" ∷ "negative" ∷ []

-- Three rows are asked for: two positive ones, taken from the end, and a negative one between.
samples :
    balanced_random_sample codequery_group query_groups order (λ g rs. rs) 3 rows
    ≡ ok (some (row_at 3 true ∷ row_at 2 false ∷ row_at 1 true ∷ []))
unfolding balanced_random_sample
samples = refl

abbrev flaky : ℕ → Answer ℕ
flaky zero = other_failure
flaky (suc zero) = http_status 503
flaky (suc (suc n)) = payload false false (7 ∷ [])

third_answer : hf_rows flaky ≡ ok (7 ∷ [])
unfolding hf_rows
third_answer = refl

not_found : hf_rows {R = ℕ} (λ n. http_status 404) ≡ err unavailable
unfolding hf_rows
not_found = refl

partial_is_refused : hf_rows {R = ℕ} (λ n. payload true false (7 ∷ [])) ≡ err partial_response
unfolding hf_rows
partial_is_refused = refl

balanced_random_sample-IsBalanced_example :
    IsBalanced codequery_group order 3 (some (row_at 3 true ∷ row_at 2 false ∷ row_at 1 true ∷ []))
balanced_random_sample-IsBalanced_example =
    balanced_random_sample-IsBalanced codequery_group query_groups order (λ g rs. rs)
      ((refl, tt), (tt, tt)) (omega arith) (inr (inl refl), (inl refl, tt)) (λ g f rs. refl) 3 rows
      (some (row_at 3 true ∷ row_at 2 false ∷ row_at 1 true ∷ [])) samples

collects_rows :
    codequery_rows order
      (λ g rs. rs)
      (λ n max. 0)
      (λ n offset size attempt. payload false false rows)
      100
      3
    ≡ ok (some (row_at 3 true ∷ row_at 2 false ∷ row_at 1 true ∷ []))
unfolding codequery_rows balanced_random_sample
collects_rows = refl
