-- ===== src/Evaluation/Datasets.antt =====
-- The requests of `BenchmarkDatasetClient` in app/evaluation/datasets.py. The answers of the dataset
-- server, `randint` and the shuffles are parameters; a payload is any type of rows.
pub mod Collected
mod Tests
use showcase_host.Prelude.{
  ℕ, zero, suc, ◌+◌, ◌-◌, ◌*◌, ◌/◌, min, max, String, Bool, true, false, not, ◌||◌, ◌&&◌, Option,
  none, some, List, [], ◌∷◌, ◌++◌, leb, ◌==◌, if◌then◌else◌, any, filter, length, str_eq,
}
use showcase_host.Prelude.Results.{Result, ok, err, ◌>>=◌}
use showcase_host.Evaluation.Sampling.{
  LoadError, unbalanced_sample, partial_response, truncated_cells, unavailable, balanced_targets,
  balanced_random_sample,
}

-- What a request for rows gives: rows, with `partial` and `truncated_cells`; an HTTP error with its status,
-- or another error that is caught.
pub data Answer (R : Type 0) : Type 0 where
  payload : Bool → Bool → List R → Answer R
  http_status : ℕ → Answer R
  other_failure : Answer R

abbrev pub is_retryable : Option ℕ → Bool
is_retryable none = true
is_retryable (some status) = status == 429 || leb 500 status

module _ {R : Type 0} where
  -- What follows a failed attempt; `retry` makes the next one.
  unfoldable pub after_failure :
      Result LoadError (List R) → ℕ → Option ℕ → Result LoadError (List R)
  after_failure retry attempt status =
      if not (is_retryable status) || attempt == 3 then err unavailable else retry

  unfoldable pub after_answer : Result LoadError (List R) → ℕ → Answer R → Result LoadError (List R)
  unfolding after_failure
  after_answer retry attempt (payload is_partial is_truncated rows) =
      if is_partial
      then err partial_response
      else if is_truncated
      then err truncated_cells
      else ok rows
  after_answer retry attempt (http_status status) = after_failure retry attempt (some status)
  after_answer retry attempt other_failure = after_failure retry attempt none

  -- The attempts from the number `attempt` on, of which `left` are left.
  unfoldable pub request_rows : (ℕ → Answer R) → ℕ → ℕ → Result LoadError (List R)
  unfolding after_answer
  request_rows answer zero attempt = err unavailable
  request_rows answer (suc left) attempt =
      let retry = request_rows answer left (attempt + 1) in
      after_answer retry attempt (answer attempt)

  -- `_hf_rows`.
  unfoldable pub hf_rows : (ℕ → Answer R) → Result LoadError (List R)
  unfolding request_rows
  hf_rows answer = request_rows answer 4 0

-- A row of CodeQueries: `__dataset_row_index`, and whether `example_type` is 1.
pub record QueryRow (X : Type 0) : Type 0 where
  pub row_index : ℕ
  pub is_positive : Bool
  pub content : X

abbrev pub codequery_group : {X : Type 0} → QueryRow X → String
codequery_group row = if row.is_positive then "positive" else "negative"

abbrev pub query_groups : List String
query_groups = "negative" ∷ "positive" ∷ []

abbrev batch_size_of : ℕ → ℕ
batch_size_of requested = min 100 (max 32 (requested * 2))

-- `math.ceil(requested / batch_size)`, of numbers.
abbrev ceil_div : ℕ → ℕ → ℕ
ceil_div a b = (a + (b - 1)) / b

abbrev max_batches_of : ℕ → ℕ
max_batches_of requested = max 12 (ceil_div requested (batch_size_of requested) * 4)

-- `randint(0, max_start) if max_start else 0`, of the draw `draw`.
abbrev offset_of : ℕ → ℕ → (ℕ → ℕ) → ℕ
offset_of available batch_size draw =
    if available - batch_size == 0 then 0 else draw (available - batch_size)

-- `candidates` and `seen`.
pub record Collection (X : Type 0) : Type 0 where
  pub negative : List (QueryRow X)
  pub positive : List (QueryRow X)
  pub seen : List ℕ

module _ {X : Type 0} where
  abbrev candidates_of : Collection X → String → List (QueryRow X)
  candidates_of c group = if str_eq group "positive" then c.positive else c.negative

  -- The body of the loop over a batch.
  unfoldable collect_row : Collection X → QueryRow X → Collection X
  collect_row c row =
      if any (λ i. i == row.row_index) c.seen
      then c
      else if row.is_positive
      then record c { positive = c.positive ++ row ∷ []; seen = row.row_index ∷ c.seen }
      else record c { negative = c.negative ++ row ∷ []; seen = row.row_index ∷ c.seen }

  unfoldable collect_batch : Collection X → List (QueryRow X) → Collection X
  unfolding collect_row
  collect_batch c [] = c
  collect_batch c (row ∷ rows) = collect_batch (collect_row c row) rows

  -- `all(len(candidates[group]) >= target for ...)`.
  abbrev pub has_targets : List (String × ℕ) → Collection X → Bool
  has_targets [] c = true
  has_targets ((group, target) ∷ targets) c =
      leb target (length (candidates_of c group)) && has_targets targets c

  -- The loop over the batches: the rows of the first, or the error of its request.
  unfoldable next_batch :
      List (String × ℕ)
      → (Collection X → Result LoadError (Collection X))
      → Collection X
      → List (QueryRow X)
      → Result LoadError (Collection X)
  unfolding collect_batch
  next_batch targets next c rows =
      let more = next (collect_batch c rows) in
      if has_targets targets (collect_batch c rows) then ok (collect_batch c rows) else more

  unfoldable collect_batches :
      List (String × ℕ)
      → (ℕ → Result LoadError (List (QueryRow X)))
      → ℕ
      → ℕ
      → Collection X
      → Result LoadError (Collection X)
  unfolding next_batch
  collect_batches targets batch zero n c = ok c
  collect_batches targets batch (suc left) n c =
      batch n >>= next_batch targets (λ d. collect_batches targets batch left (n + 1) d) c

  unfoldable pub sample_collection :
      List String
      → (String → List (QueryRow X) → List (QueryRow X))
      → ℕ
      → Collection X
      → Result LoadError (Option (List (QueryRow X)))
  unfolding balanced_targets
  sample_collection order shuffle requested c =
      if has_targets (balanced_targets requested order query_groups) c
      then balanced_random_sample codequery_group query_groups order shuffle requested
          (c.negative ++ c.positive)
      else err unbalanced_sample

  -- `_codequery_rows`, where `request n offset size` are the answers to `_hf_rows` and `draw n` is the draw
  -- before batch `n`.
  unfoldable pub codequery_rows :
      List String
      → (String → List (QueryRow X) → List (QueryRow X))
      → (ℕ → ℕ → ℕ)
      → (ℕ → ℕ → ℕ → ℕ → Answer (QueryRow X))
      → ℕ
      → ℕ
      → Result LoadError (Option (List (QueryRow X)))
  unfolding collect_batches sample_collection hf_rows
  codequery_rows order shuffle draw request available requested =
      let batch_size = batch_size_of requested in
      collect_batches (balanced_targets requested order query_groups)
        (λ n. hf_rows (request n (offset_of available batch_size (draw n)) batch_size))
        (max_batches_of requested) 0 (record { negative = []; positive = []; seen = [] })
      >>= sample_collection order shuffle requested
