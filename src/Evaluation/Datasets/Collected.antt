-- ===== src/Evaluation/Datasets/Collected.antt =====
-- What the requests of app/evaluation/datasets.py return: whole answers, and balanced samples.
use showcase_host.Prelude.{
  ap, ◌∙◌, ℕ, zero, suc, ◌+◌, ◌<◌, ◌≤◌, String, true, false, not, ◌||◌, Option, none, some, List,
  ◌++◌, ◌≡◌, refl, length, All, In, Bool-cases, inl, inr, ◌==◌, arith,
}
use showcase_host.Prelude.Results.{Result, ok, ok_eq, >>=-ok}
use showcase_host.Evaluation.Sampling.{LoadError, balanced_targets}
use showcase_host.Evaluation.Sampling.Targets.{AreDistinct, IsShuffle}
use showcase_host.Evaluation.Sampling.Sample.{IsBalanced, balanced_random_sample-IsBalanced}
use showcase_host.Evaluation.Datasets.{
  Answer, payload, http_status, other_failure, after_answer, after_failure, is_retryable,
  request_rows, hf_rows, QueryRow, Collection, codequery_group, query_groups, has_targets,
  sample_collection, codequery_rows,
}

-- An attempt that was answered whole, with these rows.
record IsWhole {R : Type 0} (answer : ℕ → Answer R) (first last : ℕ) (rows : List R) : Type 0 where
  pub attempt : ℕ
  not_before : first ≤ attempt
  not_after : attempt < last
  pub answered : answer attempt ≡ payload false false rows

later :
    {R : Type 0} {answer : ℕ → Answer R} (left attempt : ℕ) (rows : List R)
    → IsWhole answer (attempt + 1) (attempt + 1 + left) rows
    → IsWhole answer attempt (attempt + suc left) rows
later left attempt rows w = record {
  attempt = w.attempt;
  not_before = omega (arith, w.not_before);
  not_after = omega (arith, w.not_after);
  answered = w.answered;
}

module _ {R : Type 0} (answer : ℕ → Answer R) where
  after_failure-ok :
      (retry : Result LoadError (List R)) (attempt : ℕ) (status : Option ℕ) (rows : List R)
      → after_failure retry attempt status ≡ ok rows
      → retry ≡ ok rows
  unfolding after_failure
  after_failure-ok retry attempt status rows =
      elim (Bool-cases (not (is_retryable status) || attempt == 3)) [
        | inl stops ↦ rw stops (λ h. absurd (cc h))
        | inr goes_on ↦ rw goes_on (λ h. h)
      ]

  -- By what the attempt was answered.
  answered-IsWhole :
      (left attempt : ℕ) (rows : List R) (retry : Result LoadError (List R)) (a : Answer R)
      → answer attempt ≡ a
      → (retry ≡ ok rows → IsWhole answer (attempt + 1) (attempt + 1 + left) rows)
      → after_answer retry attempt a ≡ ok rows
      → IsWhole answer attempt (attempt + suc left) rows
  unfolding after_answer
  answered-IsWhole left attempt rows retry (payload true is_truncated found) e ih h = absurd (cc h)
  answered-IsWhole left attempt rows retry (payload false true found) e ih h = absurd (cc h)
  answered-IsWhole left attempt rows retry (payload false false found) e ih h = record {
    attempt = attempt;
    not_before = omega arith;
    not_after = omega arith;
    answered = e ∙ ap (payload false false) (ok_eq h);
  }
  answered-IsWhole left attempt rows retry (http_status status) e ih h =
      later left attempt rows (ih (after_failure-ok retry attempt (some status) rows h))
  answered-IsWhole left attempt rows retry other_failure e ih h =
      later left attempt rows (ih (after_failure-ok retry attempt none rows h))

  request_rows-IsWhole :
      (left attempt : ℕ) (rows : List R)
      → request_rows answer left attempt ≡ ok rows
      → IsWhole answer attempt (attempt + left) rows
  unfolding request_rows
  request_rows-IsWhole zero attempt rows h = absurd (cc h)
  request_rows-IsWhole (suc left) attempt rows h =
      answered-IsWhole left attempt rows (request_rows answer left (attempt + 1)) (answer attempt)
        refl (request_rows-IsWhole left (attempt + 1) rows) h

  -- The rows that are returned are one of the first four answers, neither partial nor truncated.
  hf_rows-IsWhole : (rows : List R) → hf_rows answer ≡ ok rows → IsWhole answer 0 4 rows
  unfolding hf_rows
  hf_rows-IsWhole rows h = request_rows-IsWhole 4 0 rows h

module _ {X : Type 0} (order : List String)
    (shuffle : String → List (QueryRow X) → List (QueryRow X)) (distinct : AreDistinct order)
    (some_group : 0 < length order) (same_groups : All (λ g. In g query_groups) order)
    (shuffles : (g : String) → IsShuffle (shuffle g)) where
  sample_collection-IsBalanced :
      (requested : ℕ) (c : Collection X) (result : Option (List (QueryRow X)))
      → sample_collection order shuffle requested c ≡ ok result
      → IsBalanced codequery_group order requested result
  unfolding sample_collection
  sample_collection-IsBalanced requested c result =
      elim (Bool-cases (has_targets (balanced_targets requested order query_groups) c)) [
        | inl enough ↦ rw enough (
            balanced_random_sample-IsBalanced codequery_group query_groups order shuffle distinct
              some_group same_groups shuffles requested (c.negative ++ c.positive) result)
        | inr lacking ↦ rw lacking (λ h. absurd (cc h))
      ]

  -- The sample of a run over CodeQueries has the size that was asked for, balanced over both groups.
  codequery_rows-IsBalanced :
      (draw : ℕ → ℕ → ℕ) (request : ℕ → ℕ → ℕ → ℕ → Answer (QueryRow X)) (available requested : ℕ)
      (result : Option (List (QueryRow X)))
      → codequery_rows order shuffle draw request available requested ≡ ok result
      → IsBalanced codequery_group order requested result
  unfolding codequery_rows
  codequery_rows-IsBalanced draw request available requested result h =
      let (c, _, sampled) = >>=-ok _ (sample_collection order shuffle requested) h in
      sample_collection-IsBalanced requested c result sampled
