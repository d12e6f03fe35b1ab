-- ===== src/Evaluation/Runs/Invariant.antt =====
-- What holds of the details between two steps of the tasks, in any order of the steps.
use showcase_host.Prelude.{
  ℕ, ◌+◌, ◌<◌, ◌≤◌, Bool, true, false, not, ◌||◌, Option, none, some, List, [], ◌≡◌, refl, inl, inr,
  All, length, ltb, leb, String, Bool-cases, arith,
}
use showcase_host.Prelude.Results.{Result, ok, err}
use showcase_host.Evaluation.Runs.{
  attempt_detail, run_attempt, save_attempt, is_final_first, first_attempt, retry_round,
}
use showcase_host.Evaluation.Runs.Details.{
  Detail, Progress, succeeded, retrying, failed, is_retrying, has_scores, item_at,
}
use showcase_host.Evaluation.Runs.Errors.{Exc}
use showcase_host.Evaluation.Runs.Slots.{is_done, count_done, count_done-set, All-set}

module _ {S : Type 0} (max_retries : ℕ) where
  -- A scored example, one with attempts left, or one that has failed as often as it may.
  pub data IsDetail (d : Detail S) : Type 0 where
    is_scored : has_scores d ≡ true → d.status ≡ succeeded → IsDetail d
    has_attempts :
        has_scores d ≡ false
        → d.status ≡ retrying
        → 0 < d.attempts
        → d.attempts ≤ max_retries
        → IsDetail d
    has_none : has_scores d ≡ false → d.status ≡ failed → d.attempts ≡ max_retries + 1 → IsDetail d

  abbrev pub IsSlot : Option (Detail S) → Type 0
  IsSlot none = Unit {0}
  IsSlot (some d) = IsDetail d

  pub record Inv (p : Progress S) : Type 0 where
    pub slots : All IsSlot p.details
    pub counted : p.completed ≡ count_done p.details

  save_attempt-Inv :
      (index : ℕ) (d : Detail S) (final : Bool) (p : Progress S)
      → index < length p.details
      → is_done (item_at index p.details) ≡ false
      → IsDetail d
      → final ≡ not (is_retrying d.status)
      → Inv p
      → Inv (save_attempt index d final p)
  unfolding save_attempt
  save_attempt-Inv index d final p range open_ is_detail flag h = record {
    slots = All-set IsSlot index d p.details is_detail h.slots;
    counted = ground (arith, flag, h.counted, count_done-set index d p.details range open_);
  }

  attempt_detail-IsDetail :
      (index attempt : ℕ) (errors : List String) (r : Result Exc S)
      → 0 < attempt
      → attempt ≤ max_retries + 1
      → IsDetail (attempt_detail max_retries index attempt errors r)
  unfolding attempt_detail
  attempt_detail-IsDetail index attempt errors (ok scores) z h = is_scored refl refl
  attempt_detail-IsDetail index attempt errors (err exc) z h =
      elim (Bool-cases (leb attempt max_retries)) [
        | inl more ↦ has_attempts refl (rw more refl) z (ground (arith, more))
        | inr no_more ↦ has_none refl (rw no_more refl) (ground (arith, no_more))
      ]

  attempt_detail-final :
      (index attempt : ℕ) (errors : List String) (r : Result Exc S)
      → (has_scores (attempt_detail max_retries index attempt errors r) || ltb max_retries attempt)
        ≡ not (is_retrying (attempt_detail max_retries index attempt errors r).status)
  unfolding attempt_detail
  attempt_detail-final index attempt errors (ok scores) = refl
  attempt_detail-final index attempt errors (err exc) =
      elim (Bool-cases (leb attempt max_retries)) [
        | inl more ↦ rw more (ground (arith, more))
        | inr no_more ↦ rw no_more (ground (arith, no_more))
      ]

  attempt_detail-first :
      (index : ℕ) (r : Result Exc S)
      → is_final_first max_retries (attempt_detail max_retries index 1 [] r)
        ≡ not (is_retrying (attempt_detail max_retries index 1 [] r).status)
  unfolding attempt_detail
  attempt_detail-first index (ok scores) = refl
  attempt_detail-first index (err exc) = elim (Bool-cases (leb 1 max_retries)) [
    | inl more ↦ rw more (ground (arith, more))
    | inr no_more ↦ rw no_more (ground (arith, no_more))
  ]

  module _ (attempt_at : ℕ → ℕ → Result Exc S) where
    pub first_attempt-Inv :
        (index : ℕ) (p : Progress S)
        → index < length p.details
        → item_at index p.details ≡ none
        → Inv p
        → Inv (first_attempt max_retries attempt_at index p)
    unfolding first_attempt run_attempt
    first_attempt-Inv index p range new h =
        let r = attempt_at index 1 in
        save_attempt-Inv index (attempt_detail max_retries index 1 [] r) _ p range (rw new refl)
          (attempt_detail-IsDetail index 1 [] r (omega arith) (omega arith))
          (attempt_detail-first index r) h

    pub retry_round-Inv :
        (index : ℕ) (p : Progress S) (before : Detail S)
        → index < length p.details
        → item_at index p.details ≡ some before
        → is_retrying before.status ≡ true
        → before.attempts ≤ max_retries
        → Inv p
        → Inv (retry_round max_retries attempt_at index p before)
    unfolding retry_round run_attempt
    retry_round-Inv index p before range known open_ few h =
        let r = attempt_at index (before.attempts + 1) in
        save_attempt-Inv index
          (attempt_detail max_retries index (before.attempts + 1) before.retry_errors r) _ p range
          (rw known (rw open_ refl))
          (attempt_detail-IsDetail index (before.attempts + 1) before.retry_errors r (omega arith)
            (omega (arith, few)))
          (attempt_detail-final index (before.attempts + 1) before.retry_errors r) h
