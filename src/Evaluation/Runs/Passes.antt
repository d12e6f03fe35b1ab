-- ===== src/Evaluation/Runs/Passes.antt =====
-- What the two groups of tasks of a run keep.
use showcase_host.Prelude.{
  ℕ, true, Option, none, some, List, [], ◌∷◌, ◌≡◌, refl, sym, ap, subst, ◌∙◌, inl, inr,
  if◌then◌else◌, length, ltb, ◌==◌, ==_iff, Bool-cases, arith,
}
use showcase_host.Prelude.Results.{Result}
use showcase_host.Evaluation.Runs.{advance_first, advance_retry, first_pass, retry_pass}
use showcase_host.Evaluation.Runs.Details.{Detail, Progress, item_at}
use showcase_host.Evaluation.Runs.Errors.{Exc}
use showcase_host.Evaluation.Runs.Slots.{is_done}
use showcase_host.Evaluation.Runs.Invariant.{Inv}
use showcase_host.Evaluation.Runs.Completion.{
  IsStep, stays, advance_first-IsStep, retry_if_open-IsStep,
}

module _ {S : Type 0} (max_retries : ℕ) (attempt_at : ℕ → ℕ → Result Exc S) where
  -- What a group of tasks keeps.
  pub record IsPass (p q : Progress S) : Type 0 where
    pub keeps : Inv max_retries q
    pub same_length : length q.details ≡ length p.details
    pub frozen :
        (m : ℕ) → is_done (item_at m p.details) ≡ true → item_at m q.details ≡ item_at m p.details

  frozen_by_step :
      (index m : ℕ) (p q : Progress S)
      → IsStep max_retries attempt_at index p q
      → is_done (item_at m p.details) ≡ true
      → item_at m q.details ≡ item_at m p.details
  frozen_by_step index m p q s done = elim (Bool-cases (m == index)) [
    | inl same ↦
        let e = (==_iff m index).0 same in
        subst (λ n. item_at n q.details ≡ item_at n p.details) (sym e)
          (s.settled (subst (λ n. is_done (item_at n p.details) ≡ true) e done))
    | inr other ↦ s.others m (λ e. absurd (cc (other, (==_iff m index).1 e)))
  ]

  then-IsPass :
      (index : ℕ) (p q r : Progress S)
      → IsStep max_retries attempt_at index p q
      → IsPass q r
      → IsPass p r
  then-IsPass index p q r s t = record {
    keeps = t.keeps;
    same_length = t.same_length ∙ s.same_length;
    frozen =
        λ m done. let e = frozen_by_step index m p q s done in t.frozen m (ap is_done e ∙ done) ∙ e;
  }

  no_step : (p : Progress S) → Inv max_retries p → IsPass p p
  no_step p h = record { keeps = h; same_length = refl; frozen = λ m _. refl }

  abbrev pub first_step : ℕ → Progress S → Progress S
  first_step index p =
      if ltb index (length p.details)
      then advance_first max_retries attempt_at index p (item_at index p.details)
      else p

  pub first_step-IsStep :
      (index : ℕ) (p : Progress S)
      → Inv max_retries p
      → IsStep max_retries attempt_at index p (first_step index p)
  first_step-IsStep index p h = elim (Bool-cases (ltb index (length p.details))) [
    | inl range ↦
        rw range
          (advance_first-IsStep max_retries attempt_at index p _ (ground (arith, range)) refl h)
    | inr out ↦ rw out (stays max_retries attempt_at index p h)
  ]

  pub first_pass-IsPass :
      (order : List ℕ) (p : Progress S)
      → Inv max_retries p
      → IsPass p (first_pass max_retries attempt_at order p)
  unfolding first_pass
  first_pass-IsPass [] p h = no_step p h
  first_pass-IsPass (index ∷ order) p h =
      let s = first_step-IsStep index p h in
      then-IsPass index p (first_step index p) _ s
        (first_pass-IsPass order (first_step index p) s.keeps)

  pub retry-advances :
      (index : ℕ) (p : Progress S) (o : Option (Detail S))
      → item_at index p.details ≡ o
      → Inv max_retries p
      → IsStep max_retries attempt_at index p (advance_retry max_retries attempt_at index p o)
  unfolding advance_retry
  retry-advances index p none known h = stays max_retries attempt_at index p h
  retry-advances index p (some d) known h =
      retry_if_open-IsStep max_retries attempt_at index p d known h

  abbrev pub retry_step : ℕ → Progress S → Progress S
  retry_step index p = advance_retry max_retries attempt_at index p (item_at index p.details)

  pub retry_pass-IsPass :
      (order : List ℕ) (p : Progress S)
      → Inv max_retries p
      → IsPass p (retry_pass max_retries attempt_at order p)
  unfolding retry_pass
  retry_pass-IsPass [] p h = no_step p h
  retry_pass-IsPass (index ∷ order) p h =
      let s = retry-advances index p _ refl h in
      then-IsPass index p (retry_step index p) _ s
        (retry_pass-IsPass order (retry_step index p) s.keeps)
