-- ===== src/Evaluation/Runs/Completion.antt =====
-- Every example of a run is settled in the end, whatever the order in which the tasks advance.
use showcase_host.Prelude.{
  ℕ, zero, suc, ◌<◌, ◌≤◌, true, Option, none, some, List, [], ◌∷◌, ◌≡◌, ◌≢◌, refl, ap, subst, inl,
  inr, if◌then◌else◌, length, Bool-cases, arith,
}
use showcase_host.Prelude.Results.{Result}
use showcase_host.Evaluation.Runs.{save_attempt, first_attempt, retry_round, advance_first}
use showcase_host.Evaluation.Runs.Details.{Detail, Progress, is_retrying, item_at}
use showcase_host.Evaluation.Runs.Errors.{Exc}
use showcase_host.Evaluation.Runs.Slots.{is_done, item_at-set_other, All-item, length-set}
use showcase_host.Evaluation.Runs.Invariant.{
  IsDetail, IsSlot, Inv, first_attempt-Inv, retry_round-Inv, is_scored, has_attempts, has_none,
}

pub item_at_range :
    {A : Type 0} (n : ℕ) (xs : List (Option A)) {a : A} → item_at n xs ≡ some a → n < length xs
item_at_range n [] h = absurd (cc h)
item_at_range zero (x ∷ xs) h = omega arith
item_at_range (suc n) (x ∷ xs) h = omega (arith, item_at_range n xs h)

pub few :
    {S : Type 0} {max_retries : ℕ} (d : Detail S)
    → IsDetail max_retries d
    → is_retrying d.status ≡ true
    → d.attempts ≤ max_retries
few d (is_scored _ s) h = absurd (cc (ap is_retrying s, h))
few d (has_attempts _ _ _ n) h = n
few d (has_none _ s _) h = absurd (cc (ap is_retrying s, h))

module _ {S : Type 0} (max_retries : ℕ) (attempt_at : ℕ → ℕ → Result Exc S) where
  -- A step of the task of an example touches no other example, and not its own once it is settled.
  pub record IsStep (index : ℕ) (p q : Progress S) : Type 0 where
    pub keeps : Inv max_retries q
    pub same_length : length q.details ≡ length p.details
    pub others : (m : ℕ) → m ≢ index → item_at m q.details ≡ item_at m p.details
    pub settled :
        is_done (item_at index p.details) ≡ true → item_at index q.details ≡ item_at index p.details

  pub stays : (index : ℕ) (p : Progress S) → Inv max_retries p → IsStep index p p
  stays index p h = record {
    keeps = h;
    same_length = refl;
    others = λ m _. refl;
    settled = λ _. refl;
  }

  pub advance_first-IsStep :
      (index : ℕ) (p : Progress S) (o : Option (Detail S))
      → index < length p.details
      → item_at index p.details ≡ o
      → Inv max_retries p
      → IsStep index p (advance_first max_retries attempt_at index p o)
  unfolding advance_first first_attempt save_attempt
  advance_first-IsStep index p (some d) range known h = stays index p h
  advance_first-IsStep index p none range known h = record {
    keeps = first_attempt-Inv max_retries attempt_at index p range known h;
    same_length = length-set index _ p.details;
    others = λ m other. item_at-set_other m index _ p.details other;
    settled = λ done. absurd (cc (done, ap is_done known));
  }

  pub retry_if_open-IsStep :
      (index : ℕ) (p : Progress S) (d : Detail S)
      → item_at index p.details ≡ some d
      → Inv max_retries p
      → IsStep index p
          (if is_retrying d.status then retry_round max_retries attempt_at index p d else p)
  unfolding retry_round save_attempt
  retry_if_open-IsStep index p d known h = elim (Bool-cases (is_retrying d.status)) [
    | inr done ↦ rw done (stays index p h)
    | inl open_ ↦ rw open_ (record {
      keeps =
          retry_round-Inv max_retries attempt_at index p d (item_at_range index p.details known)
            known open_
            (few d
              (subst (IsSlot max_retries) known
                (All-item (IsSlot max_retries) index p.details tt h.slots))
              open_)
            h;
      same_length = length-set index _ p.details;
      others = λ m other. item_at-set_other m index _ p.details other;
      settled = λ done. absurd (cc (done, ap is_done known, open_));
    })
  ]
