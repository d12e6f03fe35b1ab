-- ===== src/Evaluation/Runs/Settled.antt =====
-- With enough rounds for each task, a run settles every example and counts them all.
use showcase_host.Prelude.{
  ℕ, suc, ◌+◌, ◌-◌, ◌<◌, ◌≤◌, true, Option, none, some, List, [], ◌∷◌, ◌≡◌, refl, sym, ap, subst,
  ◌∙◌, ◌⊎◌, inl, inr, if◌then◌else◌, In, length, ltb, ◌==◌, ==_iff, is_some, Bool-cases, arith,
  String,
}
use showcase_host.Prelude.Results.{Result, ok, err}
use showcase_host.Evaluation.Runs.{
  run_attempt, attempt_detail, save_attempt, first_attempt, retry_round, advance_first,
  advance_retry, first_pass, retry_pass,
}
use showcase_host.Evaluation.Runs.Details.{Detail, Progress, is_retrying, item_at}
use showcase_host.Evaluation.Runs.Errors.{Exc}
use showcase_host.Evaluation.Runs.Slots.{is_done, item_at-set, All-item}
use showcase_host.Evaluation.Runs.Invariant.{
  is_scored, has_attempts, has_none, IsDetail, IsSlot, Inv,
}
use showcase_host.Evaluation.Runs.Completion.{few, item_at_range}
use showcase_host.Evaluation.Runs.Passes.{first_step, first_step-IsStep, retry-advances, retry_step}

-- How often an index stands in an order.
abbrev pub occurrences : ℕ → List ℕ → ℕ
occurrences m [] = 0
occurrences m (n ∷ ns) = if n == m then suc (occurrences m ns) else occurrences m ns

module _ {S : Type 0} (max_retries : ℕ) (attempt_at : ℕ → ℕ → Result Exc S) where
  -- The first step of a task leaves a detail.
  first_step_starts :
      (index : ℕ) (p : Progress S) (o : Option (Detail S))
      → index < length p.details
      → item_at index p.details ≡ o
      → is_some (item_at index (advance_first max_retries attempt_at index p o).details) ≡ true
  unfolding advance_first first_attempt save_attempt
  first_step_starts index p none range known = ap is_some (item_at-set index _ p.details range)
  first_step_starts index p (some d) range known = ap is_some known

  first_step_at :
      (index : ℕ) (p : Progress S)
      → index < length p.details
      → is_some (item_at index (first_step max_retries attempt_at index p).details) ≡ true
  first_step_at index p range = elim (Bool-cases (ltb index (length p.details))) [
    | inl in_range ↦ rw in_range (first_step_starts index p _ range refl)
    | inr out ↦ absurd (ground (arith, range, out))
  ]

  first_step_here :
      (m index : ℕ) (p : Progress S)
      → m < length p.details
      → m ≡ index
      → is_some (item_at m (first_step max_retries attempt_at index p).details) ≡ true
  first_step_here m index p range same =
      subst (λ n. is_some (item_at n (first_step max_retries attempt_at index p).details) ≡ true)
        (sym same) (first_step_at index p (subst (λ n. n < length p.details) same range))

  first_step_keeps :
      (m index : ℕ) (p : Progress S)
      → Inv max_retries p
      → m < length p.details
      → (m ≡ index) ⊎ (is_some (item_at m p.details) ≡ true)
      → is_some (item_at m (first_step max_retries attempt_at index p).details) ≡ true
  first_step_keeps m index p h range (inl same) = first_step_here m index p range same
  first_step_keeps m index p h range (inr started) = elim (Bool-cases (m == index)) [
    | inl same ↦ first_step_here m index p range ((==_iff m index).0 same)
    | inr other ↦
        let unchanged =
          (first_step-IsStep max_retries attempt_at index p h).others m
            (λ e. absurd (cc (other, (==_iff m index).1 e))) in
        ap is_some unchanged ∙ started
  ]

  pub first_pass_starts :
      (order : List ℕ) (p : Progress S) (m : ℕ)
      → Inv max_retries p
      → m < length p.details
      → In m order ⊎ (is_some (item_at m p.details) ≡ true)
      → is_some (item_at m (first_pass max_retries attempt_at order p).details) ≡ true
  unfolding first_pass
  first_pass_starts [] p m h range (inl never) = absurd never
  first_pass_starts [] p m h range (inr started) = started
  first_pass_starts (index ∷ order) p m h range started =
      let s = first_step-IsStep max_retries attempt_at index p h in
      let within = subst (λ n. m < n) (sym s.same_length) range in
      first_pass_starts order (first_step max_retries attempt_at index p) m s.keeps within
        (elim started [
          | inl (inl here) ↦ inr (first_step_keeps m index p h range (inl here))
          | inl (inr later) ↦ inl later
          | inr known ↦ inr (first_step_keeps m index p h range (inr known))
        ])

  -- The rounds that an example may still need.
  abbrev rounds_left : Option (Detail S) → ℕ
  rounds_left none = 0
  rounds_left (some d) = if is_retrying d.status then max_retries + 1 - d.attempts else 0

  -- A round uses up one of them.
  round_left :
      (index attempt : ℕ) (errors : List String) (r : Result Exc S)
      → attempt ≤ max_retries
      → rounds_left (some (attempt_detail max_retries index (attempt + 1) errors r))
        ≤ max_retries + 1 - attempt - 1
  unfolding attempt_detail
  round_left index attempt errors (ok scores) h = omega arith
  round_left index attempt errors (err exc) h = ground (arith, h)

  retry_if_open_left :
      (index : ℕ) (p : Progress S) (d : Detail S)
      → item_at index p.details ≡ some d
      → IsDetail max_retries d
      → rounds_left (
          item_at index
            (if is_retrying d.status
              then retry_round max_retries attempt_at index p d
              else p).details)
        ≤ rounds_left (some d) - 1
  unfolding retry_round run_attempt save_attempt
  retry_if_open_left index p d known h = elim (Bool-cases (is_retrying d.status)) [
    | inr done ↦ rw (done, known, done) (omega arith)
    | inl open_ ↦
        rw (open_, item_at-set index _ p.details (item_at_range index p.details known))
          (round_left index d.attempts d.retry_errors _ (few d h open_))
  ]

  retry_step_left :
      (index : ℕ) (p : Progress S) (o : Option (Detail S))
      → item_at index p.details ≡ o
      → Inv max_retries p
      → rounds_left (item_at index (advance_retry max_retries attempt_at index p o).details)
        ≤ rounds_left o - 1
  unfolding advance_retry
  retry_step_left index p none known h = rw known (omega arith)
  retry_step_left index p (some d) known h =
      retry_if_open_left index p d known (
        subst (IsSlot max_retries) known (All-item (IsSlot max_retries) index p.details tt h.slots))

  -- A started example without rounds left is settled.
  settled_slot :
      (o : Option (Detail S))
      → IsSlot max_retries o
      → is_some o ≡ true
      → rounds_left o ≤ 0
      → is_done o ≡ true
  settled_slot none h started left = absurd (cc started)
  settled_slot (some d) h started left = elim (Bool-cases (is_retrying d.status)) [
    | inr done ↦ rw done refl
    | inl open_ ↦ absurd (ground (arith, left, open_, few d h open_))
  ]

  retry_if_open_started :
      (index : ℕ) (p : Progress S) (d : Detail S)
      → item_at index p.details ≡ some d
      → is_some (
          item_at index
            (if is_retrying d.status
              then retry_round max_retries attempt_at index p d
              else p).details)
        ≡ true
  unfolding retry_round save_attempt
  retry_if_open_started index p d known = elim (Bool-cases (is_retrying d.status)) [
    | inr done ↦ rw (done, known) refl
    | inl open_ ↦
        rw (open_, item_at-set index _ p.details (item_at_range index p.details known)) refl
  ]

  retry_step_started :
      (index : ℕ) (p : Progress S) (o : Option (Detail S))
      → item_at index p.details ≡ o
      → is_some o ≡ true
      → is_some (item_at index (advance_retry max_retries attempt_at index p o).details) ≡ true
  unfolding advance_retry
  retry_step_started index p none known h = absurd (cc h)
  retry_step_started index p (some d) known h = retry_if_open_started index p d known

  -- What a round of any task leaves of the rounds of an example.
  record Left (m index : ℕ) (p q : Progress S) : Type 0 where
    started : is_some (item_at m q.details) ≡ true
    left : rounds_left (item_at m q.details) ≤ (
        if index == m
        then rounds_left (item_at m p.details) - 1
        else rounds_left (item_at m p.details))

  retry_step-Left :
      (m index : ℕ) (p : Progress S)
      → Inv max_retries p
      → is_some (item_at m p.details) ≡ true
      → Left m index p (retry_step max_retries attempt_at index p)
  retry_step-Left m index p h started = elim (Bool-cases (index == m)) [
    | inl same ↦
        let e = (==_iff index m).0 same in
        subst (λ n. Left n index p (retry_step max_retries attempt_at index p)) e
          (record {
            started =
                retry_step_started index p _ refl
                  (subst (λ n. is_some (item_at n p.details) ≡ true) (sym e) started);
            left = rw ((==_iff index index).1 refl) (retry_step_left index p _ refl h);
          })
    | inr other ↦
        let unchanged =
          (retry-advances max_retries attempt_at index p _ refl h).others m
            (λ e. absurd (cc (other, (==_iff index m).1 (sym e)))) in
        record {
          started = ap is_some unchanged ∙ started;
          left = rw (other, unchanged) (omega arith);
        }
  ]

  pub retry_pass_settles :
      (order : List ℕ) (p : Progress S) (m : ℕ)
      → Inv max_retries p
      → is_some (item_at m p.details) ≡ true
      → rounds_left (item_at m p.details) ≤ occurrences m order
      → is_done (item_at m (retry_pass max_retries attempt_at order p).details) ≡ true
  unfolding retry_pass
  retry_pass_settles [] p m h started enough =
      settled_slot (item_at m p.details) (All-item (IsSlot max_retries) m p.details tt h.slots)
        started enough
  retry_pass_settles (index ∷ order) p m h started enough =
      let l = retry_step-Left m index p h started in
      retry_pass_settles order (retry_step max_retries attempt_at index p) m
        (retry-advances max_retries attempt_at index p _ refl h).keeps l.started
        (ground (arith, l.left, enough))

  pub rounds_left-le : (o : Option (Detail S)) → IsSlot max_retries o → rounds_left o ≤ max_retries
  rounds_left-le none h = omega arith
  rounds_left-le (some d) (is_scored _ s) = rw s (omega arith)
  rounds_left-le (some d) (has_attempts _ s few_ _) = rw s (omega (arith, few_))
  rounds_left-le (some d) (has_none _ s _) = rw s (omega arith)
