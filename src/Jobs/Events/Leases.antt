-- ===== src/Jobs/Events/Leases.antt =====
-- Mutual exclusion: while a row's lease lasts, no claim takes the row.
use showcase_host.Prelude.{
  subst, Bool-cases, sym, ℕ, ◌+◌, ◌≤◌, ◌≡◌, ◌==◌, refl, ◌≢◌, ◌⊎◌, inl, inr, Bool, Option, none,
  some, List, [], ◌∷◌, arith, All, if◌then◌else◌, false,
}
use showcase_host.Jobs.{
  reset_failed, false, update_job, Job, running, seconds, get_job, requeue_expired, is_claimable,
  extend_lease, beat_lease, refresh_lease, heartbeat, fail_or_retry, succeed, requeue_failed,
}
use showcase_host.Jobs.Table.{KeepsId, HasKeys, get_job-update}
use showcase_host.Jobs.Claim.{Swept, claim_next-Swept, IsAvailable}
use showcase_host.Jobs.Events.Keys.{
  apply-HasKeys, extend_lease-KeepsId, beat_lease-KeepsId, record_failure-KeepsId,
  mark_succeeded-KeepsId, reset_failed-KeepsId,
}
use showcase_host.Jobs.Events.{
  Policy, Event, claim, refresh, beat, fail, finish, requeue, apply, run,
}

-- A row runs its `n`-th attempt under a lease that lasts until `t` at least.
pub record IsHeld {X : Type 0} (n t : ℕ) (j : Job X) : Type 0 where
  pub until : ℕ
  pub runs : j.status ≡ running
  pub attempt : j.attempt_count ≡ n
  pub leased : j.lease_expires_at ≡ some until
  pub lasts : t ≤ until

abbrev pub Holds : {X : Type 0} → (id n t : ℕ) → List (Job X) → Type 0
Holds {X} id n t jobs = (j : Job X) × (get_job id jobs ≡ some j) × IsHeld n t j

-- A worker's end of the row: its failure or its success, whoever reports it.
abbrev ends : {X : Type 0} → ℕ → Event X → Bool
ends id (claim now locked) = false
ends id (refresh now k) = false
ends id (beat now k) = false
ends id (fail now k code message transient) = k == id
ends id (finish now k g) = k == id
ends id (requeue k g) = false

-- What is done before any worker ends the row.
abbrev pub until_end : {X : Type 0} → ℕ → List (Event X) → List (Event X)
until_end id [] = []
until_end id (e ∷ es) = if ends id e then [] else e ∷ until_end id es

-- The clock reads `t` at most at a claim, and a renewal of the row does not end the lease before `t`.
abbrev IsTimely : {X : Type 0} → Policy → (id t : ℕ) → Event X → Type 0
IsTimely p id t (claim now locked) = now ≤ t
IsTimely p id t (refresh now k) = (k ≢ id) ⊎ (t ≤ now + seconds p.lease_seconds)
IsTimely p id t (beat now k) = (k ≢ id) ⊎ (t ≤ now + seconds p.lease_seconds)
IsTimely p id t (fail now k code message transient) = Unit
IsTimely p id t (finish now k g) = Unit
IsTimely p id t (requeue k g) = Unit

module _ {X : Type 0} (n t : ℕ) where
  -- The sweep of a claim leaves the row alone, so the claim cannot take it.
  not_swept : (now : ℕ) (j : Job X) → IsHeld n t j → now ≤ t → requeue_expired now j ≡ j
  unfolding requeue_expired
  not_swept now j h le = ground (arith, h.runs, h.leased, h.lasts)

  not_available :
      (now : ℕ) (locked : ℕ → Bool) (j : Job X)
      → IsHeld n t j
      → now ≤ t
      → ¬ IsAvailable now locked j
  unfolding is_claimable
  not_available now locked j h le free = ground (arith, h.runs, not_swept now j h le)

  extend_lease-IsHeld :
      (now lease : ℕ) (j : Job X)
      → t ≤ now + seconds lease
      → IsHeld n t j
      → IsHeld n t (extend_lease now lease j)
  unfolding extend_lease
  extend_lease-IsHeld now lease j le h = record {
    until = now + seconds lease;
    runs = h.runs;
    attempt = h.attempt;
    leased = refl;
    lasts = le;
  }

  beat_lease-IsHeld :
      (now lease : ℕ) (j : Job X)
      → t ≤ now + seconds lease
      → IsHeld n t j
      → IsHeld n t (beat_lease now lease j)
  unfolding beat_lease
  beat_lease-IsHeld now lease j le h = record {
    until = now + seconds lease;
    runs = ground (arith, h.runs);
    attempt = ground (arith, h.attempt);
    leased = ground (arith, h.runs);
    lasts = le;
  }

module _ {X : Type 0} (n t : ℕ) where
  -- Only a failed row is reset.
  reset_failed-IsHeld : (g : X → X) (j : Job X) → IsHeld n t j → IsHeld n t (reset_failed g j)
  unfolding reset_failed
  reset_failed-IsHeld g j h = record {
    until = h.until;
    runs = ground (arith, h.runs);
    attempt = ground (arith, h.attempt, h.runs);
    leased = ground (arith, h.leased, h.runs);
    lasts = h.lasts;
  }

-- The ids that the claims of a sequence of operations return.
abbrev pub claimed_ids : {X : Type 0} → Policy → List (Event X) → List (Job X) → List (Option ℕ)
claimed_ids p [] jobs = []
claimed_ids p (e ∷ es) jobs = (apply p e jobs).0 ∷ claimed_ids p es (apply p e jobs).1

renewed :
    {A B P : Type 0} (C : A → Type 0) (g : A → A)
    → P ⊎ B
    → ((a : A) → B → C a → C (g a))
    → P ⊎ ((a : A) → C a → C (g a))
renewed C g (inl p) f = inl p
renewed C g (inr b) f = inr (λ a c. f a b c)

module _ {X : Type 0} (id n t : ℕ) where
  Swept-Holds :
      (now lease : ℕ) (locked : ℕ → Bool) (jobs : List (Job X)) (r : Option ℕ × List (Job X))
      → Holds id n t jobs
      → now ≤ t
      → Swept now lease locked jobs r
      → Holds id n t r.1 × (r.0 ≢ some id)
  Swept-Holds now lease locked jobs (none, after) (j, found, h) le c =
      ((j, cc (c.1 id, found, not_swept n t now j h le), h), λ e. cc)
  Swept-Holds now lease locked jobs (some k, after) (j, found, h) le (i, c) = (
    (j, cc (c.others id (λ e. taken (sym e)), found, not_swept n t now j h le), h),
    λ e. taken (ground arith),
  )
    where
      same : k ≡ id → i ≡ j
      same e = cc (c.found, subst (λ m. get_job m jobs ≡ some j) (sym e) found)

      taken : k ≢ id
      taken e =
          not_available n t now locked j h le (subst (IsAvailable now locked) (same e) c.available)

  updated-Holds :
      (k : ℕ) (f : Job X → Job X) (jobs : List (Job X))
      → KeepsId f
      → Holds id n t jobs
      → (k ≢ id) ⊎ ((j : Job X) → IsHeld n t j → IsHeld n t (f j))
      → Holds id n t (update_job k f jobs)
  updated-Holds k f jobs key (j, found, h) (inl ne) =
      (j, ground (arith, get_job-update id k f jobs key, found), h)
  updated-Holds k f jobs key (j, found, h) (inr keep) = elim (Bool-cases (k == id)) [
    | inl here ↦ (f j, ground (arith, get_job-update id k f jobs key, found), keep j h)
    | inr elsewhere ↦ (j, ground (arith, get_job-update id k f jobs key, found), h)
  ]

  apply-Holds :
      (p : Policy) (e : Event X) (jobs : List (Job X))
      → HasKeys jobs
      → Holds id n t jobs
      → IsTimely p id t e
      → ends id e ≡ false
      → Holds id n t (apply p e jobs).1 × ((apply p e jobs).0 ≢ some id)
  unfolding apply refresh_lease heartbeat fail_or_retry succeed requeue_failed
  apply-Holds p (claim now locked) jobs d h w open_ =
      Swept-Holds now p.lease_seconds locked jobs _ h w
        (claim_next-Swept now p.lease_seconds locked jobs d)
  apply-Holds p (refresh now k) jobs d h w open_ = (
    updated-Holds k _ jobs (extend_lease-KeepsId now p.lease_seconds) h
        (renewed (IsHeld n t) _ w (extend_lease-IsHeld n t now p.lease_seconds)),
    λ e. cc,
  )
  apply-Holds p (beat now k) jobs d h w open_ = (
    updated-Holds k _ jobs (beat_lease-KeepsId now p.lease_seconds) h
        (renewed (IsHeld n t) _ w (beat_lease-IsHeld n t now p.lease_seconds)),
    λ e. cc,
  )
  apply-Holds p (fail now k code message transient) jobs d h w open_ = (
    updated-Holds k _ jobs (record_failure-KeepsId now p.max_attempts code message transient) h
        (inl (λ e. ground (arith, open_, e))),
    λ e. cc,
  )
  apply-Holds p (finish now k g) jobs d h w open_ = (
    updated-Holds k _ jobs (mark_succeeded-KeepsId now g) h (inl (λ e. ground (arith, open_, e))),
    λ e. cc,
  )
  apply-Holds p (requeue k g) jobs d h w open_ =
      (updated-Holds k _ jobs (reset_failed-KeepsId g) h (inr (reset_failed-IsHeld n t g)), λ e. cc)

  -- Whatever is done to a table, in whatever order, until a worker reports the end of a row that runs: if until
  -- then no claim is made after `t` and no renewal ends the row's lease before `t`, and the lease lasts until
  -- `t`, then no claim returns the row, and it goes on running the same attempt under a lease that lasts until
  -- `t`.
  pub run-Holds :
      (p : Policy) (events : List (Event X)) (jobs : List (Job X))
      → HasKeys jobs
      → Holds id n t jobs
      → All (IsTimely p id t) (until_end id events)
      → Holds id n t (run p (until_end id events) jobs)
        × All (λ c. c ≢ some id) (claimed_ids p (until_end id events) jobs)
  unfolding run
  run-Holds p [] jobs d h w = (h, tt)
  run-Holds p (e ∷ es) jobs d h w = elim (Bool-cases (ends id e)) [
    | inl end ↦ rw end (h, tt)
    | inr open_ ↦
        let (timely, later) = (rw open_ at w) in
        let (next, other) = apply-Holds p e jobs d h timely open_ in
        let (last, rest) =
          run-Holds p es (apply p e jobs).1 (apply-HasKeys p e jobs d) next later in
        rw open_ (last, (other, rest))
  ]
