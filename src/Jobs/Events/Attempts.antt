-- ===== src/Jobs/Events/Attempts.antt =====
-- `max_attempts`: a bound on the attempts of a row as long as no lease expires, and no bound else.
use showcase_host.Prelude.{
  ◌∙◌, ap, ◌∙◌, ℕ, zero, suc, ◌+◌, ◌≤◌, ◌<◌, max, String, ◌≡◌, refl, Bool, true, false, none, some,
  List, [], ◌∷◌, arith, All,
}
use showcase_host.Jobs.{
  is_claimable, Job, queued, running, seconds, has_expired, requeue_expired, begin_attempt,
  extend_lease, beat_lease, record_failure, mark_succeeded, reset_failed, claim_next, refresh_lease,
  heartbeat, fail_or_retry, succeed, requeue_failed,
}
use showcase_host.Jobs.Table.{HasKeys, All-update}
use showcase_host.Jobs.Claim.Kept.{claim_next-All_claimable}
use showcase_host.Jobs.Events.Keys.{apply-HasKeys}
use showcase_host.Jobs.Events.{
  Policy, Event, claim, refresh, beat, fail, finish, requeue, apply, run,
}

-- At least one attempt is made, also where `max_attempts` is 0.
abbrev attempts_cap : Policy → ℕ
attempts_cap p = max 1 p.max_attempts

-- No row has made more attempts than the cap, and one that waits for another may still make it.
pub record IsWithinCap {X : Type 0} (p : Policy) (j : Job X) : Type 0 where
  pub made : j.attempt_count ≤ attempts_cap p
  pub left : j.status ≡ queued → j.attempt_count < attempts_cap p

-- At every claim of the sequence, no row's lease has expired.
abbrev NoneExpires : {X : Type 0} → Policy → List (Event X) → List (Job X) → Type 0
NoneExpires p [] jobs = Unit
NoneExpires p (claim now locked ∷ es) jobs =
    All (λ j. has_expired now j ≡ false) jobs × NoneExpires p es (apply p (claim now locked) jobs).1
NoneExpires p (e ∷ es) jobs = NoneExpires p es (apply p e jobs).1

module _ {X : Type 0} (p : Policy) where
  -- With no expired lease a claim sweeps nothing.
  abbrev IsFresh : ℕ → Job X → Type 0
  IsFresh now j = IsWithinCap p j × (has_expired now j ≡ false)

  sweep-IsWithinCap : (now : ℕ) (j : Job X) → IsFresh now j → IsWithinCap p (requeue_expired now j)
  unfolding requeue_expired
  sweep-IsWithinCap now j (h, fresh) = rw fresh h

  begin_attempt-IsWithinCap :
      (now : ℕ) (locked : ℕ → Bool) (j : Job X)
      → IsWithinCap p j
      → is_claimable now locked j ≡ true
      → IsWithinCap p (begin_attempt now p.lease_seconds j)
  unfolding begin_attempt is_claimable
  begin_attempt-IsWithinCap now locked j h free =
      let waits : j.status ≡ queued = ground arith in
      record { made = omega (arith, h.left waits); left = λ e. cc }

  extend_lease-IsWithinCap :
      (now : ℕ) (j : Job X) → IsWithinCap p j → IsWithinCap p (extend_lease now p.lease_seconds j)
  unfolding extend_lease
  extend_lease-IsWithinCap now j h = record { made = h.made; left = h.left }

  beat_lease-IsWithinCap :
      (now : ℕ) (j : Job X) → IsWithinCap p j → IsWithinCap p (beat_lease now p.lease_seconds j)
  unfolding beat_lease
  beat_lease-IsWithinCap now j h = ground (arith, h.made, h.left)

  record_failure-IsWithinCap :
      (now : ℕ) (code message : String) (transient : Bool) (j : Job X)
      → IsWithinCap p j
      → IsWithinCap p (record_failure now p.max_attempts code message transient j)
  unfolding record_failure
  record_failure-IsWithinCap now code message transient j h = ground (arith, h.made, h.left)

  mark_succeeded-IsWithinCap :
      (now : ℕ) (g : X → X) (j : Job X) → IsWithinCap p j → IsWithinCap p (mark_succeeded now g j)
  unfolding mark_succeeded
  mark_succeeded-IsWithinCap now g j h = record { made = h.made; left = λ e. cc }

  reset_failed-IsWithinCap :
      (g : X → X) (j : Job X) → IsWithinCap p j → IsWithinCap p (reset_failed g j)
  unfolding reset_failed
  reset_failed-IsWithinCap g j h = ground (arith, h.made, h.left)

  All-zip :
      (now : ℕ) (jobs : List (Job X))
      → All (IsWithinCap p) jobs
      → All (λ j. has_expired now j ≡ false) jobs
      → All (IsFresh now) jobs
  All-zip now [] h e = tt
  All-zip now (j ∷ js) h e = ((h.0, e.0), All-zip now js h.1 e.1)

  -- As long as no lease has expired when a claim is made, the attempts that a row counts, which a requeue sets
  -- to 0, stay at most `max_attempts` (or 1, if that is 0), and a queued row has an attempt left.
  pub run-IsWithinCap :
      (events : List (Event X)) (jobs : List (Job X))
      → HasKeys jobs
      → NoneExpires p events jobs
      → All (IsWithinCap p) jobs
      → All (IsWithinCap p) (run p events jobs)
  unfolding run apply refresh_lease heartbeat fail_or_retry succeed requeue_failed
  run-IsWithinCap [] jobs d n h = h
  run-IsWithinCap (claim now locked ∷ es) jobs d n h =
      run-IsWithinCap es _ (apply-HasKeys p (claim now locked) jobs d) n.1 (
        claim_next-All_claimable now p.lease_seconds locked (IsFresh now) (IsWithinCap p)
          (sweep-IsWithinCap now) (begin_attempt-IsWithinCap now locked) jobs d
          (All-zip now jobs h n.0))
  run-IsWithinCap (refresh now id ∷ es) jobs d n h =
      run-IsWithinCap es _ (apply-HasKeys p (refresh now id) jobs d) n
        (All-update (IsWithinCap p) id _ (extend_lease-IsWithinCap now) jobs h)
  run-IsWithinCap (beat now id ∷ es) jobs d n h =
      run-IsWithinCap es _ (apply-HasKeys p (beat now id) jobs d) n
        (All-update (IsWithinCap p) id _ (beat_lease-IsWithinCap now) jobs h)
  run-IsWithinCap (fail now id code message transient ∷ es) jobs d n h =
      run-IsWithinCap es _ (apply-HasKeys p (fail now id code message transient) jobs d) n (
        All-update (IsWithinCap p) id _ (record_failure-IsWithinCap now code message transient) jobs
          h)
  run-IsWithinCap (finish now id g ∷ es) jobs d n h =
      run-IsWithinCap es _ (apply-HasKeys p (finish now id g) jobs d) n
        (All-update (IsWithinCap p) id _ (mark_succeeded-IsWithinCap now g) jobs h)
  run-IsWithinCap (requeue id g ∷ es) jobs d n h =
      run-IsWithinCap es _ (apply-HasKeys p (requeue id g) jobs d) n
        (All-update (IsWithinCap p) id _ (reset_failed-IsWithinCap g) jobs h)

  -- A worker that dies in each attempt: the runner claims the row after each lease.
  pub crashes : ℕ → ℕ → List (Event X)
  crashes zero until = []
  crashes (suc n) until =
      claim (until + 1) (λ _. false) ∷ crashes n (until + 1 + seconds p.lease_seconds)

  reclaimed : ℕ → Job X → Job X
  reclaimed now j = begin_attempt now p.lease_seconds (requeue_expired now j)

  reclaimed_lem :
      (until : ℕ) (j : Job X)
      → j.status ≡ running
      → j.lease_expires_at ≡ some until
      → j.next_attempt_at ≡ none
      → (apply p (claim (until + 1) (λ _. false)) (j ∷ [])).1 ≡ reclaimed (until + 1) j ∷ []
  unfolding reclaimed apply claim_next requeue_expired is_claimable begin_attempt
  reclaimed_lem until j runs leased due = ground (arith, runs, leased, due)

  reclaimed-attempt_count :
      (now : ℕ) (j : Job X) → (reclaimed now j).attempt_count ≡ j.attempt_count + 1
  unfolding reclaimed requeue_expired begin_attempt
  reclaimed-attempt_count now j = ground arith

  -- A row whose worker dies in every attempt is attempted again for as long as the runner claims,
  -- whatever `max_attempts` is: an expired lease is requeued with no look at the attempts made.
  pub crashes_unbounded :
      (n until : ℕ) (j : Job X)
      → j.status ≡ running
      → j.lease_expires_at ≡ some until
      → j.next_attempt_at ≡ none
      → (r : Job X) × (run p (crashes n until) (j ∷ []) ≡ r ∷ [])
        × (r.attempt_count ≡ j.attempt_count + n)
        × (r.status ≡ running)
  unfolding run crashes reclaimed begin_attempt
  crashes_unbounded zero until j runs leased due = (j, refl, omega arith, runs)
  crashes_unbounded (suc n) until j runs leased due =
      let next = reclaimed (until + 1) j in
      let (r, ran, made, last) =
        crashes_unbounded n (until + 1 + seconds p.lease_seconds) next refl refl refl in
      (
        r,
        ap (run p (crashes n (until + 1 + seconds p.lease_seconds)))
              (reclaimed_lem until j runs leased due)
            ∙ ran,
        omega (arith, made, reclaimed-attempt_count (until + 1) j),
        last,
      )
