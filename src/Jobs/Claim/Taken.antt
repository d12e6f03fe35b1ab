-- ===== src/Jobs/Claim/Taken.antt =====
-- `claim_next` by the columns of the rows: which row it takes, and what it writes.
use mathlib.Core.Option
use showcase_host.Prelude.{
  ℕ, ◌+◌, ◌≤◌, ◌<◌, ◌≡◌, ◌≢◌, refl, ◌∙◌, ap, ◌⊎◌, inl, inr, Bool, true, false, ◌&&◌, Option, none,
  some, List, or_else, leb, ltb, Bool-cases, arith,
}
use showcase_host.Jobs.{
  Job, JobStatus, queued, running, succeeded, failed, seconds, is_running, is_queued, get_job,
  has_expired, requeue_expired, is_claimable, begin_attempt, claim_next,
}
use showcase_host.Jobs.Table.{HasKeys}
use showcase_host.Jobs.Claim.{Swept, claim_next-Swept, IsAvailable}

-- A row that runs, and whose lease has ended.
abbrev HasEnded : {X : Type 0} → ℕ → Job X → Type 0
HasEnded now j = (j.status ≡ running) × ((t : ℕ) × (j.lease_expires_at ≡ some t) × (t < now))

-- A time that is not set or has come.
abbrev IsDue : ℕ → Option ℕ → Type 0
IsDue now o = (o ≡ none) ⊎ ((t : ℕ) × (o ≡ some t) × (t ≤ now))

-- A row that may be taken: no other transaction holds it, its next attempt is due, and it waits in the queue
-- or runs under a lease that has ended.
abbrev CanTake : {X : Type 0} → ℕ → (ℕ → Bool) → Job X → Type 0
CanTake now locked j =
    (locked j.id ≡ false) × IsDue now j.next_attempt_at × ((j.status ≡ queued) ⊎ HasEnded now j)

-- A row whose lease has ended is put back into the queue; every other row stays.
abbrev IsRequeued : {X : Type 0} → ℕ → Job X → Job X → Type 0
IsRequeued now j k =
    (HasEnded now j × (k ≡ record j { status = queued; lease_expires_at = none }))
    ⊎ ((¬ HasEnded now j) × (k ≡ j))

-- What the two tables hold under one id.
abbrev IsKept : {X : Type 0} → ℕ → Option (Job X) → Option (Job X) → Type 0
IsKept now none after = after ≡ none
IsKept {X} now (some j) after = (k : Job X) × (after ≡ some k) × IsRequeued now j k

-- The row `j` is taken: of those that may be taken none is older, its attempt is counted, and it runs under a
-- new lease.
pub record IsTaken {X : Type 0} (now lease : ℕ) (locked : ℕ → Bool) (before after : List (Job X))
    (id : ℕ) (j : Job X) : Type 0 where
  pub found : get_job id before ≡ some j
  pub free : CanTake now locked j
  pub first :
      (k : Job X)
      → get_job k.id before ≡ some k
      → CanTake now locked k
      → j.created_at ≤ k.created_at
  pub taken :
      get_job id after
      ≡ some (record j {
        status = running;
        attempt_count = j.attempt_count + 1;
        started_at = some (or_else j.started_at now);
        next_attempt_at = none;
        lease_expires_at = some (now + seconds lease);
      })
  pub others : (k : ℕ) → k ≢ id → IsKept now (get_job k before) (get_job k after)

-- What `claim_next` has done, by what it returned.
abbrev pub Claimed :
    {X : Type 0} → ℕ → ℕ → (ℕ → Bool) → List (Job X) → Option ℕ × List (Job X) → Type 0
Claimed {X} now lease locked before (none, after) =
    ((k : Job X) → get_job k.id before ≡ some k → ¬ CanTake now locked k)
    × ((k : ℕ) → IsKept now (get_job k before) (get_job k after))
Claimed {X} now lease locked before (some id, after) =
    (j : Job X) × IsTaken now lease locked before after id j

expired_lease :
    (now : ℕ) (s : JobStatus) (lease : Option ℕ)
    → is_running s && elim lease [ none ↦ false | some t ↦ ltb t now ] ≡ true
    → (s ≡ running) × ((t : ℕ) × (lease ≡ some t) × (t < now))
expired_lease now queued lease e = absurd (cc e)
expired_lease now succeeded lease e = absurd (cc e)
expired_lease now failed lease e = absurd (cc e)
expired_lease now running none e = absurd (cc e)
expired_lease now running (some t) e = (refl, (t, refl, ground (arith, e)))

time-IsDue :
    (now : ℕ) (o : Option ℕ) → elim o [ none ↦ true | some t ↦ leb t now ] ≡ true → IsDue now o
time-IsDue now none e = inl refl
time-IsDue now (some t) e = inr (t, refl, ground (arith, e))

queued_status : (s : JobStatus) → is_queued s ≡ true → s ≡ queued
queued_status queued e = refl
queued_status running e = absurd (cc e)
queued_status succeeded e = absurd (cc e)
queued_status failed e = absurd (cc e)

module _ {X : Type 0} (now : ℕ) where
  has_expired-HasEnded : (j : Job X) → has_expired now j ≡ true → HasEnded now j
  unfolding has_expired
  has_expired-HasEnded j e = expired_lease now j.status j.lease_expires_at e

  HasEnded-has_expired : (j : Job X) → HasEnded now j → has_expired now j ≡ true
  unfolding has_expired
  HasEnded-has_expired j (runs, (t, leased, ended)) = ground (arith, runs, leased, ended)

  requeue_expired-IsRequeued : (j : Job X) → IsRequeued now j (requeue_expired now j)
  unfolding requeue_expired
  requeue_expired-IsRequeued j = elim (Bool-cases (has_expired now j)) [
    | inl ended ↦ rw ended (inl (has_expired-HasEnded j ended, refl))
    | inr other ↦ rw other (inr (λ h. cc (HasEnded-has_expired j h, other), refl))
  ]

  requeued-IsKept :
      (before after : Option (Job X))
      → after ≡ Option.map (requeue_expired now) before
      → IsKept now before after
  requeued-IsKept none after e = e
  requeued-IsKept (some j) after e = (requeue_expired now j, e, requeue_expired-IsRequeued j)

  begun-eq :
      (lease : ℕ) (j : Job X)
      → begin_attempt now lease (requeue_expired now j) ≡ record j {
        status = running;
        attempt_count = j.attempt_count + 1;
        started_at = some (or_else j.started_at now);
        next_attempt_at = none;
        lease_expires_at = some (now + seconds lease);
      }
  unfolding begin_attempt requeue_expired
  begun-eq lease j = elim (Bool-cases (has_expired now j)) [
    | inl ended ↦ rw ended refl
    | inr other ↦ rw other refl
  ]

  IsAvailable-CanTake :
      (locked : ℕ → Bool) (j : Job X) → IsAvailable now locked j → CanTake now locked j
  unfolding is_claimable requeue_expired
  IsAvailable-CanTake locked j = elim (Bool-cases (has_expired now j)) [
    | inl ended ↦ rw ended (λ e. (
      ground (arith, e),
      time-IsDue now j.next_attempt_at (ground (arith, e)),
      inr (has_expired-HasEnded j ended),
    ))
    | inr other ↦ rw other (λ e. (
      ground (arith, e),
      time-IsDue now j.next_attempt_at (ground (arith, e)),
      inl (queued_status j.status (ground (arith, e))),
    ))
  ]

  CanTake-IsAvailable :
      (locked : ℕ → Bool) (j : Job X) → CanTake now locked j → IsAvailable now locked j
  unfolding is_claimable requeue_expired has_expired
  CanTake-IsAvailable locked j (free, inl unset, inl waits) = ground (arith, free, unset, waits)
  CanTake-IsAvailable locked j (free, inl unset, inr (runs, (t, leased, ended))) =
      ground (arith, free, unset, runs, leased, ended)
  CanTake-IsAvailable locked j (free, inr (u, set, come), inl waits) =
      ground (arith, free, set, come, waits)
  CanTake-IsAvailable locked j (free, inr (u, set, come), inr (runs, (t, leased, ended))) =
      ground (arith, free, set, come, runs, leased, ended)

  Swept-Claimed :
      (lease : ℕ) (locked : ℕ → Bool) (before : List (Job X)) (r : Option ℕ × List (Job X))
      → Swept now lease locked before r
      → Claimed now lease locked before r
  Swept-Claimed lease locked before (none, after) h = (
    λ k found free. h.0 k found (CanTake-IsAvailable locked k free),
    λ k. requeued-IsKept (get_job k before) (get_job k after) (h.1 k),
  )
  Swept-Claimed lease locked before (some id, after) (j, h) = (
    j,
    record {
      found = h.found;
      free = IsAvailable-CanTake locked j h.available;
      first = λ k found free. h.first k found (CanTake-IsAvailable locked k free);
      taken = h.begun ∙ ap some (begun-eq lease j);
      others = λ k other. requeued-IsKept (get_job k before) (get_job k after) (h.others k other);
    },
  )

-- In a table with a primary key, and whatever rows other transactions hold: `claim_next` returns no id only if
-- no row may be taken, which is that nobody holds it, its next attempt is due, and it waits in the queue or its
-- lease has ended. Else it returns the id of such a row, of those an oldest one, which then runs with one more
-- attempt counted and a lease of the given length from now. Every other row whose lease has ended is put back
-- into the queue, and all else stays.
pub claim_next-Claimed :
    {X : Type 0} (now lease : ℕ) (locked : ℕ → Bool) (jobs : List (Job X))
    → HasKeys jobs
    → Claimed now lease locked jobs (claim_next now lease locked jobs)
claim_next-Claimed now lease locked jobs d =
    Swept-Claimed now lease locked jobs _ (claim_next-Swept now lease locked jobs d)
