-- ===== src/Jobs/Events/Sound.antt =====
-- No job is lost: every row that has not ended can be claimed again.
use showcase_host.Prelude.{
  All-In, inr, ◌≢◌, inl, ◌⊎◌, max, ℕ, ◌<◌, String, ◌≡◌, Bool, true, false, none, some, List, [],
  ◌∷◌, arith, is_some, All,
}
use showcase_host.Jobs.{
  or_else, Job, queued, running, succeeded, failed, get_job, is_claimable, requeue_expired,
  begin_attempt, extend_lease, beat_lease, record_failure, mark_succeeded, reset_failed,
  refresh_lease, heartbeat, fail_or_retry, succeed, requeue_failed,
}
use showcase_host.Jobs.Table.{HasKeys, get_job-In, All-update}
use showcase_host.Jobs.Claim.{IsAvailable}
use showcase_host.Jobs.Claim.Kept.{claim_next-ne-none, claim_next-All}
use showcase_host.Jobs.Events.Keys.{run-HasKeys}
use showcase_host.Jobs.Events.{
  Policy, Event, claim, refresh, beat, fail, finish, requeue, apply, run,
}

-- A running row has a lease, which can expire; a row that has ended says when.
pub record IsSound {X : Type 0} (j : Job X) : Type 0 where
  pub leased : j.status ≡ running → is_some j.lease_expires_at ≡ true
  pub done : j.status ≡ succeeded → is_some j.finished_at ≡ true
  pub given_up : j.status ≡ failed → is_some j.finished_at ≡ true

module _ {X : Type 0} where
  requeue_expired-IsSound : (now : ℕ) (j : Job X) → IsSound j → IsSound (requeue_expired now j)
  unfolding requeue_expired
  requeue_expired-IsSound now j h = ground arith

  begin_attempt-IsSound :
      (now lease : ℕ) (j : Job X) → IsSound j → IsSound (begin_attempt now lease j)
  unfolding begin_attempt
  begin_attempt-IsSound now lease j h = ground arith

  extend_lease-IsSound :
      (now lease : ℕ) (j : Job X) → IsSound j → IsSound (extend_lease now lease j)
  unfolding extend_lease
  extend_lease-IsSound now lease j h = ground arith

  beat_lease-IsSound : (now lease : ℕ) (j : Job X) → IsSound j → IsSound (beat_lease now lease j)
  unfolding beat_lease
  beat_lease-IsSound now lease j h = ground arith

  record_failure-IsSound :
      (now max_attempts : ℕ) (code message : String) (transient : Bool) (j : Job X)
      → IsSound j
      → IsSound (record_failure now max_attempts code message transient j)
  unfolding record_failure
  record_failure-IsSound now max_attempts code message transient j h = ground arith

  mark_succeeded-IsSound :
      (now : ℕ) (g : X → X) (j : Job X) → IsSound j → IsSound (mark_succeeded now g j)
  unfolding mark_succeeded
  mark_succeeded-IsSound now g j h = ground arith

  reset_failed-IsSound : (g : X → X) (j : Job X) → IsSound j → IsSound (reset_failed g j)
  unfolding reset_failed
  reset_failed-IsSound g j h = ground arith

  apply-IsSound :
      (p : Policy) (e : Event X) (jobs : List (Job X))
      → All IsSound jobs
      → All IsSound (apply p e jobs).1
  unfolding apply refresh_lease heartbeat fail_or_retry succeed requeue_failed
  apply-IsSound p (claim now locked) jobs h =
      claim_next-All now p.lease_seconds locked IsSound (requeue_expired-IsSound now)
        (begin_attempt-IsSound now p.lease_seconds) jobs h
  apply-IsSound p (refresh now id) jobs h =
      All-update IsSound id _ (extend_lease-IsSound now p.lease_seconds) jobs h
  apply-IsSound p (beat now id) jobs h =
      All-update IsSound id _ (beat_lease-IsSound now p.lease_seconds) jobs h
  apply-IsSound p (fail now id code message transient) jobs h =
      All-update IsSound id _ (record_failure-IsSound now p.max_attempts code message transient)
        jobs h
  apply-IsSound p (finish now id g) jobs h =
      All-update IsSound id _ (mark_succeeded-IsSound now g) jobs h
  apply-IsSound p (requeue id g) jobs h = All-update IsSound id _ (reset_failed-IsSound g) jobs h

-- Whatever the runners, workers and operators do, and in whatever order, every running row keeps a
-- lease and every ended row its end time.
pub run-IsSound :
    {X : Type 0} (p : Policy) (events : List (Event X)) (jobs : List (Job X))
    → All IsSound jobs
    → All IsSound (run p events jobs)
unfolding run
run-IsSound p [] jobs h = h
run-IsSound p (e ∷ es) jobs h = run-IsSound p es (apply p e jobs).1 (apply-IsSound p e jobs h)

module _ {X : Type 0} where
  -- The last moment at which a row still waits: for its next attempt, or for its lease to expire.
  abbrev waits_until : Job X → ℕ
  waits_until j = max (or_else j.next_attempt_at 0) (or_else j.lease_expires_at 0)

  abbrev IsUnfinished : Job X → Type 0
  IsUnfinished j = (j.status ≡ queued) ⊎ (j.status ≡ running)

  available_after :
      (now : ℕ) (locked : ℕ → Bool) (j : Job X)
      → IsSound j
      → IsUnfinished j
      → waits_until j < now
      → locked j.id ≡ false
      → IsAvailable now locked j
  unfolding requeue_expired is_claimable
  available_after now locked j h (inl e) late free = ground arith
  available_after now locked j h (inr e) late free = ground (arith, h.leased e)

-- From a table that is sound, whatever has been done to it: once the clock has passed the moment
-- until which some unfinished row waits, and no other transaction holds that row, `claim_next`
-- returns a row.
pub unfinished_is_claimed :
    {X : Type 0} (p : Policy) (events : List (Event X)) (jobs : List (Job X)) (j : Job X) (now : ℕ)
    (locked : ℕ → Bool)
    → HasKeys jobs
    → All IsSound jobs
    → get_job j.id (run p events jobs) ≡ some j
    → IsUnfinished j
    → waits_until j < now
    → locked j.id ≡ false
    → (apply p (claim now locked) (run p events jobs)).0 ≢ none
unfolding apply
unfinished_is_claimed p events jobs j now locked d h found open_ late free =
    claim_next-ne-none now p.lease_seconds locked (run p events jobs) j
      (run-HasKeys p events jobs d) found
      (available_after now locked j
        (All-In IsSound j _ (run-IsSound p events jobs h) (get_job-In j.id j _ found).0) open_ late
        free)
