-- ===== src/Jobs/Events/Keys.antt =====
-- Every operation keeps the primary key of a job table.
use showcase_host.Prelude.{ℕ, String, Bool, List, [], ◌∷◌, arith}
use showcase_host.Jobs.{
  Job, extend_lease, beat_lease, record_failure, mark_succeeded, reset_failed, refresh_lease,
  heartbeat, fail_or_retry, succeed, requeue_failed,
}
use showcase_host.Jobs.Table.{HasKeys, KeepsId, update-HasKeys}
use showcase_host.Jobs.Claim.Kept.{claim_next-HasKeys}
use showcase_host.Jobs.Events.{
  Policy, Event, claim, refresh, beat, fail, finish, requeue, apply, run,
}

module _ {X : Type 0} where
  pub extend_lease-KeepsId : (now lease : ℕ) → KeepsId (extend_lease {X = X} now lease)
  unfolding extend_lease
  extend_lease-KeepsId now lease j = ground arith

  pub beat_lease-KeepsId : (now lease : ℕ) → KeepsId (beat_lease {X = X} now lease)
  unfolding beat_lease
  beat_lease-KeepsId now lease j = ground arith

  pub record_failure-KeepsId :
      (now max_attempts : ℕ) (code message : String) (transient : Bool)
      → KeepsId (record_failure {X = X} now max_attempts code message transient)
  unfolding record_failure
  record_failure-KeepsId now max_attempts code message transient j = ground arith

  pub mark_succeeded-KeepsId : (now : ℕ) (g : X → X) → KeepsId (mark_succeeded {X = X} now g)
  unfolding mark_succeeded
  mark_succeeded-KeepsId now g j = ground arith

  pub reset_failed-KeepsId : (g : X → X) → KeepsId (reset_failed {X = X} g)
  unfolding reset_failed
  reset_failed-KeepsId g j = ground arith

  pub apply-HasKeys :
      (p : Policy) (e : Event X) (jobs : List (Job X)) → HasKeys jobs → HasKeys (apply p e jobs).1
  unfolding apply refresh_lease heartbeat fail_or_retry succeed requeue_failed
  apply-HasKeys p (claim now locked) jobs h = claim_next-HasKeys now p.lease_seconds locked jobs h
  apply-HasKeys p (refresh now id) jobs h =
      update-HasKeys id _ jobs (extend_lease-KeepsId now p.lease_seconds) h
  apply-HasKeys p (beat now id) jobs h =
      update-HasKeys id _ jobs (beat_lease-KeepsId now p.lease_seconds) h
  apply-HasKeys p (fail now id code message transient) jobs h =
      update-HasKeys id _ jobs (record_failure-KeepsId now p.max_attempts code message transient) h
  apply-HasKeys p (finish now id g) jobs h =
      update-HasKeys id _ jobs (mark_succeeded-KeepsId now g) h
  apply-HasKeys p (requeue id g) jobs h = update-HasKeys id _ jobs (reset_failed-KeepsId g) h

  pub run-HasKeys :
      (p : Policy) (events : List (Event X)) (jobs : List (Job X))
      → HasKeys jobs
      → HasKeys (run p events jobs)
  unfolding run
  run-HasKeys p [] jobs h = h
  run-HasKeys p (e ∷ es) jobs h = run-HasKeys p es (apply p e jobs).1 (apply-HasKeys p e jobs h)
