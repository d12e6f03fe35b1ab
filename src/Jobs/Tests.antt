-- ===== src/Jobs/Tests.antt =====
-- Runs of the job table's operations, and the theorems about them at concrete tables.
use showcase_host.Prelude.{
  ℕ, ◌+◌, ◌≡◌, ◌≢◌, refl, inr, Bool, true, false, Option, none, some, List, [], ◌∷◌, All, arith,
}
use showcase_host.Jobs.{
  has_expired, Job, JobStatus, queued, running, claim_next, requeue_expired, is_claimable,
  begin_attempt,
}
use showcase_host.Jobs.Claim.Taken.{Claimed, claim_next-Claimed}
use showcase_host.Jobs.Events.{Policy, Event, claim, beat, fail, finish, requeue, run, apply}
use showcase_host.Jobs.Events.Sound.{IsSound, run-IsSound, unfinished_is_claimed}
use showcase_host.Jobs.Events.Leases.{Holds, run-Holds, claimed_ids, until_end}
use showcase_host.Jobs.Events.Attempts.{IsWithinCap, run-IsWithinCap, crashes, crashes_unbounded}

abbrev job : ℕ → JobStatus → Option ℕ → ℕ → Job (Unit {0})
job id status lease created_at = record {
  id = id;
  status = status;
  attempt_count = 0;
  next_attempt_at = none;
  lease_expires_at = lease;
  error_code = none;
  error_message = none;
  created_at = created_at;
  started_at = none;
  finished_at = none;
  details = tt;
}

-- One row that waits, and an older one whose lease ends at 10.
abbrev table : List (Job (Unit {0}))
table = job 1 queued none 5 ∷ job 2 running (some 10) 3 ∷ []

abbrev nobody : ℕ → Bool
nobody _ = false

abbrev policy : Policy
policy = record { lease_seconds = 300; max_attempts = 3 }

-- Before the lease ends the waiting row is claimed, and after it the older row.
claim_next_runs :
    ((claim_next 10 300 nobody table).0 ≡ some 1) × ((claim_next 11 300 nobody table).0 ≡ some 2)
unfolding claim_next requeue_expired is_claimable
claim_next_runs = (refl, refl)

claim_next-Claimed_example : Claimed 11 300 nobody table (claim_next 11 300 nobody table)
claim_next-Claimed_example = claim_next-Claimed 11 300 nobody table (refl, (refl, tt))

-- The worker of row 2 fails for good, and an operator requeues the row.
abbrev events : List (Event (Unit {0}))
events =
    claim 10 nobody
    ∷ beat 10 2
    ∷ fail 10 2 "snapshot_missing" "Source snapshot no longer exists" false
    ∷ requeue 2 (λ x. x)
    ∷ finish 12 1 (λ x. x)
    ∷ []

table-IsSound : All IsSound table
table-IsSound = (
  record { leased = λ e. cc; done = λ e. cc; given_up = λ e. cc },
  (record { leased = λ e. refl; done = λ e. cc; given_up = λ e. cc }, tt),
)

run-IsSound_example : All IsSound (run policy events table)
run-IsSound_example = run-IsSound policy events table table-IsSound

-- Once both the backoff of row 2 and every lease are over, some row is claimed.
unfinished_is_claimed_example : (apply policy (claim 21 nobody) (run policy [] table)).0 ≢ none
unfolding run
unfinished_is_claimed_example =
    unfinished_is_claimed policy [] table (job 2 running (some 10) 3) 21 nobody (refl, (refl, tt))
      table-IsSound refl (inr refl) (omega arith) refl

-- The claims of others go to row 1 until a worker fails row 2.
abbrev others : List (Event (Unit {0}))
others =
    claim 9 nobody
    ∷ beat 9 2
    ∷ requeue 2 (λ u. u)
    ∷ fail 9 1 "internal" "died" true
    ∷ claim 10 nobody
    ∷ fail 10 2 "internal" "stale" true
    ∷ claim 10 nobody
    ∷ []

run-Holds_example :
    Holds 2 0 10 (run policy (until_end 2 others) table)
    × All (λ c. c ≢ some 2) (claimed_ids policy (until_end 2 others) table)
run-Holds_example =
    run-Holds 2 0 10 policy others table (refl, (refl, tt))
      (
        job 2 running (some 10) 3,
        refl,
        record { until = 10; runs = refl; attempt = refl; leased = refl; lasts = omega arith },
      )
      (omega arith, (inr (omega arith), (tt, (tt, (omega arith, tt)))))

table-IsWithinCap : All (IsWithinCap policy) table
table-IsWithinCap = (
  record { made = omega arith; left = λ e. omega arith },
  (record { made = omega arith; left = λ e. cc }, tt),
)

run-IsWithinCap_example : All (IsWithinCap policy) (run policy events table)
unfolding has_expired apply claim_next requeue_expired is_claimable begin_attempt
run-IsWithinCap_example =
    run-IsWithinCap policy events table (refl, (refl, tt)) ((refl, (refl, tt)), tt)
      table-IsWithinCap

-- Ten attempts under a policy of three.
crashes_unbounded_example :
    (r : Job (Unit {0})) × (run policy (crashes policy 10 10) (job 2 running (some 10) 3 ∷ [])
      ≡ r ∷ [])
    × (r.attempt_count ≡ 0 + 10)
    × (r.status ≡ running)
crashes_unbounded_example =
    crashes_unbounded policy 10 10 (job 2 running (some 10) 3) refl refl refl
