-- ===== src/Evaluation/RateLimit/Tests.antt =====
-- The requests of test_evaluation_rate_limit.py: 20 requests and 1000 tokens per minute, with a clock
-- that no reading delays. A second is 20 units.
use showcase_host.Prelude.{ℕ, ◌≡◌, refl, [], ◌∷◌, ◌++◌, some, none, arith}
use showcase_host.Evaluation.RateLimit.{
  Grant, Budget, Clock, Limiter, granted, drop_old, interval_wait, wait_for, grant, wait_or_grant,
  wait_loop, acquire, estimate_tokens,
}
use showcase_host.Evaluation.RateLimit.Log.{Paced, reaches_start, reaches_next}
use showcase_host.Evaluation.RateLimit.Pace.{Reaches-Paced}
use showcase_host.Evaluation.RateLimit.Progress.{acquire-granted}

abbrev prompt : ℕ → ℕ
prompt n = 0

abbrev budget : Budget
budget = record { requests_per_minute = 20; tokens_per_minute = 1000 }

abbrev at : ℕ → ℕ → Clock
at time reads = record { time = time; reads = reads }

abbrev grant_at : ℕ → ℕ → Grant
grant_at time tokens = record { time = time; tokens = tokens }

abbrev limiter_0 : Limiter
limiter_0 = record { window = []; last_request = none }

abbrev limiter_1 : Limiter
limiter_1 = record { window = grant_at 0 600 ∷ []; last_request = some 0 }

abbrev limiter_2 : Limiter
limiter_2 = record { window = grant_at 0 600 ∷ grant_at 60 400 ∷ []; last_request = some 60 }

abbrev limiter_3 : Limiter
limiter_3 = record { window = grant_at 60 400 ∷ grant_at 1200 600 ∷ []; last_request = some 1200 }

first_runs : acquire prompt budget 600 limiter_0 (at 0 0) ≡ granted limiter_1 (at 0 2)
unfolding acquire wait_loop wait_or_grant grant wait_for interval_wait drop_old
first_runs = refl

-- It sleeps for 3 seconds.
second_runs : acquire prompt budget 400 limiter_1 (at 0 2) ≡ granted limiter_2 (at 60 5)
unfolding acquire wait_loop wait_or_grant grant wait_for interval_wait drop_old
second_runs = refl

-- It sleeps for 57 seconds.
third_runs : acquire prompt budget 600 limiter_2 (at 60 5) ≡ granted limiter_3 (at 1200 8)
unfolding acquire wait_loop wait_or_grant grant wait_for interval_wait drop_old
third_runs = refl

estimate_tokens_runs : estimate_tokens (400 ∷ []) 50 ≡ 250
unfolding estimate_tokens
estimate_tokens_runs = refl

Reaches-Paced_example : Paced budget (([] ++ grant_at 0 600 ∷ []) ++ grant_at 60 400 ∷ [])
Reaches-Paced_example =
    Reaches-Paced prompt budget limiter_2 (at 60 5)
      (([] ++ grant_at 0 600 ∷ []) ++ grant_at 60 400 ∷ []) (omega arith)
      (reaches_next limiter_1 limiter_2 (at 0 2) (at 60 5) ([] ++ grant_at 0 600 ∷ []) 0 400
        (reaches_next limiter_0 limiter_1 (at 0 0) (at 0 2) [] 0 600 (reaches_start (at 0 0))
          first_runs)
        second_runs)

acquire-granted_example :
    (limiter' : Limiter) × (c' : Clock) × (acquire prompt budget 600 limiter_2 (at 60 5)
      ≡ granted limiter' c')
acquire-granted_example =
    acquire-granted prompt budget 600 limiter_2 (at 60 5) (omega arith) (omega arith)
