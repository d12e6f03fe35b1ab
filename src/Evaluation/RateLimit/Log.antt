-- ===== src/Evaluation/RateLimit/Log.antt =====
-- The log of all grants, and the sums that the rolling window keeps for it.
use showcase_host.Prelude.{
  ◌≤◌, ℕ, ◌≡◌, ◌+◌, suc, refl, List, [], ◌∷◌, ◌++◌, filter, All, arith, length, none, ltb,
}
use showcase_host.Evaluation.RateLimit.{
  Grant, Budget, Clock, Limiter, granted, minute, minimum_interval, sleep, acquire,
}
use showcase_host.Evaluation.RateLimit.Window.{tokens_in, IsOld}

-- The grants of the log that are younger than a minute at the time `now`.
abbrev pub recent : Budget → ℕ → List Grant → List Grant
recent budget now log = filter (λ (g : Grant). ltb now (g.time + minute budget)) log

-- A grant that respects the budget together with all grants of the minute that ends with it, and the
-- interval to each earlier grant.
pub record Respects (budget : Budget) (log : List Grant) (g : Grant) : Type 0 where
  pub requests : suc (length (recent budget g.time log)) ≤ budget.requests_per_minute
  pub tokens : tokens_in (recent budget g.time log) + g.tokens ≤ budget.tokens_per_minute
  pub interval : All (λ (h : Grant). h.time + minimum_interval ≤ g.time) log

-- Every grant of the log respects the budget at its time.
pub data Paced (budget : Budget) : List Grant → Type 0 where
  paced_start : Paced budget []
  paced_next :
      (log : List Grant) (g : Grant)
      → Paced budget log
      → Respects budget log g
      → Paced budget (log ++ g ∷ [])

-- The states of a limiter after a log of grants; before each request any time passes.
pub data Reaches (lag : ℕ → ℕ) (budget : Budget) : Limiter → Clock → List Grant → Type 0 where
  reaches_start :
      (c : Clock) → Reaches lag budget (record { window = []; last_request = none }) c []
  reaches_next :
      (limiter limiter' : Limiter) (c c' : Clock) (log : List Grant) (pause estimated : ℕ)
      → Reaches lag budget limiter c log
      → acquire lag budget estimated limiter (sleep pause c) ≡ granted limiter' c'
      → Reaches lag budget limiter' c' (log ++ record { time = c'.time; tokens = estimated } ∷ [])

pub recent-length :
    (budget : Budget) (now : ℕ) (gs : List Grant) → length (recent budget now gs) ≤ length gs
recent-length budget now [] = ground arith
recent-length budget now (g ∷ gs) = ground (arith, recent-length budget now gs)

pub recent-tokens :
    (budget : Budget) (now : ℕ) (gs : List Grant) → tokens_in (recent budget now gs) ≤ tokens_in gs
recent-tokens budget now [] = ground arith
recent-tokens budget now (g ∷ gs) = ground (arith, recent-tokens budget now gs)

pub recent-olds :
    (budget : Budget) (now : ℕ) (olds gs : List Grant)
    → All (IsOld budget now) olds
    → recent budget now (olds ++ gs) ≡ recent budget now gs
recent-olds budget now [] gs h = refl
recent-olds budget now (o ∷ olds) gs h = ground (arith, recent-olds budget now olds gs h.1)
