-- ===== src/Evaluation/RateLimit.antt =====
-- The limiter of generation requests in app/evaluation/rate_limit.py. Times are exact counts of the
-- unit 1 / requests_per_minute seconds, in which a minute is 60 * requests_per_minute units and
-- `minimum_interval` is 60.
pub mod Window
pub mod Log
pub mod Pace
mod Tests
pub mod Progress
use showcase_host.Prelude.{
  ℕ, zero, suc, ◌+◌, ◌-◌, ◌*◌, ◌/◌, String, Bool, true, false, ◌||◌, Option, none, some, List, [],
  ◌∷◌, ◌++◌, leb, ltb, if◌then◌else◌, length, sum_by,
}

-- An element of `_window`: a timestamp and the tokens of its request.
pub record Grant : Type 0 where
  pub time : ℕ
  pub tokens : ℕ

pub record Limiter : Type 0 where
  pub window : List Grant
  pub last_request : Option ℕ

pub record Budget : Type 0 where
  pub requests_per_minute : ℕ
  pub tokens_per_minute : ℕ

abbrev pub minute : Budget → ℕ
minute budget = 60 * budget.requests_per_minute

abbrev pub minimum_interval : ℕ
minimum_interval = 60

-- The time, and how often the clock was read.
pub record Clock : Type 0 where
  pub time : ℕ
  pub reads : ℕ

-- `estimate_tokens` of the messages' lengths.
unfoldable pub estimate_tokens : List ℕ → ℕ → ℕ
estimate_tokens lengths completion_tokens = (sum_by (λ n. n) lengths + 1) / 2 + completion_tokens

-- The `while` loop that drops the grants of which a minute has passed.
unfoldable pub drop_old : Budget → ℕ → List Grant → List Grant
drop_old budget now [] = []
drop_old budget now (g ∷ window) =
    let rest = drop_old budget now window in
    if leb (minute budget) (now - g.time) then rest else g ∷ window

unfoldable pub interval_wait : ℕ → Option ℕ → ℕ
interval_wait now none = 0
interval_wait now (some last) = last + minimum_interval - now

abbrev pub is_full : Budget → ℕ → List Grant → Bool
is_full budget estimated window =
    leb budget.requests_per_minute (length window)
    || ltb budget.tokens_per_minute (sum_by (λ (g : Grant). g.tokens) window + estimated)

-- What `acquire` comes to: an `IndexError` of `self._window[0]` and a `ValueError` are exceptions.
pub data Acquired : Type 0 where
  granted : Limiter → Clock → Acquired
  exceeds_budget : Acquired
  index_error : Acquired
  out_of_fuel : Acquired

abbrev pub max : ℕ → ℕ → ℕ
max a b = if leb a b then b else a

-- `max(waits, default=0.0)`, or `none` for an `IndexError`. Waits below 0 count as 0.
unfoldable pub wait_for : Budget → ℕ → ℕ → Option ℕ → List Grant → Option ℕ
wait_for budget now estimated last [] =
    if is_full budget estimated [] then none else some (interval_wait now last)
wait_for budget now estimated last (g ∷ window) =
    if is_full budget estimated (g ∷ window)
    then some (max (interval_wait now last) (g.time + minute budget - now))
    else some (interval_wait now last)

abbrev pub sleep : ℕ → Clock → Clock
sleep t c = record { time = c.time + t; reads = c.reads }

-- From `timestamp = self._clock()` on, with the clock read.
unfoldable pub grant : ℕ → List Grant → Clock → Acquired
grant estimated window c =
    granted
      (record {
        window = window ++ record { time = c.time; tokens = estimated } ∷ [];
        last_request = some c.time;
      })
      c

-- `lag` gives the time that passes before each reading of the clock, on top of the sleeps.
module _ (lag : ℕ → ℕ) where
  abbrev pub read_clock : Clock → Clock
  read_clock c = record { time = c.time + lag c.reads; reads = c.reads + 1 }

  -- From `if wait_for > 0` on; `again` is the next round of the loop.
  unfoldable pub wait_or_grant : ℕ → List Grant → Clock → (Clock → Acquired) → Option ℕ → Acquired
  wait_or_grant estimated window c again none = index_error
  wait_or_grant estimated window c again (some zero) = grant estimated window (read_clock c)
  wait_or_grant estimated window c again (some (suc wait)) = again (sleep (suc wait) c)

  -- The `while True` loop, which the lock keeps to one request.
  unfoldable pub wait_loop : Budget → ℕ → Option ℕ → ℕ → List Grant → Clock → Acquired
  wait_loop budget estimated last zero window c = out_of_fuel
  wait_loop budget estimated last (suc fuel) window c =
      wait_or_grant estimated (drop_old budget (read_clock c).time window) (read_clock c)
        (wait_loop budget estimated last fuel (drop_old budget (read_clock c).time window))
        (wait_for budget (read_clock c).time estimated last
          (drop_old budget (read_clock c).time window))

  -- The rounds are bounded by the window's length and two more, which `acquire-granted` shows enough.
  unfoldable pub acquire : Budget → ℕ → Limiter → Clock → Acquired
  acquire budget estimated limiter c =
      if ltb budget.tokens_per_minute estimated
      then exceeds_budget
      else wait_loop budget estimated limiter.last_request (2 + length limiter.window)
          limiter.window c
