-- ===== src/Evaluation/RateLimit/Progress.antt =====
-- The loop of the limiter ends: one sleep ends the interval, and every further one an old grant.
use showcase_host.Prelude.{
  Bool-cases, ◌≤◌, ℕ, ◌≡◌, ◌+◌, ◌-◌, Bool-cases, ltb, ◌⊎◌, zero, suc, refl, inl, inr, List, [], ◌∷◌,
  arith, length, some, none, Option,
}
use showcase_host.Evaluation.RateLimit.{
  suc, Grant, Budget, Clock, Limiter, Acquired, granted, minute, drop_old, interval_wait, is_full,
  wait_for, max, read_clock, sleep, grant, wait_or_grant, wait_loop, acquire,
}
use showcase_host.Evaluation.RateLimit.Window.{drop_old-length}

interval_wait-later :
    (now later : ℕ) (last : Option ℕ)
    → now ≤ later
    → interval_wait later last ≤ interval_wait now last - (later - now)
unfolding interval_wait
interval_wait-later now later none ordered = ground arith
interval_wait-later now later (some l) ordered = omega arith

module _ (lag : ℕ → ℕ) (budget : Budget) (estimated : ℕ) (last : Option ℕ) where
  -- The loop comes to an end.
  abbrev IsGranted : Acquired → Type 0
  IsGranted a = (limiter : Limiter) × (c : Clock) × (a ≡ granted limiter c)

  wait_cases :
      {found : Option ℕ} (wait : ℕ)
      → found ≡ some wait
      → (found ≡ some 0) ⊎ ((w : ℕ) × (found ≡ some (suc w)))
  wait_cases zero e = inl e
  wait_cases (suc w) e = inr (w, e)

  wait_for-total :
      (now : ℕ) (window : List Grant)
      → 1 ≤ budget.requests_per_minute
      → estimated ≤ budget.tokens_per_minute
      → (wait_for budget now estimated last window ≡ some 0)
        ⊎ ((wait : ℕ) × (wait_for budget now estimated last window ≡ some (suc wait)))
  unfolding wait_for
  wait_for-total now [] some_rate fits = wait_cases (interval_wait now last) (ground arith)
  wait_for-total now (g ∷ window) some_rate fits =
      elim (Bool-cases (is_full budget estimated (g ∷ window))) [
        | inl full ↦
            rw full (wait_cases (max (interval_wait now last) (g.time + minute budget - now)) refl)
        | inr free ↦ rw free (wait_cases (interval_wait now last) refl)
      ]

  -- Where the interval is over, a wait is one for the oldest grant, which the next round drops.
  wait_for-shrinks :
      (now later wait : ℕ) (window : List Grant)
      → interval_wait now last ≡ 0
      → wait_for budget now estimated last window ≡ some (suc wait)
      → now + suc wait ≤ later
      → suc (length (drop_old budget later window)) ≤ length window
  unfolding wait_for drop_old
  wait_for-shrinks now later wait [] over e h = ground arith
  wait_for-shrinks now later wait (g ∷ window) over e h =
      ground (arith, drop_old-length budget later window)

  wait_for-interval :
      (now later wait : ℕ) (window : List Grant)
      → wait_for budget now estimated last window ≡ some (suc wait)
      → now + suc wait ≤ later
      → interval_wait later last ≡ 0
  unfolding wait_for
  wait_for-interval now later wait [] e h =
      ground (arith, interval_wait-later now later last (omega arith))
  wait_for-interval now later wait (g ∷ window) e h =
      ground (arith, interval_wait-later now later last (omega arith))

  -- A window that the interval no longer holds up has its grant within as many rounds as it has grants
  -- and one more.
  wait_loop-over :
      (fuel : ℕ) (window : List Grant) (c : Clock)
      → 1 ≤ budget.requests_per_minute
      → estimated ≤ budget.tokens_per_minute
      → interval_wait c.time last ≡ 0
      → suc (length (drop_old budget (read_clock lag c).time window)) ≤ fuel
      → IsGranted (wait_loop lag budget estimated last fuel window c)
  unfolding wait_loop wait_or_grant grant
  wait_loop-over zero window c some_rate fits over enough = absurd (omega arith)
  wait_loop-over (suc fuel) window c some_rate fits over enough =
      let now = (read_clock lag c).time in
      let left = drop_old budget now window in
      elim (wait_for-total now left some_rate fits) [
        | inl e ↦ rw e (_, _, refl)
        | inr (wait, e) ↦ rw e (
            let later = sleep (suc wait) (read_clock lag c) in
            wait_loop-over fuel left later some_rate fits
              (omega (arith, interval_wait-later c.time later.time last (omega arith)))
              (omega (
                arith,
                wait_for-shrinks now (read_clock lag later).time wait left
                    (omega (arith, interval_wait-later c.time now last (omega arith))) e
                    (omega arith),
              )))
      ]

  wait_loop-IsGranted :
      (fuel : ℕ) (window : List Grant) (c : Clock)
      → 1 ≤ budget.requests_per_minute
      → estimated ≤ budget.tokens_per_minute
      → 2 + length window ≤ fuel
      → IsGranted (wait_loop lag budget estimated last fuel window c)
  unfolding wait_loop wait_or_grant grant
  wait_loop-IsGranted zero window c some_rate fits enough = absurd (omega arith)
  wait_loop-IsGranted (suc fuel) window c some_rate fits enough =
      let now = (read_clock lag c).time in
      let left = drop_old budget now window in
      elim (wait_for-total now left some_rate fits) [
        | inl e ↦ rw e (_, _, refl)
        | inr (wait, e) ↦ rw e (
            let later = sleep (suc wait) (read_clock lag c) in
            wait_loop-over fuel left later some_rate fits
              (wait_for-interval now later.time wait left e (omega arith))
              (omega (
                arith,
                drop_old-length budget now window,
                drop_old-length budget (read_clock lag later).time left,
              )))
      ]

-- However late the clock is read, a request within the token budget gets its grant after finitely many
-- rounds, and never the error of an empty window.
pub acquire-granted :
    (lag : ℕ → ℕ) (budget : Budget) (estimated : ℕ) (limiter : Limiter) (c : Clock)
    → 1 ≤ budget.requests_per_minute
    → estimated ≤ budget.tokens_per_minute
    → (limiter' : Limiter) × (c' : Clock) × (acquire lag budget estimated limiter c
        ≡ granted limiter' c')
unfolding acquire
acquire-granted lag budget estimated limiter c some_rate fits =
    elim (Bool-cases (ltb budget.tokens_per_minute estimated)) [
      | inl over ↦ absurd (ground arith)
      | inr within ↦ rw within (
          wait_loop-IsGranted lag budget estimated limiter.last_request (2 + length limiter.window)
            limiter.window c some_rate fits (omega arith))
    ]
