-- ===== src/Evaluation/RateLimit/Pace.antt =====
-- The rolling window of the limiter keeps the sums of its whole log.
use showcase_host.Prelude.{
  inr, inl, Bool-cases, sym, append_assoc, ◌∙◌, ap, ◌≤◌, ℕ, ◌≡◌, ◌+◌, zero, suc, refl, List, [],
  ◌∷◌, ◌++◌, All, All-append, All-imp, arith, length, some, none, Option, ltb,
}
use showcase_host.Evaluation.RateLimit.{
  Grant, Budget, Clock, Limiter, Acquired, granted, minimum_interval, drop_old, interval_wait,
  wait_for, read_clock, sleep, grant, wait_or_grant, wait_loop, acquire,
}
use showcase_host.Evaluation.RateLimit.Log.{
  recent, Respects, Paced, paced_start, paced_next, Reaches, reaches_start, reaches_next,
  recent-length, recent-tokens, recent-olds,
}
use showcase_host.Evaluation.RateLimit.Window.{
  tokens_in, IsOld, IsYoung, drop_old-split, wait_for-zero,
}

granted_limiter : {l l' : Limiter} {c c' : Clock} → granted l c ≡ granted l' c' → l ≡ l'
granted_limiter e = cc e

granted_clock : {l l' : Limiter} {c c' : Clock} → granted l c ≡ granted l' c' → c ≡ c'
granted_clock e = cc e

-- The last request is at least as late as the grant.
abbrev IsBy : Option ℕ → Grant → Type 0
IsBy none g = ⊥
IsBy (some last) g = g.time ≤ last

-- The window is the end of the log, and what it has lost is old.
record Tracks (budget : Budget) (log : List Grant) (last : Option ℕ) (window : List Grant) (now : ℕ)
    : Type 0 where
  dropped : List Grant
  split : log ≡ dropped ++ window
  olds : All (IsOld budget now) dropped
  by_last : All (IsBy last) log

interval_of :
    (now : ℕ) (last : Option ℕ) (g : Grant)
    → interval_wait now last ≡ 0
    → IsBy last g
    → g.time + minimum_interval ≤ now
unfolding interval_wait
interval_of now none g over h = absurd h
interval_of now (some l) g over h = omega arith

module _ (lag : ℕ → ℕ) (budget : Budget) (estimated : ℕ)
    (some_rate : 1 ≤ budget.requests_per_minute) where
  Tracks-later :
      (log : List Grant) (last : Option ℕ) (window : List Grant) (now later : ℕ)
      → now ≤ later
      → Tracks budget log last window now
      → Tracks budget log last window later
  Tracks-later log last window now later ordered h = record {
    dropped = h.dropped;
    split = h.split;
    by_last = h.by_last;
    olds = All-imp (IsOld budget now) (IsOld budget later) (λ g old. omega arith) h.dropped h.olds;
  }

  Tracks-drop_old :
      (log : List Grant) (last : Option ℕ) (window : List Grant) (now : ℕ)
      → Tracks budget log last window now
      → Tracks budget log last (drop_old budget now window) now
  Tracks-drop_old log last window now h =
      let (more, split, olds, young) = drop_old-split budget now window some_rate in
      record {
        dropped = h.dropped ++ more;
        split =
            h.split
            ∙ ap (λ w. h.dropped ++ w) split
            ∙ sym (append_assoc h.dropped more (drop_old budget now window));
        olds = All-append (IsOld budget now) h.dropped more h.olds olds;
        by_last = h.by_last;
      }

  -- A request that the window holds respects the budget over the whole log.
  Tracks-Respects :
      (log : List Grant) (last : Option ℕ) (window : List Grant) (now later : ℕ)
      → now ≤ later
      → Tracks budget log last window later
      → interval_wait now last ≡ 0
      → suc (length window) ≤ budget.requests_per_minute
      → tokens_in window + estimated ≤ budget.tokens_per_minute
      → Respects budget log (record { time = later; tokens = estimated })
  Tracks-Respects log last window now later ordered h over few small =
      let same =
        ap (recent budget later) h.split ∙ recent-olds budget later h.dropped window h.olds in
      record {
        requests = omega (arith, ap length same, recent-length budget later window);
        tokens = omega (arith, ap tokens_in same, recent-tokens budget later window);
        interval =
            All-imp (IsBy last) (λ (g : Grant). g.time + minimum_interval ≤ later)
              (λ g by. omega (arith, interval_of now last g over by)) log h.by_last;
      }

  Tracks-grant :
      (log : List Grant) (last : Option ℕ) (window : List Grant) (now : ℕ)
      → Tracks budget log last window now
      → All (λ (g : Grant). g.time + minimum_interval ≤ now) log
      → Tracks budget
          (log ++ record { time = now; tokens = estimated } ∷ [])
          (some now)
          (window ++ record { time = now; tokens = estimated } ∷ [])
          now
  Tracks-grant log last window now h interval = record {
    dropped = h.dropped;
    split =
        ap (λ l. l ++ record { time = now; tokens = estimated } ∷ []) h.split
        ∙ append_assoc h.dropped window (record { time = now; tokens = estimated } ∷ []);
    olds = h.olds;
    by_last =
        All-append (IsBy (some now)) log (record { time = now; tokens = estimated } ∷ [])
          (All-imp (λ (g : Grant). g.time + minimum_interval ≤ now) (IsBy (some now))
            (λ g by. omega arith) log interval)
          (omega arith, tt);
  }

  -- What a grant of the loop says of the log.
  abbrev IsNext : List Grant → Limiter → Clock → Type 0
  IsNext log limiter c =
      let g : Grant = record { time = c.time; tokens = estimated } in
      Respects budget log g
      × Tracks budget (log ++ g ∷ []) limiter.last_request limiter.window c.time

  granted-IsNext :
      (log window : List Grant) (c c' : Clock) (limiter : Limiter)
      → Respects budget log (record { time = c.time; tokens = estimated })
      → Tracks budget
          (log ++ record { time = c.time; tokens = estimated } ∷ [])
          (some c.time)
          (window ++ record { time = c.time; tokens = estimated } ∷ [])
          c.time
      → grant estimated window c ≡ granted limiter c'
      → IsNext log limiter c'
  unfolding grant
  granted-IsNext log window c c' limiter respects tracks e =
      rw (← (granted_limiter e)) (rw (← (granted_clock e)) (respects, tracks))

  round-IsNext :
      (log : List Grant) (last : Option ℕ) (window : List Grant) (c c' : Clock) (limiter : Limiter)
      (again : Clock → Acquired) (wait : Option ℕ)
      → ((later : Clock)
          → c.time ≤ later.time
          → again later ≡ granted limiter c'
          → IsNext log limiter c')
      → Tracks budget log last window c.time
      → IsYoung budget c.time window
      → wait_for budget c.time estimated last window ≡ wait
      → wait_or_grant lag estimated window c again wait ≡ granted limiter c'
      → IsNext log limiter c'
  unfolding wait_or_grant grant
  round-IsNext log last window c c' limiter again none next h young waits e = absurd (cc e)
  round-IsNext log last window c c' limiter again (some (suc w)) next h young waits e =
      next (sleep (suc w) c) (omega arith) e
  round-IsNext log last window c c' limiter again (some zero) next h young waits e =
      let read = read_clock lag c in
      let tracked = Tracks-later log last window c.time read.time (omega arith) h in
      let (over, few, small) = wait_for-zero budget c.time estimated last window young waits in
      let respects =
        Tracks-Respects log last window c.time read.time (omega arith) tracked over few small in
      granted-IsNext log window read c' limiter respects
        (Tracks-grant log last window read.time tracked respects.interval) e

  wait_loop-IsNext :
      (fuel : ℕ) (log : List Grant) (last : Option ℕ) (window : List Grant) (c c' : Clock)
      (limiter : Limiter)
      → Tracks budget log last window c.time
      → wait_loop lag budget estimated last fuel window c ≡ granted limiter c'
      → IsNext log limiter c'
  unfolding wait_loop
  wait_loop-IsNext zero log last window c c' limiter h e = absurd (cc e)
  wait_loop-IsNext (suc fuel) log last window c c' limiter h e =
      let read = read_clock lag c in
      let left = drop_old budget read.time window in
      let tracked =
        Tracks-drop_old log last window read.time
          (Tracks-later log last window c.time read.time (omega arith) h) in
      round-IsNext log last left read c' limiter (wait_loop lag budget estimated last fuel left)
        (wait_for budget read.time estimated last left)
        (λ later ordered again.
          wait_loop-IsNext fuel log last left later c' limiter
            (Tracks-later log last left read.time later.time ordered tracked) again)
        tracked (drop_old-split budget read.time window some_rate).3 refl e

  acquire-IsNext :
      (log : List Grant) (limiter : Limiter) (c c' : Clock) (limiter' : Limiter)
      → Tracks budget log limiter.last_request limiter.window c.time
      → acquire lag budget estimated limiter c ≡ granted limiter' c'
      → IsNext log limiter' c'
  unfolding acquire
  acquire-IsNext log limiter c c' limiter' h =
      elim (Bool-cases (ltb budget.tokens_per_minute estimated)) [
        | inl over ↦ rw over (λ e. absurd (cc e))
        | inr within ↦ rw within (
            wait_loop-IsNext (2 + length limiter.window) log limiter.last_request limiter.window c
              c' limiter' h)
      ]

-- The window of a limiter that a log of grants reaches is the end of that log.
Reaches-Tracks :
    (lag : ℕ → ℕ) (budget : Budget) (limiter : Limiter) (c : Clock) (log : List Grant)
    → 1 ≤ budget.requests_per_minute
    → Reaches lag budget limiter c log
    → Paced budget log × Tracks budget log limiter.last_request limiter.window c.time
Reaches-Tracks lag budget _ _ _ some_rate (reaches_start c) =
    (paced_start, record { dropped = []; split = refl; olds = tt; by_last = tt })
Reaches-Tracks lag budget _ _ _ some_rate
      (reaches_next limiter limiter' c c' log pause estimated reached e) =
    let (paced, tracks) = Reaches-Tracks lag budget limiter c log some_rate reached in
    let (respects, tracks') =
      acquire-IsNext lag budget estimated some_rate log limiter (sleep pause c) c' limiter'
        (Tracks-later lag budget estimated some_rate log limiter.last_request limiter.window c.time
          (sleep pause c).time (omega arith) tracks)
        e in
    (paced_next log (record { time = c'.time; tokens = estimated }) paced respects, tracks')

-- Whatever the requests, the delays of the clock and the pauses between requests: in the minute that
-- ends with any grant, there are at most `requests_per_minute` grants of at most `tokens_per_minute`
-- tokens, and any two grants are at least the minimum interval apart.
pub Reaches-Paced :
    (lag : ℕ → ℕ) (budget : Budget) (limiter : Limiter) (c : Clock) (log : List Grant)
    → 1 ≤ budget.requests_per_minute
    → Reaches lag budget limiter c log
    → Paced budget log
Reaches-Paced lag budget limiter c log some_rate reached =
    (Reaches-Tracks lag budget limiter c log some_rate reached).0
