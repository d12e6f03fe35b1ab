-- ===== src/Embeddings/Retry.antt =====
-- What `_retry` returns: the first attempt that is no retryable provider error, or the last one.
use showcase_host.Prelude.{
  ◌<◌, ◌≤◌, ℕ, zero, suc, ◌+◌, ◌≡◌, refl, sym, ◌∙◌, ◌⊎◌, inl, inr, true, false, ltb, ap, leb,
  Bool-cases, arith,
}
use showcase_host.Embeddings.Calls.{
  Response, returns, provider_error, other_error, after_attempt, retry_from, retry,
}

-- The attempt that decides a retried call, after attempts that all failed in a retryable way.
pub record Decides {A : Type 0} (max_retries : ℕ) (operation : ℕ → Response A) (result : Response A)
    : Type 0 where
  pub attempt : ℕ
  pub bounded : attempt ≤ max_retries
  pub earlier : (j : ℕ) → j < attempt → operation j ≡ provider_error true
  pub decided : result ≡ operation attempt
  pub reason : (attempt ≡ max_retries) ⊎ (¬ operation attempt ≡ provider_error true)

module _ {A : Type 0} (max_retries : ℕ) (operation : ℕ → Response A) where
  after_attempt-Decides :
      (attempt : ℕ) (again r : Response A)
      → operation attempt ≡ r
      → attempt ≤ max_retries
      → ((j : ℕ) → j < attempt → operation j ≡ provider_error true)
      → (suc attempt ≤ max_retries
          → operation attempt ≡ provider_error true
          → Decides max_retries operation again)
      → Decides max_retries operation (after_attempt max_retries attempt again r)
  unfolding after_attempt
  after_attempt-Decides attempt again (returns a) e bounded earlier next = record {
    attempt = attempt;
    bounded = bounded;
    earlier = earlier;
    decided = sym e;
    reason = inr (λ p. cc (p, e));
  }
  after_attempt-Decides attempt again (provider_error false) e bounded earlier next = record {
    attempt = attempt;
    bounded = bounded;
    earlier = earlier;
    decided = sym e;
    reason = inr (λ p. cc (p, e));
  }
  after_attempt-Decides attempt again (provider_error true) e bounded earlier next =
      elim (Bool-cases (leb max_retries attempt)) [
        | inl last ↦ rw last (record {
          attempt = attempt;
          bounded = bounded;
          earlier = earlier;
          decided = sym e;
          reason = inl (ground arith);
        })
        | inr more ↦ rw more (next (ground arith) e)
      ]
  after_attempt-Decides attempt again other_error e bounded earlier next = record {
    attempt = attempt;
    bounded = bounded;
    earlier = earlier;
    decided = sym e;
    reason = inr (λ p. cc (p, e));
  }

  retry_from-Decides :
      (attempt left : ℕ)
      → attempt + left ≡ suc max_retries
      → attempt ≤ max_retries
      → ((j : ℕ) → j < attempt → operation j ≡ provider_error true)
      → Decides max_retries operation (retry_from max_retries operation attempt left)
  unfolding retry_from
  retry_from-Decides attempt zero total bounded earlier = absurd (omega arith)
  retry_from-Decides attempt (suc left) total bounded earlier =
      after_attempt-Decides attempt (retry_from max_retries operation (suc attempt) left)
        (operation attempt) refl bounded earlier
        (λ more failed.
          retry_from-Decides (suc attempt) left (omega arith) more (now_failed failed))
    where
      now_failed :
          operation attempt ≡ provider_error true
          → (j : ℕ) → j < suc attempt
          → operation j ≡ provider_error true
      now_failed failed j below = elim (Bool-cases (ltb j attempt)) [
        | inl before ↦ earlier j (ground arith)
        | inr now ↦ (let same : j ≡ attempt = ground arith in ap operation same) ∙ failed
      ]

  -- A retried call makes at most `max_retries + 1` attempts and ends as its last attempt ends; that is
  -- the first attempt that is no retryable error, or attempt number `max_retries`.
  pub retry-Decides : Decides max_retries operation (retry max_retries operation)
  unfolding retry
  retry-Decides =
      retry_from-Decides 0 (suc max_retries) (omega arith) (omega arith)
        (λ j below. absurd (omega arith))
