-- ===== src/Embeddings/Calls.antt =====
-- Calls of providers: how they end, `_retry` and `gather` as app/services/embeddings.py uses them.
use showcase_host.Prelude.{
  ℕ, zero, suc, Bool, not, ◌||◌, List, [], ◌∷◌, leb, if◌then◌else◌, length, take,
}

-- How a call ends: `EmbeddingProviderError` with its `retryable`, or any other exception.
pub data Response (A : Type 0) : Type 0 where
  returns : A → Response A
  provider_error : Bool → Response A
  other_error : Response A

infixl 5 ◌>>=◌
abbrev pub ◌>>=◌ : {A B : Type 0} → Response A → (A → Response B) → Response B
returns a >>= f = f a
provider_error r >>= f = provider_error r
other_error >>= f = other_error

-- The `except` clause of `_retry`; `again` is what the next attempts come to.
unfoldable pub after_attempt : {A : Type 0} → ℕ → ℕ → Response A → Response A → Response A
after_attempt max_retries attempt again (returns a) = returns a
after_attempt max_retries attempt again (provider_error is_retryable) =
    if not is_retryable || leb max_retries attempt then provider_error is_retryable else again
after_attempt max_retries attempt again other_error = other_error

-- `_retry` from an attempt on; `operation` gives how each attempt ends. The first case is the assertion
-- after the loop.
unfoldable pub retry_from : {A : Type 0} → ℕ → (ℕ → Response A) → ℕ → ℕ → Response A
retry_from max_retries operation attempt zero = other_error
retry_from max_retries operation attempt (suc left) =
    after_attempt max_retries attempt (retry_from max_retries operation (suc attempt) left)
      (operation attempt)

unfoldable pub retry : {A : Type 0} → ℕ → (ℕ → Response A) → Response A
retry max_retries operation = retry_from max_retries operation 0 (suc max_retries)

abbrev pub drop : {A : Type 0} → ℕ → List A → List A
drop zero xs = xs
drop (suc n) [] = []
drop (suc n) (x ∷ xs) = drop n xs

-- `pending[index : index + batch_size]` for the multiples of `batch_size` below the length; the number
-- of rounds is bounded by the first argument.
unfoldable pub slices : {A : Type 0} → ℕ → ℕ → List A → List (List A)
slices zero batch_size xs = []
slices (suc fuel) batch_size [] = []
slices (suc fuel) batch_size (x ∷ xs) =
    take batch_size (x ∷ xs) ∷ slices fuel batch_size (drop batch_size (x ∷ xs))

unfoldable pub batches_of : {A : Type 0} → ℕ → List A → List (List A)
batches_of batch_size xs = slices (length xs) batch_size xs

-- `asyncio.gather`: the results in order, or one of the failures, by the order of their arrival.
unfoldable pub failures : {A B : Type 0} → List (Response A) → List (Response B)
failures [] = []
failures (returns a ∷ rs) = failures rs
failures (provider_error r ∷ rs) = provider_error r ∷ failures rs
failures (other_error ∷ rs) = other_error ∷ failures rs

unfoldable pub values : {A : Type 0} → List (Response A) → List A
values [] = []
values (returns a ∷ rs) = a ∷ values rs
values (provider_error r ∷ rs) = values rs
values (other_error ∷ rs) = values rs

abbrev pub choose : {A : Type 0} → ℕ → A → List A → A
choose zero a as_ = a
choose (suc n) a [] = a
choose (suc n) a (b ∷ bs) = choose n b bs

unfoldable pub gather_result :
    {A : Type 0} → ℕ → List A → List (Response (List A)) → Response (List A)
gather_result first results [] = returns results
gather_result first results (f ∷ fs) = choose first f fs

unfoldable pub gather : {A : Type 0} → ℕ → List (Response A) → Response (List A)
gather first rs = gather_result first (values rs) (failures rs)
