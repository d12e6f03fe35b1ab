-- ===== src/Embeddings/Batches.antt =====
-- The batches of the pending inputs, and what is gathered of them.
use showcase_host.Prelude.{
  subst, ◌≤◌, ℕ, zero, suc, ◌≡◌, refl, ap, ◌∙◌, List, [], ◌∷◌, ◌++◌, length, take, map, All, arith,
}
use showcase_host.Embeddings.{
  vector_record, String, EmbeddingInput, EmbeddingModel, VectorRecord, VectorStore, Provider,
  Settings, zip_records, run_batch, run_batches,
}
use showcase_host.Embeddings.Calls.{
  Response, returns, provider_error, other_error, ◌>>=◌, drop, slices, batches_of, failures, values,
  choose, gather_result, gather, retry,
}

module _ {A : Type 0} where
  abbrev pub join : List (List A) → List A
  join [] = []
  join (xs ∷ xss) = xs ++ join xss

  pub take-drop : (n : ℕ) (xs : List A) → take n xs ++ drop n xs ≡ xs
  take-drop zero xs = refl
  take-drop (suc n) [] = refl
  take-drop (suc n) (x ∷ xs) = ap (λ l. x ∷ l) (take-drop n xs)

  length-drop : (n : ℕ) (xs : List A) → length (drop n xs) ≤ length xs
  length-drop zero xs = omega arith
  length-drop (suc n) [] = omega arith
  length-drop (suc n) (x ∷ xs) = omega (arith, length-drop n xs)

  slices-join : (fuel n : ℕ) (xs : List A) → length xs ≤ fuel → join (slices fuel (suc n) xs) ≡ xs
  unfolding slices
  slices-join zero n [] enough = refl
  slices-join zero n (x ∷ xs) enough = absurd (omega arith)
  slices-join (suc fuel) n [] enough = refl
  slices-join (suc fuel) n (x ∷ xs) enough =
      ap (λ l. x ∷ (take n xs ++ l))
        (slices-join fuel n (drop n xs) (omega (arith, length-drop n xs)))
      ∙ ap (λ l. x ∷ l) (take-drop n xs)

  -- The batches together are the pending inputs, in their order.
  pub batches_of-join : (n : ℕ) (xs : List A) → 1 ≤ n → join (batches_of n xs) ≡ xs
  unfolding batches_of
  batches_of-join zero xs positive = absurd (omega arith)
  batches_of-join (suc n) xs positive = slices-join (length xs) n xs (omega arith)

-- Each response returned, with the result at its place.
abbrev Returned : {A : Type 0} → List (Response A) → List A → Type 0
Returned [] [] = Unit {0}
Returned [] (a ∷ as_) = ⊥
Returned (r ∷ rs) [] = ⊥
Returned (r ∷ rs) (a ∷ as_) = (r ≡ returns a) × Returned rs as_

failures-Returned :
    {A B : Type 0} (rs : List (Response A))
    → failures {A = A} {B = B} rs ≡ []
    → Returned rs (values rs)
unfolding failures values
failures-Returned [] e = tt
failures-Returned (returns a ∷ rs) e = (refl, failures-Returned rs e)
failures-Returned (provider_error r ∷ rs) e = absurd (cc e)
failures-Returned (other_error ∷ rs) e = absurd (cc e)

abbrev IsFailure : {A : Type 0} → Response A → Type 0
IsFailure (returns a) = ⊥
IsFailure (provider_error r) = Unit {0}
IsFailure other_error = Unit {0}

failures-IsFailure :
    {A : Type 0} (B : Type 0) (rs : List (Response A)) → All IsFailure (failures {A = A} {B = B} rs)
unfolding failures
failures-IsFailure B [] = tt
failures-IsFailure B (returns a ∷ rs) = failures-IsFailure B rs
failures-IsFailure B (provider_error r ∷ rs) = (tt, failures-IsFailure B rs)
failures-IsFailure B (other_error ∷ rs) = (tt, failures-IsFailure B rs)

choose-IsFailure :
    {A : Type 0} (n : ℕ) (f : Response A) (fs : List (Response A))
    → IsFailure f
    → All IsFailure fs
    → IsFailure (choose n f fs)
choose-IsFailure zero f fs h hs = h
choose-IsFailure (suc n) f [] h hs = h
choose-IsFailure (suc n) f (g ∷ fs) h hs = choose-IsFailure n g fs hs.0 hs.1

not_returned : {A : Type 0} (r : Response A) (a : A) → IsFailure r → ¬ r ≡ returns a
not_returned (returns b) a h = absurd h
not_returned (provider_error b) a h = λ e. cc e
not_returned other_error a h = λ e. cc e

gather_result-returns :
    {A : Type 0} (first : ℕ) (results as_ : List A) (fs : List (Response (List A)))
    → All IsFailure fs
    → gather_result first results fs ≡ returns as_
    → (fs ≡ []) × (results ≡ as_)
unfolding gather_result
gather_result-returns first results as_ [] h e = (refl, cc e)
gather_result-returns first results as_ (f ∷ fs) h e =
    absurd (not_returned (choose first f fs) as_ (choose-IsFailure first f fs h.0 h.1) e)

-- A gathering returns only if every response did.
pub gather-Returned :
    {A : Type 0} (first : ℕ) (rs : List (Response A)) (as_ : List A)
    → gather first rs ≡ returns as_
    → Returned rs as_
unfolding gather
gather-Returned {A} first rs as_ e =
    let (none_failed, same) =
      gather_result-returns first (values rs) as_ (failures {A = A} {B = List A} rs)
        (failures-IsFailure (List A) rs) e in
    subst (λ as_. Returned rs as_) same (failures-Returned {A = A} {B = List A} rs none_failed)

pub returned : {A : Type 0} {a b : A} → returns a ≡ returns b → a ≡ b
returned e = cc e

-- A bind returns only if both of its parts do.
bind-returns :
    {A B : Type 0} (r : Response A) (f : A → Response B) (b : B)
    → (r >>= f) ≡ returns b
    → (a : A) × (r ≡ returns a) × (f a ≡ returns b)
bind-returns (returns a) f b e = (a, refl, e)
bind-returns (provider_error r) f b e = absurd (cc e)
bind-returns other_error f b e = absurd (cc e)

module _ {S V : Type 0} (store : VectorStore S V) (content_hash : String → String)
    (settings : Settings) where
  -- The records are those of the items, one for each in their order.
  abbrev pub Matches : List EmbeddingInput → List (VectorRecord V) → Type 0
  Matches [] [] = Unit {0}
  Matches [] (r ∷ rs) = ⊥
  Matches (i ∷ items) [] = ⊥
  Matches (i ∷ items) (r ∷ rs) =
      (r.id ≡ i.chunk_id) × (r.content_hash ≡ content_hash i.text) × Matches items rs

  abbrev pub AllMatch : List (List EmbeddingInput) → List (List (VectorRecord V)) → Type 0
  AllMatch [] [] = Unit {0}
  AllMatch [] (rs ∷ rss) = ⊥
  AllMatch (b ∷ batches) [] = ⊥
  AllMatch (b ∷ batches) (rs ∷ rss) = Matches b rs × AllMatch batches rss

  zip_records-Matches :
      (model : EmbeddingModel) (batch : List EmbeddingInput) (vectors : List V)
      (records : List (VectorRecord V))
      → zip_records store content_hash settings model batch vectors ≡ returns records
      → Matches batch records
  unfolding zip_records
  zip_records-Matches model [] [] records e = subst (λ l. Matches [] l) (returned e) tt
  zip_records-Matches model [] (v ∷ vs) records e = absurd (cc e)
  zip_records-Matches model (item ∷ batch) [] records e = absurd (cc e)
  zip_records-Matches model (item ∷ batch) (v ∷ vs) records e =
      let (rest, zipped, ends) =
        bind-returns (zip_records store content_hash settings model batch vs)
          (λ rest. returns (vector_record store content_hash settings model item v ∷ rest)) records
          e in
      subst (λ l. Matches (item ∷ batch) l) (returned ends)
        (refl, refl, zip_records-Matches model batch vs rest zipped)

  pub run_batches-AllMatch :
      (model : EmbeddingModel) (provider : Provider V) (k : ℕ)
      (batches : List (List EmbeddingInput)) (rss : List (List (VectorRecord V)))
      → Returned (run_batches store content_hash settings model provider k batches) rss
      → AllMatch batches rss
  unfolding run_batches run_batch
  run_batches-AllMatch model provider k [] [] h = tt
  run_batches-AllMatch model provider k [] (rs ∷ rss) h = h
  run_batches-AllMatch model provider k (b ∷ batches) [] h = h
  run_batches-AllMatch model provider k (b ∷ batches) (rs ∷ rss) h =
      let (vectors, embedded, zipped) =
        bind-returns
          (retry settings.max_retries (λ attempt.
            provider.embed_documents k attempt (map (λ (i : EmbeddingInput). i.text) b)))
          (λ vectors. zip_records store content_hash settings model b vectors) rs h.0 in
      (
        zip_records-Matches model b vectors rs zipped,
        run_batches-AllMatch model provider (suc k) batches rss h.1,
      )
