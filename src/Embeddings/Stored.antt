-- ===== src/Embeddings/Stored.antt =====
-- What `_embed_and_store` leaves in the vector store.
use showcase_host.Prelude.{
  ◌≤◌, ℕ, ◌+◌, ◌-◌, ◌≡◌, refl, ap, subst, ◌∙◌, inl, inr, ◌⊎◌, true, false, not, Option, some, none,
  List, [], ◌∷◌, ◌++◌, length, length-append, length-filter-le, In-map, In-filter, filter-In, map,
  filter, In, Bool-cases, str_eq, str_eq_iff, arith,
}
use showcase_host.Embeddings.{
  String, EmbeddingInput, EmbeddingModel, VectorRecord, VectorStore, Provider, Settings,
  run_batches, Written, written, interrupted, after_upsert, upsert_batches, is_pending,
  store_gathered, store_pending, embed_missing,
}
use showcase_host.Embeddings.Calls.{
  Response, returns, provider_error, other_error, ◌>>=◌, batches_of, gather,
}
use showcase_host.Embeddings.Batches.{
  join, batches_of-join, gather-Returned, returned, AllMatch, run_batches-AllMatch,
}
use showcase_host.Embeddings.Index.{
  IsKeyed, IsIndexed, upsert-IsIndexed, Matches-length, In-append_left, In-append_right, append-In,
}

module _ {S V : Type 0} (store : VectorStore S V) (content_hash : String → String)
    (settings : Settings) (inputs : List EmbeddingInput) (keyed : IsKeyed inputs)
    (model : EmbeddingModel) where
  -- The state after upserting all batches: everything is indexed that was before or is in a batch.
  abbrev Extends : S → List EmbeddingInput → S → Type 0
  Extends s added s' =
      (item : EmbeddingInput)
      → In item inputs
      → IsIndexed store content_hash settings model s item ⊎ In item added
      → IsIndexed store content_hash settings model s' item

  upsert_batches-Extends :
      (batches : List (List EmbeddingInput)) (rss : List (List (VectorRecord V))) (stored n : ℕ)
      (s s' : S)
      → ((i : EmbeddingInput) → In i (join batches) → In i inputs)
      → AllMatch store content_hash settings batches rss
      → upsert_batches store content_hash settings model rss stored s ≡ (returns n, s')
      → Extends s (join batches) s' × (n ≡ stored + length (join batches))
  unfolding upsert_batches after_upsert
  upsert_batches-Extends [] [] stored n s s' within h e = (
    subst (λ t. Extends s [] t) (ap (λ x. x.1) e)
        (λ item known before. elim before [ inl old ↦ old | inr never ↦ absurd never ]),
    omega (arith, returned (ap (λ x. x.0) e)),
  )
  upsert_batches-Extends [] (rs ∷ rss) stored n s s' within h e = absurd h
  upsert_batches-Extends (b ∷ batches) [] stored n s s' within h e = absurd h
  upsert_batches-Extends (b ∷ batches) (rs ∷ rss) stored n s s' within h e =
      after (store.upsert model rs s) refl
        (λ t ends.
          upsert_batches-Extends batches rss (stored + length rs) n t s'
            (λ i m. within i (In-append_right b (join batches) i m)) h.1 ends)
        e
    where
      after :
          (w : Written S)
          → store.upsert model rs s ≡ w
          → ((t : S)
              → upsert_batches store content_hash settings model rss (stored + length rs) t
                ≡ (returns n, s')
              → Extends t (join batches) s' × (n ≡ stored + length rs + length (join batches)))
          → after_upsert store content_hash settings
              (upsert_batches store content_hash settings model rss (stored + length rs))
              w
            ≡ (returns n, s')
          → Extends s (b ++ join batches) s' × (n ≡ stored + length (b ++ join batches))
      after (interrupted t) written_ next ends = absurd (cc (ap (λ x. x.0) ends))
      after (written t) written_ next ends =
          let (extends, counted) = next t ends in
          (
            (λ item known before.
                extends item known
                  (elim before
                    as (λ x.
                      IsIndexed store content_hash settings model t item ⊎ In item (join batches)) [
                        | inl old ↦ inl (
                            upsert-IsIndexed store content_hash settings inputs keyed model b rs s t
                              item (λ i m. within i (In-append_left b (join batches) i m)) h.0
                              written_ known (inl old))
                        | inr added ↦ elim (append-In b (join batches) item added) [
                          | inl now ↦ inl (
                              upsert-IsIndexed store content_hash settings inputs keyed model b rs s
                                t item (λ i m. within i (In-append_left b (join batches) i m)) h.0
                                written_ known (inr now))
                          | inr later ↦ inr later
                        ]
                      ])),
            omega (
              arith,
              counted,
              Matches-length store content_hash settings b rs h.0,
              length-append b (join batches),
            ),
          )

  store_pending-Extends :
      (provider : Provider V) (pending : List EmbeddingInput) (n : ℕ) (s s' : S)
      → 1 ≤ settings.batch_size
      → ((i : EmbeddingInput) → In i pending → In i inputs)
      → store_pending store content_hash settings model provider pending s ≡ (returns n, s')
      → Extends s pending s' × (n ≡ 0 + length pending)
  unfolding store_pending store_gathered
  store_pending-Extends provider pending n s s' sized within e =
      after
        (gather provider.first_failure (
          run_batches store content_hash settings model provider 0
            (batches_of settings.batch_size pending)))
        refl e
    where
      after :
          (r : Response (List (List (VectorRecord V))))
          → gather provider.first_failure (
              run_batches store content_hash settings model provider 0
                (batches_of settings.batch_size pending))
            ≡ r
          → store_gathered store content_hash settings model r s ≡ (returns n, s')
          → Extends s pending s' × (n ≡ 0 + length pending)
      after (returns rss) gathered ends =
          subst (λ (p : List EmbeddingInput). Extends s p s' × (n ≡ 0 + length p))
            (batches_of-join settings.batch_size pending sized)
            (upsert_batches-Extends (batches_of settings.batch_size pending) rss 0 n s s'
              (λ i m. within i (
                subst (λ (p : List EmbeddingInput). In i p)
                  (batches_of-join settings.batch_size pending sized) m))
              (run_batches-AllMatch store content_hash settings model provider 0
                (batches_of settings.batch_size pending) rss
                (gather-Returned provider.first_failure _ rss gathered))
              ends)
      after (provider_error r) gathered ends = absurd (cc (ap (λ x. x.0) ends))
      after other_error gathered ends = absurd (cc (ap (λ x. x.0) ends))

  -- If `_embed_and_store` returns, every input is indexed and the two counts add up to the inputs.
  abbrev pub IsDone : List EmbeddingInput → Response (ℕ × ℕ) × S → Type 0
  IsDone items (returns (stored, skipped), s) =
      ((item : EmbeddingInput) → In item items → IsIndexed store content_hash settings model s item)
      × (stored + skipped ≡ length items)
  IsDone items (provider_error r, s) = Unit {0}
  IsDone items (other_error, s) = Unit {0}

  known_or_pending :
      (hashes : String → Option String) (s : S)
      → store.existing_hashes s model (map (λ (i : EmbeddingInput). i.chunk_id) inputs)
        ≡ returns hashes
      → (item : EmbeddingInput) → In item inputs
      → IsIndexed store content_hash settings model s item
        ⊎ In item (filter (is_pending store content_hash settings hashes) inputs)
  known_or_pending hashes s e item m =
      elim (Bool-cases (is_pending store content_hash settings hashes item)) [
        | inl pending ↦
            inr (filter-In (is_pending store content_hash settings hashes) item inputs m pending)
        | inr current ↦ inl (known hashes s e item m (hashes item.chunk_id) refl current)
      ]
    where
      known :
          (hashes : String → Option String) (s : S)
          → store.existing_hashes s model (map (λ (i : EmbeddingInput). i.chunk_id) inputs)
            ≡ returns hashes
          → (item : EmbeddingInput) → In item inputs
          → (found : Option String) → hashes item.chunk_id ≡ found
          → (elim found [ none ↦ true | some h ↦ not (str_eq h (content_hash item.text)) ]) ≡ false
          → IsIndexed store content_hash settings model s item
      known hashes s e item m none at current = absurd (cc current)
      known hashes s e item m (some h) at current =
          let (r, found, hashed) =
            store.existing_hashes_known s model (map (λ (i : EmbeddingInput). i.chunk_id) inputs)
              hashes e item.chunk_id h (In-map (λ (i : EmbeddingInput). i.chunk_id) item inputs m)
              at in
          (r, found, hashed ∙ (str_eq_iff h (content_hash item.text)).0 (ground (arith, current)))

  pub embed_missing-IsDone :
      (provider : Provider V) (found : Response (String → Option String)) (s : S)
      → 1 ≤ settings.batch_size
      → store.existing_hashes s model (map (λ (i : EmbeddingInput). i.chunk_id) inputs) ≡ found
      → IsDone inputs (embed_missing store content_hash settings model provider inputs found s)
  unfolding embed_missing
  embed_missing-IsDone provider (provider_error r) s sized e = tt
  embed_missing-IsDone provider other_error s sized e = tt
  embed_missing-IsDone provider (returns hashes) s sized e =
      done
        (store_pending store content_hash settings model provider
          (filter (is_pending store content_hash settings hashes) inputs) s)
        refl
    where
      done :
          (r : Response ℕ × S)
          → store_pending store content_hash settings model provider
              (filter (is_pending store content_hash settings hashes) inputs)
              s
            ≡ r
          → IsDone inputs (
            r.0 >>= (λ n. returns (
              n,
              length inputs
                  - length (filter (is_pending store content_hash settings hashes) inputs),
            )),
            r.1,
          )
      done (provider_error c, s') e' = tt
      done (other_error, s') e' = tt
      done (returns n, s') e' =
          let (extends, counted) =
            store_pending-Extends provider
              (filter (is_pending store content_hash settings hashes) inputs) n s s' sized
              (λ i m. (In-filter (is_pending store content_hash settings hashes) i inputs m).0)
              e' in
          (
            (λ item m. extends item m (known_or_pending hashes s e item m)),
            omega (
              arith,
              counted,
              length-filter-le (is_pending store content_hash settings hashes) inputs,
            ),
          )
