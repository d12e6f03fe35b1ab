-- ===== src/Embeddings.antt =====
-- The embedding of a snapshot's chunks in app/services/embeddings.py: `_retry`, `_embed_and_store` and
-- the models that `process` tries. V is the type of vectors and S the state of the vector store.
pub mod Calls
pub mod Catalog
pub mod Retry
pub mod Batches
pub mod Index
pub mod Stored
pub mod Fallback
mod Tests
use showcase_host.Embeddings.Calls.{
  ◌>>=◌, Response, returns, provider_error, other_error, retry, batches_of, gather,
}
use showcase_host.Prelude.{
  ℕ, zero, suc, ◌+◌, ◌-◌, ◌≡◌, ◌⊎◌, String, Bool, true, false, not, ◌||◌, Option, none, some, List,
  [], ◌∷◌, ◌++◌, leb, ◌==◌, if◌then◌else◌, str_eq, length, map, filter, take, All, In,
}

-- Identifiers are their texts, and `entities`, `scope` and `context` are JSON texts.
pub record EmbeddingInput : Type 0 where
  pub chunk_id : String
  pub text : String
  pub raw_text : String
  pub repository_id : String
  pub snapshot_id : String
  pub path : String
  pub language : String
  pub start_line : ℕ
  pub end_line : ℕ
  pub byte_start : ℕ
  pub byte_end : ℕ
  pub entities : String
  pub scope : String
  pub chunk_fingerprint : String
  pub profile_key : String
  pub tokenizer_id : String
  pub token_count : ℕ
  pub quality_grade : String
  pub quality_score : ℕ
  pub context : String

pub record EmbeddingModel : Type 0 where
  pub id : String
  pub dimension : ℕ
  pub context_tokens : ℕ
  pub priority : ℕ
  pub multilingual : Bool
  pub fast : Bool

-- `source` has the entries of the payload that are copied from the input.
pub record VectorRecord (V : Type 0) : Type 0 where
  pub id : String
  pub vector : V
  pub content_hash : String
  pub model_id : String
  pub dimension : ℕ
  pub source : EmbeddingInput

-- A state after a call of the vector store that succeeded, or that raised.
pub data Written (S : Type 0) : Type 0 where
  written : S → Written S
  interrupted : S → Written S

-- `VectorStore`, and what its methods' descriptions say.
pub record VectorStore (S V : Type 0) : Type 1 where
  pub record_at : S → String → String → Option (VectorRecord V)
  pub prepare : EmbeddingModel → S → Written S
  pub existing_hashes : S → EmbeddingModel → List String → Response (String → Option String)
  pub upsert : EmbeddingModel → List (VectorRecord V) → S → Written S
  pub existing_hashes_known :
      (s : S) (model : EmbeddingModel) (ids : List String) (hashes : String → Option String)
      → existing_hashes s model ids ≡ returns hashes
      → (id h : String) → In id ids
      → hashes id ≡ some h
      → (r : VectorRecord V) × (record_at s model.id id ≡ some r) × (r.content_hash ≡ h)
  pub upsert_written :
      (model : EmbeddingModel) (records : List (VectorRecord V)) (s s' : S)
      → upsert model records s ≡ written s'
      → (id : String)
      → ((record_at s' model.id id ≡ record_at s model.id id)
          × All (λ (r : VectorRecord V). ¬ r.id ≡ id) records)
        ⊎ ((r : VectorRecord V) × In r records × (r.id ≡ id) × (record_at s' model.id id ≡ some r))

-- How the calls of a model's provider end: for `embed_documents` by the batch and the attempt.
-- `first_failure` says which of several failed batches fails first.
pub record Provider (V : Type 0) : Type 0 where
  pub validate : ℕ → Response Bool
  pub embed_documents : ℕ → ℕ → List String → Response (List V)
  pub first_failure : ℕ

pub record Settings : Type 0 where
  pub batch_size : ℕ
  pub max_retries : ℕ

-- What `process` comes to: success, `embedding_models_unavailable`, or `embedding_internal_error`.
pub data Processed : Type 0 where
  succeeded : EmbeddingModel → ℕ → ℕ → ℕ → Processed
  models_unavailable : Processed
  internal_error : Processed

module _ {S V : Type 0} (store : VectorStore S V) (content_hash : String → String)
    (settings : Settings) where
  abbrev pub vector_record : EmbeddingModel → EmbeddingInput → V → VectorRecord V
  vector_record model item vector = record {
    id = item.chunk_id;
    vector = vector;
    content_hash = content_hash item.text;
    model_id = model.id;
    dimension = model.dimension;
    source = item;
  }

  -- `zip(batch, vectors, strict=True)`.
  unfoldable pub zip_records :
      EmbeddingModel → List EmbeddingInput → List V → Response (List (VectorRecord V))
  zip_records model [] [] = returns []
  zip_records model [] (v ∷ vs) = other_error
  zip_records model (item ∷ batch) [] = other_error
  zip_records model (item ∷ batch) (v ∷ vs) =
      zip_records model batch vs >>= λ rest. returns (vector_record model item v ∷ rest)

  unfoldable pub run_batch :
      EmbeddingModel → Provider V → ℕ → List EmbeddingInput → Response (List (VectorRecord V))
  run_batch model provider k batch =
      retry settings.max_retries
        (λ attempt. provider.embed_documents k attempt (map (λ (i : EmbeddingInput). i.text) batch))
      >>= λ vectors. zip_records model batch vectors

  unfoldable pub run_batches :
      EmbeddingModel
      → Provider V
      → ℕ
      → List (List EmbeddingInput)
      → List (Response (List (VectorRecord V)))
  run_batches model provider k [] = []
  run_batches model provider k (batch ∷ batches) =
      run_batch model provider k batch ∷ run_batches model provider (suc k) batches

  -- `for records in record_batches`; `_progress` only reports.
  unfoldable pub after_upsert : (S → Response ℕ × S) → Written S → Response ℕ × S
  after_upsert next (written s) = next s
  after_upsert next (interrupted s) = (other_error, s)

  unfoldable pub upsert_batches :
      EmbeddingModel → List (List (VectorRecord V)) → ℕ → S → Response ℕ × S
  upsert_batches model [] stored s = (returns stored, s)
  upsert_batches model (records ∷ rest) stored s =
      after_upsert (upsert_batches model rest (stored + length records))
        (store.upsert model records s)

  -- The items whose stored hash is not that of their text.
  abbrev pub is_pending : (String → Option String) → EmbeddingInput → Bool
  is_pending hashes item = elim (hashes item.chunk_id) [
    | none ↦ true
    | some h ↦ not (str_eq h (content_hash item.text))
  ]

  unfoldable pub store_gathered :
      EmbeddingModel → Response (List (List (VectorRecord V))) → S → Response ℕ × S
  store_gathered model (returns record_batches) s = upsert_batches model record_batches 0 s
  store_gathered model (provider_error r) s = (provider_error r, s)
  store_gathered model other_error s = (other_error, s)

  unfoldable pub store_pending :
      EmbeddingModel → Provider V → List EmbeddingInput → S → Response ℕ × S
  store_pending model provider pending s =
      store_gathered model
        (gather provider.first_failure
          (run_batches model provider 0 (batches_of settings.batch_size pending)))
        s

  unfoldable pub embed_missing :
      EmbeddingModel
      → Provider V
      → List EmbeddingInput
      → Response (String → Option String)
      → S
      → Response (ℕ × ℕ) × S
  embed_missing model provider inputs (returns hashes) s =
      let pending = filter (is_pending hashes) inputs in
      let (stored, s') = store_pending model provider pending s in
      (stored >>= (λ n. returns (n, length inputs - length pending)), s')
  embed_missing model provider inputs (provider_error r) s = (provider_error r, s)
  embed_missing model provider inputs other_error s = (other_error, s)

  unfoldable pub embed_and_store :
      EmbeddingModel → Provider V → List EmbeddingInput → S → Response (ℕ × ℕ) × S
  embed_and_store model provider inputs s =
      embed_missing model provider inputs
        (store.existing_hashes s model (map (λ (i : EmbeddingInput). i.chunk_id) inputs)) s

  -- The `try` of `process` for one model.
  unfoldable pub after_prepare :
      EmbeddingModel → Provider V → List EmbeddingInput → Written S → Response (ℕ × ℕ) × S
  after_prepare model provider inputs (written s) = embed_and_store model provider inputs s
  after_prepare model provider inputs (interrupted s) = (other_error, s)

  unfoldable pub after_validate :
      EmbeddingModel → Provider V → List EmbeddingInput → Response Bool → S → Response (ℕ × ℕ) × S
  after_validate model provider inputs (returns b) s =
      after_prepare model provider inputs (store.prepare model s)
  after_validate model provider inputs (provider_error r) s = (provider_error r, s)
  after_validate model provider inputs other_error s = (other_error, s)

  unfoldable pub try_model :
      EmbeddingModel → Provider V → List EmbeddingInput → S → Response (ℕ × ℕ) × S
  try_model model provider inputs s =
      after_validate model provider inputs (retry settings.max_retries provider.validate) s

  -- What the next models come to is `next`.
  unfoldable pub after_model :
      EmbeddingModel → ℕ → (S → Processed × S) → Response (ℕ × ℕ) × S → Processed × S
  after_model model fallback_count next (returns (stored, skipped), s) =
      (succeeded model stored skipped fallback_count, s)
  after_model model fallback_count next (provider_error r, s) = next s
  after_model model fallback_count next (other_error, s) = (internal_error, s)

  -- The loop of `process` over the candidates.
  unfoldable pub try_models :
      (EmbeddingModel → Provider V)
      → List EmbeddingInput
      → ℕ
      → List EmbeddingModel
      → S
      → Processed × S
  try_models providers inputs fallback_count [] s = (models_unavailable, s)
  try_models providers inputs fallback_count (model ∷ models) s =
      after_model model fallback_count (try_models providers inputs (suc fallback_count) models)
        (try_model model (providers model) inputs s)
