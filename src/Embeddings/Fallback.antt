-- ===== src/Embeddings/Fallback.antt =====
-- The models that `process` tries one after the other.
use showcase_host.Prelude.{ℕ, ◌+◌, ◌≡◌, List, ◌∷◌, ◌++◌, length, In}
use showcase_host.Embeddings.{
  String, EmbeddingInput, EmbeddingModel, VectorStore, Settings, Processed, succeeded,
  models_unavailable, internal_error,
}
use showcase_host.Embeddings.Index.{IsKeyed, IsIndexed}

module _ {S V : Type 0} (store : VectorStore S V) (content_hash : String → String)
    (settings : Settings) (inputs : List EmbeddingInput) (keyed : IsKeyed inputs) where
  -- The model that succeeded is one of the candidates, `count` is the number of those before it, every
  -- input is indexed under it, and the numbers of stored and skipped inputs add up.
  pub record Succeeded (models : List EmbeddingModel) (model : EmbeddingModel)
      (stored skipped count : ℕ) (s : S) : Type 0 where
    pub before : List EmbeddingModel
    pub after : List EmbeddingModel
    pub candidate : models ≡ before ++ model ∷ after
    pub counted : length before ≡ count
    pub indexed :
        (item : EmbeddingInput)
        → In item inputs
        → IsIndexed store content_hash settings model s item
    pub total : stored + skipped ≡ length inputs

  -- The result of the loop that starts at a count of fallbacks.
  abbrev Ends : List EmbeddingModel → ℕ → Processed × S → Type 0
  Ends models start (succeeded model stored skipped count, s) =
      (later : ℕ) × (count ≡ start + later) × Succeeded models model stored skipped later s
  Ends models start (models_unavailable, s) = Unit {0}
  Ends models start (internal_error, s) = Unit {0}
