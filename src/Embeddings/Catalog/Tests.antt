-- ===== src/Embeddings/Catalog/Tests.antt =====
-- Selections of the embedding models.
use mathlib.Core.List.{Perm}
use showcase_host.Prelude.{
  ◌≤◌, ℕ, ◌≡◌, refl, ◌⊎◌, String, Option, none, some, List, [], ◌∷◌, length, All,
}
use showcase_host.Embeddings.{EmbeddingInput, EmbeddingModel}
use showcase_host.Embeddings.Catalog.{
  bge_m3, mini_lm, e5_small, embedding_models, require_supported_model, count_one, count_all,
  code_count, largest, automatic_order, automatic_candidates, model_candidates,
}
use showcase_host.Embeddings.Catalog.Choice.{model_candidates-Perm, automatic_candidates-fits}

abbrev lower : String → String
lower s = s

abbrev item : String → ℕ → EmbeddingInput
item language tokens = record {
  chunk_id = "1";
  text = "a";
  raw_text = "a";
  repository_id = "r";
  snapshot_id = "s";
  path = "p";
  language = language;
  start_line = 1;
  end_line = 1;
  byte_start = 0;
  byte_end = 1;
  entities = "[]";
  scope = "[]";
  chunk_fingerprint = "f";
  profile_key = "k";
  tokenizer_id = "t";
  token_count = tokens;
  quality_grade = "A";
  quality_score = 100;
  context = "{}";
}

abbrev manual : Option String
manual = some "intfloat/multilingual-e5-small"

abbrev prose : List EmbeddingInput
prose = item "markdown" 100 ∷ item "text" 256 ∷ item "python" 10 ∷ []

prose_runs : automatic_candidates lower 3 prose ≡ mini_lm ∷ bge_m3 ∷ e5_small ∷ []
unfolding automatic_candidates automatic_order count_all count_one code_count largest
prose_runs = refl

mixed_runs : automatic_candidates lower 4 prose ≡ bge_m3 ∷ e5_small ∷ mini_lm ∷ []
unfolding automatic_candidates automatic_order count_all count_one code_count largest
mixed_runs = refl

manual_runs : model_candidates lower prose manual 3 ≡ some (e5_small ∷ bge_m3 ∷ mini_lm ∷ [])
unfolding model_candidates require_supported_model
manual_runs = refl

model_candidates-Perm_example :
    Perm (e5_small ∷ bge_m3 ∷ mini_lm ∷ []) embedding_models
    × ((manual ≡ none)
        ⊎ (manual ≡ some "")
        ⊎ ((m : EmbeddingModel) × (rest : List EmbeddingModel) × ((e5_small ∷ bge_m3 ∷ mini_lm ∷ [])
              ≡ m ∷ rest)
            × (manual ≡ some m.id)))
model_candidates-Perm_example =
    model_candidates-Perm lower prose manual 3 (e5_small ∷ bge_m3 ∷ mini_lm ∷ []) manual_runs

automatic_candidates-fits_example :
    All (λ (i : EmbeddingInput). i.token_count ≤ 256) prose × (3 ≤ length prose)
automatic_candidates-fits_example =
    automatic_candidates-fits lower 3 prose (bge_m3 ∷ e5_small ∷ []) prose_runs
