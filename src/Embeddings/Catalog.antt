-- ===== src/Embeddings/Catalog.antt =====
-- The embedding models and their selection in app/integrations/embeddings/catalog.py.
pub mod Choice
mod Tests
use showcase_host.Prelude.{
  ℕ, zero, suc, ◌+◌, ◌*◌, String, Bool, true, false, not, ◌||◌, ◌&&◌, Option, none, some, List, [],
  ◌∷◌, ltb, leb, ◌==◌, if◌then◌else◌, any, filter, find, length, sum_by, str_eq,
}
use showcase_host.Embeddings.{map, EmbeddingInput, EmbeddingModel}

abbrev pub bge_m3 : EmbeddingModel
bge_m3 = record {
  id = "BAAI/bge-m3";
  dimension = 1024;
  context_tokens = 8192;
  priority = 0;
  multilingual = true;
  fast = false;
}

abbrev pub mini_lm : EmbeddingModel
mini_lm = record {
  id = "sentence-transformers/all-MiniLM-L6-v2";
  dimension = 384;
  context_tokens = 256;
  priority = 1;
  multilingual = false;
  fast = true;
}

abbrev pub e5_small : EmbeddingModel
e5_small = record {
  id = "intfloat/multilingual-e5-small";
  dimension = 384;
  context_tokens = 512;
  priority = 2;
  multilingual = true;
  fast = true;
}

abbrev pub embedding_models : List EmbeddingModel
embedding_models = bge_m3 ∷ mini_lm ∷ e5_small ∷ []

-- `MODEL_BY_ID[model_id]`; `none` is the `UnsupportedEmbeddingModel`.
unfoldable pub require_supported_model : String → Option EmbeddingModel
require_supported_model model_id =
    find (λ (m : EmbeddingModel). str_eq m.id model_id) embedding_models

abbrev same_flag : Bool → Bool → Bool
same_flag true b = b
same_flag false b = not b

-- Equality of the data class.
abbrev pub model_eq : EmbeddingModel → EmbeddingModel → Bool
model_eq a b =
    str_eq a.id b.id
    && a.dimension == b.dimension
    && a.context_tokens == b.context_tokens
    && a.priority == b.priority
    && same_flag a.multilingual b.multilingual
    && same_flag a.fast b.fast

-- A `Counter`, by its items.
unfoldable pub count_one : String → List (String × ℕ) → List (String × ℕ)
count_one key [] = (key, 1) ∷ []
count_one key ((k, n) ∷ counts) =
    let rest = count_one key counts in if str_eq k key then (k, n + 1) ∷ counts else (k, n) ∷ rest

unfoldable pub count_all : List String → List (String × ℕ) → List (String × ℕ)
count_all [] counts = counts
count_all (key ∷ keys) counts = count_all keys (count_one key counts)

abbrev is_prose : String → Bool
is_prose language =
    str_eq language "markdown"
    || str_eq language "text"
    || str_eq language "rst"
    || str_eq language "asciidoc"

unfoldable pub code_count : List (String × ℕ) → ℕ
code_count [] = 0
code_count ((language, n) ∷ counts) =
    if is_prose language then code_count counts else n + code_count counts

-- `code_chunks / len(inputs) >= 0.60`, which the floats decide as the fractions below 2 ^ 50 inputs.
abbrev pub is_code_dominant : ℕ → ℕ → Bool
is_code_dominant code_chunks total = leb (3 * total) (5 * code_chunks)

unfoldable pub largest : List EmbeddingInput → ℕ
largest [] = 0
largest (i ∷ inputs) = if leb i.token_count (largest inputs) then largest inputs else i.token_count

-- The order of the models once languages are counted.
unfoldable pub automatic_order : ℕ → List EmbeddingInput → List (String × ℕ) → List EmbeddingModel
automatic_order large inputs languages =
    if leb large (length inputs)
      && not (is_code_dominant (code_count languages) (length inputs))
      && leb (largest inputs) mini_lm.context_tokens
    then mini_lm ∷ bge_m3 ∷ e5_small ∷ []
    else if not (is_code_dominant (code_count languages) (length inputs))
        && ltb 1 (length languages)
    then bge_m3 ∷ e5_small ∷ mini_lm ∷ []
    else embedding_models

abbrev pub selected_first : Option EmbeddingModel → Option (List EmbeddingModel)
selected_first none = none
selected_first (some selected) =
    some (selected ∷ filter (λ model. not (model_eq model selected)) embedding_models)

-- `lower` is `str.lower`.
unfoldable pub automatic_candidates :
    (String → String) → ℕ → List EmbeddingInput → List EmbeddingModel
automatic_candidates lower large [] = embedding_models
automatic_candidates lower large (i ∷ inputs) =
    automatic_order large (i ∷ inputs)
      (count_all (map (λ (j : EmbeddingInput). lower j.language) (i ∷ inputs)) [])

unfoldable pub model_candidates :
    (String → String) → List EmbeddingInput → Option String → ℕ → Option (List EmbeddingModel)
model_candidates lower inputs none large = some (automatic_candidates lower large inputs)
model_candidates lower inputs (some manual_model) large =
    if str_eq manual_model ""
    then some (automatic_candidates lower large inputs)
    else selected_first (require_supported_model manual_model)
