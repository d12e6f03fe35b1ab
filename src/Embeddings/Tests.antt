-- ===== src/Embeddings/Tests.antt =====
-- Embedding runs against a store that is a list of records by their models, with vectors that are
-- numbers. The first model's provider fails, the second one fails once and then works.
use showcase_host.Prelude.{
  subst, ap, ℕ, ◌≡◌, refl, sym, ◌∙◌, inl, inr, ◌⊎◌, String, true, false, ◌&&◌, Option, some, none,
  List, [], ◌∷◌, map, All, In, Bool-cases, str_eq, str_eq_iff, if◌then◌else◌, leb,
}
use showcase_host.Embeddings.{
  vector_record, EmbeddingInput, EmbeddingModel, VectorRecord, VectorStore, Provider, Settings,
  written,
}
use showcase_host.Embeddings.Calls.{returns, provider_error}
use showcase_host.Embeddings.Batches.{returned}

abbrev Stored : Type 0
Stored = List (String × VectorRecord ℕ)

abbrev lookup : Stored → String → String → Option (VectorRecord ℕ)
lookup [] model id = none
lookup ((m, r) ∷ rest) model id =
    if str_eq m model && str_eq r.id id then some r else lookup rest model id

abbrev hash_of : Option (VectorRecord ℕ) → Option String
hash_of none = none
hash_of (some r) = some r.content_hash

abbrev insert : String → List (VectorRecord ℕ) → Stored → Stored
insert model [] s = s
insert model (r ∷ records) s = (model, r) ∷ insert model records s

hash_of-found :
    (found : Option (VectorRecord ℕ)) (h : String)
    → hash_of found ≡ some h
    → (r : VectorRecord ℕ) × (found ≡ some r) × (r.content_hash ≡ h)
hash_of-found none h e = absurd (cc e)
hash_of-found (some r) h e = (r, refl, cc e)

hashes_at : (f g : String → Option String) → returns g ≡ returns f → (id : String) → f id ≡ g id
hashes_at f g e id = ap (λ (k : String → Option String). k id) (sym (returned e))

written_state : {s t : Stored} → written s ≡ written t → s ≡ t
written_state e = cc e

str_eq_refl : (s : String) → str_eq s s ≡ true
str_eq_refl s = (str_eq_iff s s).1 refl

insert-lookup :
    (model : String) (records : List (VectorRecord ℕ)) (s : Stored) (id : String)
    → ((lookup (insert model records s) model id ≡ lookup s model id)
        × All (λ (r : VectorRecord ℕ). ¬ r.id ≡ id) records)
      ⊎ ((r : VectorRecord ℕ) × In r records
          × (r.id ≡ id)
          × (lookup (insert model records s) model id ≡ some r))
insert-lookup model [] s id = inl (refl, tt)
insert-lookup model (r ∷ records) s id = elim (Bool-cases (str_eq r.id id)) [
  | inl same ↦ inr (r, inl refl, (str_eq_iff r.id id).0 same, rw (str_eq_refl model, same) refl)
  | inr other ↦ elim (insert-lookup model records s id) [
    | inl (unchanged, others) ↦ inl (
      rw (str_eq_refl model, other) unchanged,
      ((λ e. cc (other, (str_eq_iff r.id id).1 e)), others),
    )
    | inr (q, among, q_id, found) ↦ inr (q, inr among, q_id, rw (str_eq_refl model, other) found)
  ]
]

abbrev store : VectorStore Stored ℕ
store = record {
  record_at = lookup;
  prepare = λ model s. written s;
  existing_hashes = λ s model ids. returns (λ id. hash_of (lookup s model.id id));
  upsert = λ model records s. written (insert model.id records s);
  existing_hashes_known = λ s model ids hashes e id h m known.
      hash_of-found (lookup s model.id id) h
        (sym (hashes_at hashes (λ x. hash_of (lookup s model.id x)) e id) ∙ known);
  upsert_written = λ model records s s' e id.
      subst
        (λ (t : Stored).
          ((lookup t model.id id ≡ lookup s model.id id)
            × All (λ (r : VectorRecord ℕ). ¬ r.id ≡ id) records)
          ⊎ ((r : VectorRecord ℕ) × In r records × (r.id ≡ id) × (lookup t model.id id ≡ some r)))
        (written_state e) (insert-lookup model.id records s id);
}

abbrev settings : Settings
settings = record { batch_size = 2; max_retries = 1 }

abbrev item : String → String → EmbeddingInput
item id text = record {
  chunk_id = id;
  text = text;
  raw_text = text;
  repository_id = "r";
  snapshot_id = "s";
  path = "p";
  language = "python";
  start_line = 1;
  end_line = 1;
  byte_start = 0;
  byte_end = 1;
  entities = "[]";
  scope = "[]";
  chunk_fingerprint = id;
  profile_key = "k";
  tokenizer_id = "t";
  token_count = 1;
  quality_grade = "A";
  quality_score = 100;
  context = "{}";
}

abbrev inputs : List EmbeddingInput
inputs = item "1" "a" ∷ item "2" "b" ∷ item "3" "c" ∷ item "4" "d" ∷ []

abbrev failing : Provider ℕ
failing = record {
  validate = λ attempt. returns true;
  embed_documents = λ k attempt texts. provider_error false;
  first_failure = 0;
}

abbrev recovering : Provider ℕ
recovering = record {
  validate = λ attempt. returns true;
  embed_documents = λ k attempt texts.
      if leb 1 attempt then returns (map (λ _. 7) texts) else provider_error true;
  first_failure = 0;
}

abbrev model_of : String → EmbeddingModel
model_of id = record {
  id = id;
  dimension = 3;
  context_tokens = 512;
  priority = 0;
  multilingual = false;
  fast = false;
}

abbrev providers : EmbeddingModel → Provider ℕ
providers model = if str_eq model.id "m" then failing else recovering

abbrev hash : String → String
hash text = text

-- The second input has a current vector of the second model.
abbrev earlier : Stored
earlier = ("n", vector_record store hash settings (model_of "n") (item "2" "b") 5) ∷ []

abbrev later : Stored
later =
    ("n", vector_record store hash settings (model_of "n") (item "4" "d") 7)
    ∷ ("n", vector_record store hash settings (model_of "n") (item "1" "a") 7)
    ∷ ("n", vector_record store hash settings (model_of "n") (item "3" "c") 7)
    ∷ earlier

abbrev text_of : String → String
text_of id =
    if str_eq id "1" then "a" else if str_eq id "2" then "b" else if str_eq id "3" then "c" else "d"
