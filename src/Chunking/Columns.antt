-- ===== src/Chunking/Columns.antt =====
-- The columns of the chunking and the embedding jobs in app/db/models.py, and the functions of
-- app/services/{chunking,embeddings}.py that make these jobs.
use showcase_host.Prelude.{
  refl, str_eq_iff, ==_iff, true, ◌≡◌, ℕ, String, Bool, false, ◌&&◌, Option, none, some, List, [],
  ◌==◌, if◌then◌else◌, str_eq,
}
use showcase_host.Jobs.{Job}
use showcase_host.Jobs.Ensure.{ensure_job}

-- The columns of `chunking_jobs` that the other job tables have not.
pub record ChunkingColumns : Type 0 where
  pub snapshot_id : ℕ
  pub profile_key : String
  pub discovered_files : ℕ
  pub supported_files : ℕ
  pub reused_files : ℕ
  pub skipped_files : ℕ
  pub failed_files : ℕ
  pub chunks_created : ℕ
  pub processed_bytes : ℕ
  pub adaptive_retries : ℕ
  pub has_warnings : Bool
  pub language_timings_ms : List (String × ℕ)

abbrev pub new_columns : ℕ → String → ChunkingColumns
new_columns snapshot_id profile_key = record {
  snapshot_id = snapshot_id;
  profile_key = profile_key;
  discovered_files = 0;
  supported_files = 0;
  reused_files = 0;
  skipped_files = 0;
  failed_files = 0;
  chunks_created = 0;
  processed_bytes = 0;
  adaptive_retries = 0;
  has_warnings = false;
  language_timings_ms = [];
}

-- The columns that `requeue_failed_chunking_job` resets.
unfoldable pub reset_columns : ChunkingColumns → ChunkingColumns
reset_columns columns = new_columns columns.snapshot_id columns.profile_key

pub record EmbeddingColumns : Type 0 where
  pub snapshot_id : ℕ
  pub profile_key : String
  pub selection_key : String
  pub requested_model : Option String

abbrev pub is_chunking_key : ℕ → String → ChunkingColumns → Bool
is_chunking_key snapshot_id profile_key columns =
    columns.snapshot_id == snapshot_id && str_eq columns.profile_key profile_key

unfoldable pub ensure_chunking_job :
    ℕ
    → ℕ
    → ℕ
    → String
    → List (Job ChunkingColumns)
    → Job ChunkingColumns × List (Job ChunkingColumns)
ensure_chunking_job id now snapshot_id profile_key =
    ensure_job (is_chunking_key snapshot_id profile_key) id now
      (new_columns snapshot_id profile_key)

-- `requested_model or "auto"`, of which an empty name counts as none.
abbrev pub selection_of : Option String → String
selection_of none = "auto"
selection_of (some model) = if str_eq model "" then "auto" else model

abbrev pub is_embedding_key : ℕ → String → String → EmbeddingColumns → Bool
is_embedding_key snapshot_id profile_key selection columns =
    columns.snapshot_id == snapshot_id
    && str_eq columns.profile_key profile_key
    && str_eq columns.selection_key selection

abbrev new_embedding : ℕ → String → Option String → EmbeddingColumns
new_embedding snapshot_id profile_key model = record {
  snapshot_id = snapshot_id;
  profile_key = profile_key;
  selection_key = selection_of model;
  requested_model = model;
}

unfoldable pub ensure_embedding_job :
    ℕ
    → ℕ
    → ℕ
    → String
    → Option String
    → List (Job EmbeddingColumns)
    → Job EmbeddingColumns × List (Job EmbeddingColumns)
ensure_embedding_job id now snapshot_id profile_key model =
    ensure_job (is_embedding_key snapshot_id profile_key (selection_of model)) id now
      (new_embedding snapshot_id profile_key model)

pub new_columns_key :
    (snapshot_id : ℕ) (profile_key : String)
    → is_chunking_key snapshot_id profile_key (new_columns snapshot_id profile_key) ≡ true
new_columns_key snapshot_id profile_key =
    rw ((==_iff snapshot_id snapshot_id).1 refl, (str_eq_iff profile_key profile_key).1 refl) refl

pub new_embedding_key :
    (snapshot_id : ℕ) (profile_key : String) (model : Option String)
    → is_embedding_key snapshot_id profile_key
        (selection_of model)
        (new_embedding snapshot_id profile_key model)
      ≡ true
new_embedding_key snapshot_id profile_key model =
    rw
      (
        (==_iff snapshot_id snapshot_id).1 refl,
        (str_eq_iff profile_key profile_key).1 refl,
        (str_eq_iff (selection_of model) (selection_of model)).1 refl,
      )
      refl
