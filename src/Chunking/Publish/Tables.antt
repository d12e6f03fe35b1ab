-- ===== src/Chunking/Publish/Tables.antt =====
-- The tables of files, chunks and rows of snapshots of app/db/models.py, and what `_publish` of
-- app/services/chunking.py reads and counts.
use showcase_host.Prelude.{ℕ, String, Option, List}
use showcase_host.Chunking.Files.{ChunkedFile}

pub data ChunkFileStatus : Type 0 where
  succeeded skipped failed : ChunkFileStatus

pub record SnapshotChunkFile : Type 0 where
  pub snapshot_id : ℕ
  pub profile_key : String
  pub path : String
  pub chunked_file_id : Option ℕ
  pub status : ChunkFileStatus
  pub reason : Option String
  pub error_message : Option String

-- A chunk of an event, with the keys of the worker's contract.
pub record ChunkData (X : Type 0) : Type 0 where
  pub index : ℕ
  pub text : String
  pub contextualized_text : String
  pub byte_start : ℕ
  pub byte_end : ℕ
  pub line_start : ℕ
  pub line_end : ℕ
  pub context : X
  pub token_count : ℕ
  pub quality_grade : String
  pub quality_score : ℕ

-- A file event of the worker. The keys that are read without a default are `none` if they are missing.
pub record WorkerEvent (O X : Type 0) : Type 0 where
  pub path : String
  pub status : Option String
  pub reason : Option String
  pub error : Option String
  pub chunks : List (ChunkData X)
  pub resolved_options : Option O
  pub language : Option String
  pub adaptive_retries : Option ℕ
  pub duration_ms : Option ℕ

pub record CodeChunk (X : Type 0) : Type 0 where
  pub id : String
  pub chunked_file_id : ℕ
  pub chunk_index : ℕ
  pub fingerprint : String
  pub raw_text : String
  pub searchable_metadata : String
  pub embedding_text : String
  pub byte_start : ℕ
  pub byte_end : ℕ
  pub start_line : ℕ
  pub end_line : ℕ
  pub context : X
  pub tokenizer_id : String
  pub token_count : ℕ
  pub quality_grade : String
  pub quality_score : ℕ

-- The three tables; `next_id` numbers the files of the first.
pub record ChunkStore (O X : Type 0) : Type 0 where
  pub chunked_files : List (ChunkedFile O)
  pub code_chunks : List (CodeChunk X)
  pub snapshot_files : List SnapshotChunkFile
  pub next_id : ℕ

-- The `ChunkingProcessError`s and, as `internal`, any other exception.
pub data ProcessError : Type 0 where
  snapshot_missing no_chunkable_files internal : ProcessError
  worker_error incomplete_worker_result : String → ProcessError

-- A value of the payload that is hashed.
pub data Value (O : Type 0) : Type 0 where
  text : String → Value O
  number : ℕ → Value O
  options : O → Value O

-- The parameters, with the profile's tokenizer.
pub record Functions (O X : Type 0) : Type 0 where
  pub lower : String → String
  pub sha256 : String → String
  pub dumps : List (String × Value O) → String
  pub uuid5 : String → String
  pub with_quality : X → String → ℕ → X
  pub searchable : String → String → X → String
  pub tokenizer_id : String

-- The snapshot and the job's profile.
pub record Publication (O X : Type 0) : Type 0 where
  pub functions : Functions O X
  pub open functions use *
  pub snapshot_id : ℕ
  pub repository_id : ℕ
  pub profile_key : String

-- The local variables of `_publish`, with the tables.
pub record Progress (O X : Type 0) : Type 0 where
  pub store : ChunkStore O X
  pub successful_files : ℕ
  pub skipped_files : ℕ
  pub failed_files : ℕ
  pub chunks_created : ℕ
  pub adaptive_retries : ℕ
  pub language_timings : List (String × ℕ)
