-- ===== src/Chunking/Worker.antt =====
-- The client of the chunking worker in app/chunking/client.py. The lines are what the worker's process
-- writes until its output ends; a chunk is any type.
pub mod Assembly
mod Tests
use showcase_host.Prelude.{
  ℕ, suc, ◌+◌, String, Bool, true, false, not, ◌||◌, ◌&&◌, Option, none, some, List, [], ◌∷◌, ◌++◌,
  ◌==◌, if◌then◌else◌, str_eq,
}

abbrev pub engine_version : String
engine_version =
    "code-chunk@0.1.14+tree-sitter@0.26.3+tree-sitter-wasm@1.1.6+logical@2+text@2+overlap@2+quality@1"

abbrev pub protocol_version : ℕ
protocol_version = 3

-- An event by its type. A path that is no string and a chunk that is no object are `none`.
pub data Event (C : Type 0) : Type 0 where
  fatal : Event C
  complete : String → Event C
  chunk : Option String → Option C → Event C
  file : Option String → Option String → Event C
  unknown : Event C

pub record Message (C : Type 0) : Type 0 where
  pub version : ℕ
  pub request_id : String
  pub event : Event C

-- A line that is an object, is none, or is longer than the reader's limit.
pub data Line (C : Type 0) : Type 0 where
  message : Message C → Line C
  invalid_json : Line C
  too_long : Line C

-- What `chunk` yields: a file event, with its chunks if it succeeded.
pub record FileEvent (C : Type 0) : Type 0 where
  pub path : String
  pub status : Option String
  pub chunks : List C

-- The `ChunkingWorkerError`s.
pub data WorkerError : Type 0 where
  exited invalid_output protocol_mismatch failed engine_mismatch incomplete_files : WorkerError
  invalid_chunk_event unknown_event invalid_file_event chunks_of_failed_file record_too_long :
      WorkerError

-- What one line leads to; `chunks_by_path` is carried on by the first two.
pub data Step (C : Type 0) : Type 0 where
  continues : List (String × List C) → Step C
  yields : FileEvent C → List (String × List C) → Step C
  finishes : Step C
  raises : WorkerError → Step C

pub data Outcome : Type 0 where
  finished : Outcome
  raised : WorkerError → Outcome

abbrev pub has_succeeded : Option String → Bool
has_succeeded none = false
has_succeeded (some status) = str_eq status "succeeded"

abbrev pub is_empty {ℓ} : {A : Type ℓ} → List A → Bool
is_empty [] = true
is_empty (a ∷ as_) = false

module _ {C : Type 0} where
  -- `pop(path, [])`: the chunks, and the dictionary without them.
  abbrev pub chunks_at : String → List (String × List C) → List C
  chunks_at path [] = []
  chunks_at path ((p, chunks) ∷ rest) = if str_eq p path then chunks else chunks_at path rest

  abbrev pub without : String → List (String × List C) → List (String × List C)
  without path [] = []
  without path ((p, chunks) ∷ rest) =
      if str_eq p path then without path rest else (p, chunks) ∷ without path rest

  -- `setdefault(path, []).append(chunk)`.
  abbrev pub add_chunk : String → C → List (String × List C) → List (String × List C)
  add_chunk path c [] = (path, c ∷ []) ∷ []
  add_chunk path c ((p, chunks) ∷ rest) =
      if str_eq p path then (p, chunks ++ c ∷ []) ∷ rest else (p, chunks) ∷ add_chunk path c rest

  unfoldable pub on_file : String → Option String → List C → List (String × List C) → Step C
  on_file path status chunks rest =
      if has_succeeded status
      then yields (record { path = path; status = status; chunks = chunks }) rest
      else if is_empty chunks
      then yields (record { path = path; status = status; chunks = [] }) rest
      else raises chunks_of_failed_file

  unfoldable pub on_event : List (String × List C) → Event C → Step C
  on_event pending fatal = raises failed
  on_event pending (complete version) =
      if not (str_eq version engine_version)
      then raises engine_mismatch
      else if is_empty pending
      then finishes
      else raises incomplete_files
  on_event pending (chunk none c) = raises invalid_chunk_event
  on_event pending (chunk (some path) none) = raises invalid_chunk_event
  on_event pending (chunk (some path) (some c)) = continues (add_chunk path c pending)
  on_event pending (file none status) = raises invalid_file_event
  on_event pending (file (some path) status) =
      on_file path status (chunks_at path pending) (without path pending)
  on_event pending unknown = raises unknown_event

  unfoldable pub on_line : String → List (String × List C) → Line C → Step C
  on_line request_id pending invalid_json = raises invalid_output
  on_line request_id pending too_long = raises record_too_long
  on_line request_id pending (message m) =
      if not (m.version == protocol_version) || not (str_eq m.request_id request_id)
      then raises protocol_mismatch
      else on_event pending m.event

  -- The rest of a round; `read` goes on reading.
  unfoldable pub after_step :
      (List (String × List C) → List (FileEvent C) × Outcome)
      → Step C
      → List (FileEvent C) × Outcome
  after_step read (continues pending) = read pending
  after_step read (yields event pending) = (event ∷ (read pending).0, (read pending).1)
  after_step read finishes = ([], finished)
  after_step read (raises e) = ([], raised e)

  -- The `while True` loop.
  unfoldable pub read_events :
      String → List (String × List C) → List (Line C) → List (FileEvent C) × Outcome
  read_events request_id pending [] = ([], raised exited)
  read_events request_id pending (line ∷ lines) =
      after_step (λ rest. read_events request_id rest lines) (on_line request_id pending line)

-- Whether `_process` is a running process, and `restart_count`.
pub record Client : Type 0 where
  pub has_process : Bool
  pub restart_count : ℕ

unfoldable pub discard_process : Client → Client
discard_process client = record { has_process = false; restart_count = client.restart_count + 1 }

-- `start` leaves a process, which an error of the request discards.
unfoldable pub after_request : Client → Outcome → Client
after_request client finished = record client { has_process = true }
after_request client (raised e) = discard_process client

unfoldable pub request_chunks :
    {C : Type 0} → String → List (Line C) → Client → List (FileEvent C) × Outcome × Client
request_chunks request_id lines client =
    let (events, outcome) = read_events request_id [] lines in
    (events, outcome, after_request client outcome)
