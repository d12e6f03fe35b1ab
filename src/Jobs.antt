-- ===== src/Jobs.antt =====
-- The durable job rows of app/db/models.py, and the operations that the three runners of
-- app/services/{ingestion,chunking,embeddings}.py share.
pub mod Table
pub mod Claim
pub mod Events
pub mod Ensure
pub mod Ending
mod Tests
use showcase_host.Prelude.{
  ℕ, ◌+◌, ◌*◌, ◌^◌, String, Bool, true, false, not, ◌&&◌, Option, none, some, List, [], ◌∷◌, map,
  ltb, leb, ◌==◌, if◌then◌else◌, or_else, filter, find, str_take,
}

-- `IngestionStatus`, `ChunkingStatus` and `EmbeddingStatus` have these members, in this order.
pub data JobStatus : Type 0 where
  queued running succeeded failed : JobStatus

-- The columns that the three job tables share; `details` holds a table's own columns.
-- Identifiers are only compared, and a time is in microseconds.
pub record Job (X : Type 0) : Type 0 where
  pub id : ℕ
  pub status : JobStatus
  pub attempt_count : ℕ
  pub next_attempt_at : Option ℕ
  pub lease_expires_at : Option ℕ
  pub error_code : Option String
  pub error_message : Option String
  pub created_at : ℕ
  pub started_at : Option ℕ
  pub finished_at : Option ℕ
  pub details : X

-- `timedelta(seconds=n)`.
abbrev pub seconds : ℕ → ℕ
seconds n = 1_000_000 * n

abbrev pub is_queued : JobStatus → Bool
is_queued queued = true
is_queued running = false
is_queued succeeded = false
is_queued failed = false

abbrev pub is_running : JobStatus → Bool
is_running running = true
is_running queued = false
is_running succeeded = false
is_running failed = false

abbrev pub is_failed : JobStatus → Bool
is_failed failed = true
is_failed queued = false
is_failed running = false
is_failed succeeded = false

module _ {X : Type 0} where
  -- `session.get(Job, id)`.
  abbrev pub get_job : ℕ → List (Job X) → Option (Job X)
  get_job id jobs = find (λ j. j.id == id) jobs

  -- Assignments to the fields of the row that `session.get` returned; nothing if there is none.
  abbrev pub update_job : ℕ → (Job X → Job X) → List (Job X) → List (Job X)
  update_job id f [] = []
  update_job id f (j ∷ js) = if j.id == id then f j ∷ js else j ∷ update_job id f js

  -- `lease_expires_at < now`, which is not true of a null.
  unfoldable pub has_expired : ℕ → Job X → Bool
  has_expired now j =
      is_running j.status && elim j.lease_expires_at [ none ↦ false | some t ↦ ltb t now ]

  -- The first statement of `claim_next`, on one row.
  unfoldable pub requeue_expired : ℕ → Job X → Job X
  unfolding has_expired
  requeue_expired now j =
      if has_expired now j then record j { status = queued; lease_expires_at = none } else j

  -- The `where` of the second statement. `locked` are the rows that other transactions hold,
  -- which `skip_locked` passes over.
  unfoldable pub is_claimable : ℕ → (ℕ → Bool) → Job X → Bool
  is_claimable now locked j =
      is_queued j.status
      && elim j.next_attempt_at [ none ↦ true | some t ↦ leb t now ]
      && not (locked j.id)

  -- `order_by(created_at).limit(1)`; of equal times the first in the table.
  abbrev pub oldest : List (Job X) → Option (Job X)
  oldest [] = none
  oldest (j ∷ js) = elim (oldest js) [
    | none ↦ some j
    | some k ↦ if leb j.created_at k.created_at then some j else some k
  ]

  unfoldable pub begin_attempt : ℕ → ℕ → Job X → Job X
  begin_attempt now lease j = record j {
    status = running;
    attempt_count = j.attempt_count + 1;
    started_at = some (or_else j.started_at now);
    next_attempt_at = none;
    lease_expires_at = some (now + seconds lease);
  }

  -- The row that the second statement returned is written back; nothing is claimed if it has none.
  abbrev claim_row : ℕ → ℕ → List (Job X) → Option (Job X) → Option ℕ × List (Job X)
  claim_row now lease swept none = (none, swept)
  claim_row now lease swept (some j) = (some j.id, update_job j.id (begin_attempt now lease) swept)

  unfoldable pub claim_next : ℕ → ℕ → (ℕ → Bool) → List (Job X) → Option ℕ × List (Job X)
  claim_next now lease locked jobs =
      let swept = map (requeue_expired now) jobs in
      claim_row now lease swept (oldest (filter (is_claimable now locked) swept))

  -- `_refresh_lease` writes the lease whatever the status is.
  unfoldable pub extend_lease : ℕ → ℕ → Job X → Job X
  extend_lease now lease j = record j { lease_expires_at = some (now + seconds lease) }

  unfoldable pub refresh_lease : ℕ → ℕ → ℕ → List (Job X) → List (Job X)
  refresh_lease now lease id = update_job id (extend_lease now lease)

  -- The assignments of `_fail_or_retry`.
  unfoldable pub record_failure : ℕ → ℕ → String → String → Bool → Job X → Job X
  record_failure now max_attempts code message transient j =
      if transient && ltb j.attempt_count max_attempts
      then record j {
        error_code = some (str_take 64 code);
        error_message = some (str_take 1000 message);
        lease_expires_at = none;
        status = queued;
        next_attempt_at = some (now + seconds (2 ^ j.attempt_count));
      }
      else record j {
        error_code = some (str_take 64 code);
        error_message = some (str_take 1000 message);
        lease_expires_at = none;
        status = failed;
        finished_at = some now;
      }

  unfoldable pub fail_or_retry : ℕ → ℕ → ℕ → String → String → Bool → List (Job X) → List (Job X)
  fail_or_retry now max_attempts id code message transient =
      update_job id (record_failure now max_attempts code message transient)

  -- `_heartbeat`: one round of its loop, whose statement has the status in its `where`.
  unfoldable pub beat_lease : ℕ → ℕ → Job X → Job X
  unfolding extend_lease
  beat_lease now lease j = if is_running j.status then extend_lease now lease j else j

  unfoldable pub heartbeat : ℕ → ℕ → ℕ → List (Job X) → List (Job X)
  heartbeat now lease id = update_job id (beat_lease now lease)

  -- The assignments by which the three services end a job well; `g` sets a table's own columns.
  unfoldable pub mark_succeeded : ℕ → (X → X) → Job X → Job X
  mark_succeeded now g j = record j {
    status = succeeded;
    finished_at = some now;
    lease_expires_at = none;
    error_code = none;
    error_message = none;
    details = g j.details;
  }

  unfoldable pub succeed : ℕ → ℕ → (X → X) → List (Job X) → List (Job X)
  succeed now id g = update_job id (mark_succeeded now g)

  -- `requeue_failed_chunking_job`; `g` resets the table's own columns.
  unfoldable pub reset_failed : (X → X) → Job X → Job X
  reset_failed g j =
      if is_failed j.status
      then record j {
        status = queued;
        attempt_count = 0;
        next_attempt_at = none;
        lease_expires_at = none;
        error_code = none;
        error_message = none;
        started_at = none;
        finished_at = none;
        details = g j.details;
      }
      else j

  unfoldable pub requeue_failed : ℕ → (X → X) → List (Job X) → List (Job X)
  requeue_failed id g = update_job id (reset_failed g)
