-- ===== src/Evaluation/Manager/Retry.antt =====
-- What `retry_failed` returns, and what it leaves in memory and in the files.
use showcase_host.Prelude.{ℕ, ◌<◌, true, some, ◌≡◌, String}
use showcase_host.Retrieval.{lookup}
use showcase_host.Evaluation.Manager.{Manager, Retrying}
use showcase_host.Evaluation.Manager.States.{Run, is_retryable, new_run}

module _ {Q P : Type 0} where
  -- The new run of a finished one that lacks scores: it has the request and starts from the result.
  pub record IsRetried (reads : Retrying Q P) (id : String) (now : ℕ) (old : Run Q P) (r : Run Q P)
      (m : Manager Q P) : Type 0 where
    pub finished : is_retryable old.row.status ≡ true
    pub result : P
    pub had_result : old.row.result ≡ some result
    pub recoverable : reads.is_recoverable result ≡ true
    pub lacks_scores : reads.scored_of result < reads.limit_of old.row.request
    pub same_request : r ≡ new_run id now old.row.request (some old.row.id) (some result)
    pub in_memory : lookup r.row.id m.runs ≡ some r
    pub in_file : lookup r.row.id m.files ≡ some r.row
