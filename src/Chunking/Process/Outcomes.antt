-- ===== src/Chunking/Process/Outcomes.antt =====
-- How `process` ends, whatever other transactions do while the worker runs.
use showcase_host.Prelude.{
  sym, subst, ◌∙◌, ap, ℕ, String, true, Option, none, some, List, ◌≡◌, refl, inl, inr, Bool-cases,
}
use showcase_host.Prelude.Results.{Result, ok, err}
use showcase_host.Snapshots.{ManifestEntry}
use showcase_host.Jobs.{Job, get_job, is_running}
use showcase_host.Jobs.Ending.{fail_or_retry-IsUpdated, succeed-IsUpdated}
use showcase_host.Jobs.Ensure.{ensure_job-IsEnsured}
use showcase_host.Chunking.Files.{ChunkedFile}
use showcase_host.Chunking.Columns.{ChunkingColumns, ensure_embedding_job, new_embedding_key}
use showcase_host.Chunking.Publish.Tables.{WorkerEvent, ChunkStore, ProcessError}
use showcase_host.Chunking.Process.{
  repository_of, describe, publish_snapshot, worker_error, snapshot_missing, internal, World,
  Inputs, publication_of, fail_job, commit, end_publish, publish_events, end_worker, chunk_files,
  process_files, process_snapshot, process_job, process,
}
use showcase_host.Chunking.Process.Publishing.{publish}
use showcase_host.Chunking.Process.Collected.{
  IsConsistent, publish-IsConsistent, garbage_collect-IsCollected,
}
use showcase_host.Chunking.Process.Endings.{
  has_work, HasFailed, IsRead, Published, given, reusable_in, second_session, Ended, job_gone,
  snapshot_gone, refused, committed, untouched, no_snapshot, no_files, no_answer, answered,
}

module _ {O X : Type 0} (i : Inputs O X) (id : ℕ) where
  fail_job-HasFailed : (e : ProcessError) (w : World O X) → HasFailed i id e w (fail_job i id e w)
  unfolding fail_job
  fail_job-HasFailed e w = record {
    same_store = refl;
    same_snapshots = refl;
    same_embeddings = refl;
    recorded =
        fail_or_retry-IsUpdated i.now i.max_attempts id (describe e).0 (describe e).1 (describe e).2
          w.jobs;
  }

  end_publish-Published :
      (job : Job ChunkingColumns) (repository_id : ℕ) (entries : List ManifestEntry)
      (reusable : List (String × ChunkedFile O)) (events : List (WorkerEvent O X)) (w : World O X)
      (r : Result ProcessError (ChunkStore O X × ChunkingColumns))
      → IsRead i id w job repository_id
      → publish (publication_of i id job.details repository_id) entries reusable events w.store ≡ r
      → Published i id entries reusable events w (end_publish i id job w r)
  unfolding end_publish commit ensure_embedding_job
  end_publish-Published job repository_id entries reusable events w (err e) read h =
      refused job repository_id e read h (fail_job-HasFailed e w)
  end_publish-Published job repository_id entries reusable events w (ok (store, columns)) read h =
      committed (record {
        job = job;
        repository_id = repository_id;
        read = read;
        store = store;
        columns = columns;
        published = h;
        collected = refl;
        same_snapshots = refl;
        recorded = succeed-IsUpdated i.now id (λ _. columns) w.jobs;
        embedding = _;
        embeds =
            (ensure_job-IsEnsured _ i.embedding_id i.now _
              (new_embedding_key job.details.snapshot_id job.details.profile_key
                (i.embedding_model job.details.snapshot_id))
              w.embedding_jobs).found;
      })

  publish_snapshot-Published :
      (entries : List ManifestEntry) (reusable : List (String × ChunkedFile O))
      (events : List (WorkerEvent O X)) (w : World O X) (job : Job ChunkingColumns)
      (found : Option ℕ)
      → get_job id w.jobs ≡ some job
      → repository_of job.details.snapshot_id w.snapshots ≡ found
      → Published i id entries reusable events w
          (publish_snapshot i id entries reusable events w job found)
  unfolding publish_snapshot
  publish_snapshot-Published entries reusable events w job none read h =
      snapshot_gone job read h refl
  publish_snapshot-Published entries reusable events w job (some repository_id) read h =
      end_publish-Published job repository_id entries reusable events w _ (read, h) refl

  publish_events-Published :
      (entries : List ManifestEntry) (reusable : List (String × ChunkedFile O))
      (events : List (WorkerEvent O X)) (w : World O X) (found : Option (Job ChunkingColumns))
      → get_job id w.jobs ≡ found
      → Published i id entries reusable events w
          (publish_events i id entries reusable events w found)
  unfolding publish_events
  publish_events-Published entries reusable events w none h = job_gone h refl
  publish_events-Published entries reusable events w (some job) h =
      publish_snapshot-Published entries reusable events w job _ h refl

  module _ (meanwhile : World O X → World O X) where
    module _ (w : World O X) (job : Job ChunkingColumns) (read : get_job id w.jobs ≡ some job)
        (runs : is_running job.status ≡ true) where
      end_worker-Ended :
          (repository_id : ℕ) (entries : List ManifestEntry)
          (answer : Result String (List (WorkerEvent O X)))
          → repository_of job.details.snapshot_id w.snapshots ≡ some repository_id
          → i.materialize job.details.snapshot_id ≡ some entries
          → i.worker (given i id entries (reusable_in i id w job repository_id entries)) ≡ answer
          → Ended i id meanwhile w (
              end_worker i id entries
                (reusable_in i id w job repository_id entries)
                (second_session i id meanwhile w)
                answer)
      unfolding end_worker
      end_worker-Ended repository_id entries (err message) h files e =
          no_answer job repository_id entries message (read, h) runs files e
            (fail_job-HasFailed (worker_error message) (second_session i id meanwhile w))
      end_worker-Ended repository_id entries (ok events) h files e =
          answered job repository_id entries events (read, h) runs files e
            (publish_events-Published entries _ events (second_session i id meanwhile w) _ refl)

      process_files-Ended :
          (repository_id : ℕ) (files : Option (List ManifestEntry))
          → repository_of job.details.snapshot_id w.snapshots ≡ some repository_id
          → i.materialize job.details.snapshot_id ≡ files
          → Ended i id meanwhile w (process_files i id meanwhile job repository_id w files)
      unfolding process_files chunk_files
      process_files-Ended repository_id none h e =
          no_files job repository_id (read, h) runs e (fail_job-HasFailed internal w)
      process_files-Ended repository_id (some entries) h e =
          end_worker-Ended repository_id entries _ h e refl

      process_snapshot-Ended :
          (found : Option ℕ)
          → repository_of job.details.snapshot_id w.snapshots ≡ found
          → Ended i id meanwhile w (process_snapshot i id meanwhile job w found)
      unfolding process_snapshot
      process_snapshot-Ended none h =
          no_snapshot job read runs h (fail_job-HasFailed snapshot_missing w)
      process_snapshot-Ended (some repository_id) h =
          process_files-Ended repository_id (i.materialize job.details.snapshot_id) h refl

    process_job-Ended :
        (w : World O X) (found : Option (Job ChunkingColumns))
        → get_job id w.jobs ≡ found
        → Ended i id meanwhile w (process_job i id meanwhile w found)
    unfolding process_job
    process_job-Ended w none h = untouched (ap has_work h) refl
    process_job-Ended w (some job) h = elim (Bool-cases (is_running job.status)) [
      | inl running ↦ rw running (process_snapshot-Ended w job h running _ refl)
      | inr other ↦ rw other (untouched (ap has_work h ∙ other) refl)
    ]

    pub process-Ended : (w : World O X) → Ended i id meanwhile w (process i id meanwhile w)
    unfolding process
    process-Ended w = process_job-Ended w (get_job id w.jobs) refl

    Published-IsConsistent :
        (entries : List ManifestEntry) (reusable : List (String × ChunkedFile O))
        (events : List (WorkerEvent O X)) (w v : World O X)
        → IsConsistent w.store
        → Published i id entries reusable events w v
        → IsConsistent v.store
    Published-IsConsistent entries reusable events w v h (job_gone _ e) =
        subst (λ (u : World O X). IsConsistent u.store) (sym e) h
    Published-IsConsistent entries reusable events w v h (snapshot_gone _ _ _ e) =
        subst (λ (u : World O X). IsConsistent u.store) (sym e) h
    Published-IsConsistent entries reusable events w v h (refused _ _ _ _ _ r) =
        subst IsConsistent (sym r.same_store) h
    Published-IsConsistent entries reusable events w v h (committed r) =
        subst IsConsistent (sym r.collected)
          (garbage_collect-IsCollected r.store (
            publish-IsConsistent (publication_of i id r.job.details r.repository_id) entries
              reusable events w.store r.store r.columns h r.published)).consistent

    Ended-IsConsistent :
        (w v : World O X)
        → IsConsistent w.store
        → IsConsistent (second_session i id meanwhile w).store
        → Ended i id meanwhile w v
        → IsConsistent v.store
    Ended-IsConsistent w v h k (untouched _ e) =
        subst (λ (u : World O X). IsConsistent u.store) (sym e) h
    Ended-IsConsistent w v h k (no_snapshot _ _ _ _ r) = subst IsConsistent (sym r.same_store) h
    Ended-IsConsistent w v h k (no_files _ _ _ _ _ r) = subst IsConsistent (sym r.same_store) h
    Ended-IsConsistent w v h k (no_answer _ _ _ _ _ _ _ _ r) =
        subst IsConsistent (sym r.same_store) k
    Ended-IsConsistent w v h k (answered _ _ entries events _ _ _ _ r) =
        Published-IsConsistent entries _ events (second_session i id meanwhile w) v k r

    -- The processing keeps the foreign keys of the rows and of the chunks, if other transactions keep them
    -- meanwhile.
    pub process-IsConsistent :
        ((u : World O X) → IsConsistent u.store → IsConsistent (meanwhile u).store)
        → (w : World O X) → IsConsistent w.store
        → IsConsistent (process i id meanwhile w).store
    process-IsConsistent keeps w h = Ended-IsConsistent w _ h (keeps _ h) (process-Ended w)
