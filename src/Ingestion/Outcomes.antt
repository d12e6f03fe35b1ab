-- ===== src/Ingestion/Outcomes.antt =====
-- `IngestionProcessor.process` of app/services/ingestion.py ends in one of the ways of Endings.
use showcase_host.Prelude.{
  sym, ap, ◌∙◌, subst, ℕ, String, true, Option, none, some, ◌≡◌, refl, inl, inr, Bool-cases, ◌==◌,
  ==_iff, str_of, str_of-IsDecimal,
}
use showcase_host.Prelude.Results.{Result, ok, err}
use showcase_host.Snapshots.{Archive}
use showcase_host.Snapshots as Snapshots
use showcase_host.Snapshots.Paths.{IsSafePart}
use showcase_host.Snapshots.Keys.Plain.{IsDecimal-IsSafePart}
use showcase_host.Snapshots.Store.{Storage, StoredSnapshot, validate_and_publish}
use showcase_host.Snapshots.Store.Published.{publish-materialize}
use showcase_host.Jobs.{Job, get_job, is_running, succeed, refresh_lease}
use showcase_host.Jobs.Ending.{IsUpdated}
use showcase_host.Chunking.Columns.{ensure_chunking_job}
use showcase_host.Repositories.{Repository, SourceRepository}
use showcase_host.Ingestion.Retention.{
  enforce_retention-le, enforce_retention-spares, enforce_retention-IsForgotten,
}
use showcase_host.Ingestion.Endings.{
  has_work, find_repository, Commit, HasSnapshot, IsResolved, stored_snapshot, Cause, no_repository,
  no_token, no_remote, is_other, no_sha, no_archive, not_published, IsRecorded, IsReused, IsStored,
  Ended, untouched, has_failed, reused, stored_new,
}
use showcase_host.Ingestion.{
  IngestionError, repository_missing, Inputs, fail_ingestion, set_snapshot, reuse_snapshot,
  add_snapshot, end_publication, end_download, with_existing, observe_commit, with_sha, with_remote,
  with_token, with_repository, ingest_job, ingest,
}
use showcase_host.Ingestion.Tables.{IngestionColumns, SourceSnapshot, World}
use showcase_host.Ingestion.Written.{
  IsObserved, append_same, renewed, observe_commit-IsObserved, fail_ingestion-IsRecorded,
  fail_ingestion-IsRecorded_observed, succeeds, chunked, renew_jobs-same, renew_jobs-chunked,
  ensured,
}

-- The commits that are resolved are single names, as the hexadecimal digits that the client checks are.
abbrev pub GivesPlainCommits : Inputs → Type 0
GivesPlainCommits i =
    (token : String) (remote : SourceRepository) (sha : String)
    → i.resolve_sha token remote ≡ ok sha
    → IsSafePart sha

module _ (i : Inputs) (id : ℕ) where
  -- A running job whose commit is resolved.
  module _ (w : World) (job : Job IngestionColumns) (read : get_job id w.jobs ≡ some job)
      (runs : is_running job.status ≡ true) where
    module _ (c : Commit) (resolved : IsResolved i id w job c) (plain : IsSafePart c.sha) where
      published-IsStored :
          (u : World) (archive : Archive) (stored : StoredSnapshot) (files : Storage)
          → stored_snapshot i id w c ≡ none
          → IsObserved i id c w u
          → i.download c.token c.remote c.sha ≡ ok archive
          → validate_and_publish i.sha256 i.limits
              (str_of c.repository.github_repository_id)
              c.sha
              archive
              w.storage
            ≡ (Snapshots.ok stored, files)
          → IsStored i id c w
              (end_publication i id c.repository c.sha u (Snapshots.ok stored, files))
      unfolding end_publication add_snapshot
      published-IsStored u archive stored files new o downloaded h =
          let (content, materialized, _, _) =
            publish-materialize i.sha256 i.limits (str_of c.repository.github_repository_id) c.sha
              archive
              (IsDecimal-IsSafePart _ (str_of-IsDecimal c.repository.github_repository_id), plain)
              w.storage files stored h in
          let added = add_snapshot i id c.repository c.sha stored (record u { storage = files }) in
          record {
            not_before = new;
            archive = archive;
            downloaded = downloaded;
            stored = stored;
            files = files;
            published = h;
            content = content;
            materializes = materialized;
            added = added;
            new_row = append_same _ o.same_snapshots;
            same_embedding = o.same_embedding;
            repositories = o.repositories;
            storage = refl;
            recorded = succeeds i id c i.next_snapshot w.jobs u.jobs o.held;
            chunking = _;
            has_chunking = chunked i id c.repository c.sha stored (record u { storage = files });
            retained = refl;
            rows = enforce_retention-IsForgotten i.limits i.retention_count c.repository.id added;
            spared = enforce_retention-spares i.limits i.retention_count c.repository.id added;
            within = enforce_retention-le i.limits i.retention_count c.repository.id added;
          }

      end_publication-Ended :
          (u : World) (archive : Archive) (r : Snapshots.Result StoredSnapshot × Storage)
          → stored_snapshot i id w c ≡ none
          → IsObserved i id c w u
          → i.download c.token c.remote c.sha ≡ ok archive
          → validate_and_publish i.sha256 i.limits
              (str_of c.repository.github_repository_id)
              c.sha
              archive
              w.storage
            ≡ r
          → Ended i id w (end_publication i id c.repository c.sha u r)
      unfolding end_publication
      end_publication-Ended u archive (Snapshots.err e, files) new o downloaded h =
          has_failed job (IngestionError.snapshot e) (some c) files read runs
            (not_published c archive e files resolved new downloaded h)
            (fail_ingestion-IsRecorded_observed i id w u c (IngestionError.snapshot e) files o)
      end_publication-Ended u archive (Snapshots.ok stored, files) new o downloaded h =
          stored_new job c read runs resolved
            (published-IsStored u archive stored files new o downloaded h)

      end_download-Ended :
          (u : World) (r : Result IngestionError Archive)
          → stored_snapshot i id w c ≡ none
          → IsObserved i id c w u
          → i.download c.token c.remote c.sha ≡ r
          → Ended i id w (end_download i id c.repository c.sha u r)
      unfolding end_download
      end_download-Ended u (err e) new o h =
          has_failed job e (some c) w.storage read runs (no_archive c e resolved new h) (
            subst (λ (x : World). IsRecorded i id e (some c) w.storage w (fail_ingestion i id e x))
              (ap (λ s. record u { storage = s }) (sym o.storage))
              (fail_ingestion-IsRecorded_observed i id w u c e w.storage o))
      end_download-Ended u (ok archive) new o h =
          end_publication-Ended (record u { jobs = refresh_lease i.now i.lease id u.jobs }) archive
            _ new
            (record {
              same_snapshots = o.same_snapshots;
              same_chunking = o.same_chunking;
              same_embedding = o.same_embedding;
              repositories = o.repositories;
              storage = o.storage;
              held = renewed i id c w.jobs u.jobs o.held;
            })
            h (ap (validate_and_publish i.sha256 i.limits _ c.sha archive) (sym o.storage))

      reuse_snapshot-IsReused :
          (u : World) (s : SourceSnapshot)
          → stored_snapshot i id w c ≡ some s
          → IsObserved i id c w u
          → IsReused i id c w (reuse_snapshot i id job s u)
      unfolding reuse_snapshot
      reuse_snapshot-IsReused u s h o =
          let (chunking, chunking_jobs) =
            ensure_chunking_job i.next_chunking i.now s.id i.profile_key u.chunking_jobs in
          let (kept, has_kept) =
            renew_jobs-chunked i id s job.details.embedding_model_override chunking
              (record u { chunking_jobs = chunking_jobs }) chunking (ensured i id s u) in
          let (snapshots, repositories, storage, jobs) =
            renew_jobs-same i id s job.details.embedding_model_override chunking
              (record u { chunking_jobs = chunking_jobs }) in
          record {
            snapshot = s;
            stored_before = h;
            same_snapshots = snapshots ∙ o.same_snapshots;
            repositories = repositories ∙ o.repositories;
            storage = storage ∙ o.storage;
            chunking = kept;
            has_chunking = has_kept;
            recorded =
                subst
                  (λ l.
                    IsUpdated id (HasSnapshot i.now c.sha s.id) w.jobs
                      (succeed i.now id (set_snapshot i id s.id) l))
                  (sym jobs) (succeeds i id c s.id w.jobs u.jobs o.held);
          }

      with_existing-Ended :
          (found : Option SourceSnapshot)
          → stored_snapshot i id w c ≡ found
          → Ended i id w (
              with_existing i id job c.repository c.token c.remote c.sha
                (observe_commit i id c.repository c.remote c.sha w)
                found)
      unfolding with_existing
      with_existing-Ended none h =
          end_download-Ended _ _ h (observe_commit-IsObserved i id w c) refl
      with_existing-Ended (some s) h =
          reused job c read runs resolved
            (reuse_snapshot-IsReused _ s h (observe_commit-IsObserved i id w c))

    failed_early :
        (e : IngestionError)
        → Cause i id w job e none w.storage
        → Ended i id w (fail_ingestion i id e w)
    failed_early e cause =
        has_failed job e none w.storage read runs cause (fail_ingestion-IsRecorded i id w e)

    module _ (plain : GivesPlainCommits i) (repository : Repository)
        (found : find_repository job w ≡ some repository) where
      with_sha-Ended :
          (token : String) (remote : SourceRepository) (r : Result IngestionError String)
          → i.create_token ≡ ok token
          → i.get_repository token ≡ ok remote
          → remote.id ≡ repository.github_repository_id
          → i.resolve_sha token remote ≡ r
          → Ended i id w (with_sha i id job repository token remote w r)
      unfolding with_sha
      with_sha-Ended token remote (err e) given known same h =
          failed_early e (no_sha repository token remote e found given known same h)
      with_sha-Ended token remote (ok sha) given known same h =
          with_existing-Ended
            (record { repository = repository; token = token; remote = remote; sha = sha })
            (found, given, known, same, h) (plain token remote sha h) _ refl

      with_remote-Ended :
          (token : String) (r : Result IngestionError SourceRepository)
          → i.create_token ≡ ok token
          → i.get_repository token ≡ r
          → Ended i id w (with_remote i id job repository token w r)
      unfolding with_remote
      with_remote-Ended token (err e) given h =
          failed_early e (no_remote repository token e found given h)
      with_remote-Ended token (ok remote) given h =
          elim (Bool-cases (remote.id == repository.github_repository_id)) [
            | inl known ↦ rw known (
                with_sha-Ended token remote _ given h
                  ((==_iff remote.id repository.github_repository_id).0 known) refl)
            | inr changed ↦ rw changed (
                failed_early _ (
                  is_other repository token remote found given h (λ same.
                    cc ((==_iff remote.id repository.github_repository_id).1 same, changed))))
          ]

      with_token-Ended :
          (r : Result IngestionError String)
          → i.create_token ≡ r
          → Ended i id w (with_token i id job repository w r)
      unfolding with_token
      with_token-Ended (err e) h = failed_early e (no_token repository e found h)
      with_token-Ended (ok token) h = with_remote-Ended token _ h refl

    with_repository-Ended :
        (found : Option Repository)
        → GivesPlainCommits i
        → find_repository job w ≡ found
        → Ended i id w (with_repository i id job w found)
    unfolding with_repository
    with_repository-Ended none plain h = failed_early repository_missing (no_repository h)
    with_repository-Ended (some repository) plain h = with_token-Ended plain repository h _ refl

  ingest_job-Ended :
      (w : World) (job : Option (Job IngestionColumns))
      → GivesPlainCommits i
      → get_job id w.jobs ≡ job
      → Ended i id w (ingest_job i id w job)
  unfolding ingest_job
  ingest_job-Ended w none plain h = untouched (ap has_work h) refl
  ingest_job-Ended w (some job) plain h = elim (Bool-cases (is_running job.status)) [
    | inr other ↦ rw other (untouched (ap has_work h ∙ other) refl)
    | inl running ↦ rw running (with_repository-Ended w job h running _ plain refl)
  ]

  -- If every commit that GitHub resolves has a plain name: the processing leaves everything as it is if the job
  -- is not running. Otherwise it records in the job's row the error of the first step that fails, from the
  -- repository's row to the publication of the archive, and changes nothing else but the observed columns of
  -- the repository once the commit is resolved and the files that a failed publication leaves; or the job
  -- succeeds with a snapshot of the commit that GitHub resolved: the one that was stored, or a new row for the
  -- downloaded archive, published, which can be materialized; either has a chunking job. Every other ingestion job
  -- stays as it was, up to the snapshots that the retention forgets after a new row; then the repository has
  -- at most retention_count snapshots, unless a key of a snapshot leads out of the storage, and if it had no more
  -- before, none is deleted.
  pub ingest-Ended : (w : World) → GivesPlainCommits i → Ended i id w (ingest i id w)
  unfolding ingest
  ingest-Ended w plain = ingest_job-Ended w (get_job id w.jobs) plain refl
