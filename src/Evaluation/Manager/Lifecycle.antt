-- ===== src/Evaluation/Manager/Lifecycle.antt =====
-- The states of a run: what holds after any steps of the loop, and that a cancelled run ends.
use showcase_host.Prelude.{
  ℕ, Bool, true, false, not, Option, none, List, [], ◌∷◌, ◌≡◌, refl, ap, ◌∙◌, inl, inr, is_some,
  ◌==◌, Bool-cases, String,
}
use showcase_host.Evaluation.Manager.States.{
  RunStatus, queued, running, succeeded, completed_with_errors, failed, cancelled, TaskState,
  not_started, executing, ended, RunRecord, Run, Ending, returned, was_cancelled, raised, is_active,
  new_run, begin_run, report, end_run, settle_cancelled, RunEvent, begin, progress, finish, drop,
  settle, step, run_events,
}

abbrev pub is_failed : RunStatus → Bool
is_failed failed = true
is_failed queued = false
is_failed running = false
is_failed succeeded = false
is_failed completed_with_errors = false
is_failed cancelled = false

module _ {Q P : Type 0} where
  -- A final run has a time at which it finished, and an error just if it failed; an active one has neither.
  pub record IsTimed (r : RunRecord Q P) : Type 0 where
    pub finished : is_some r.finished_at ≡ not (is_active r.status)
    pub errors : is_some r.error ≡ is_failed r.status

  -- A task that executes is that of a running run that has started; one that has not begun is that of a queued run.
  abbrev IsInPhase : TaskState → RunRecord Q P → Type 0
  IsInPhase not_started r = (r.status ≡ queued) × (r.started_at ≡ none)
  IsInPhase executing r = (r.status ≡ running) × (is_some r.started_at ≡ true)
  IsInPhase ended r = Unit {0}

  record Inv (r : Run Q P) : Type 0 where
    timed : IsTimed r.row
    phase : IsInPhase r.task r.row

  new_run-Inv :
      (id : String) (now : ℕ) (request : Q) (retry_of : Option String) (previous : Option P)
      → Inv (new_run id now request retry_of previous)
  unfolding new_run
  new_run-Inv id now request retry_of previous = record {
    timed = record { finished = refl; errors = refl };
    phase = (refl, refl);
  }

  end_run-IsTimed :
      (now : ℕ) (ending : Ending P) (r : RunRecord Q P)
      → r.status ≡ running
      → IsTimed r
      → IsTimed (end_run now ending r)
  unfolding end_run
  end_run-IsTimed now was_cancelled r s h = record { finished = refl; errors = refl }
  end_run-IsTimed now (raised message) r s h = record { finished = refl; errors = refl }
  end_run-IsTimed now (returned result failed_examples) r s h =
      elim (Bool-cases (failed_examples == 0)) [
        | inl none_failed ↦
            rw none_failed (record { finished = refl; errors = h.errors ∙ ap is_failed s })
        | inr some_failed ↦
            rw some_failed (record { finished = refl; errors = h.errors ∙ ap is_failed s })
      ]

  settle-IsTimed : (now : ℕ) (r : RunRecord Q P) → IsTimed r → IsTimed (settle_cancelled now r)
  unfolding settle_cancelled
  settle-IsTimed now r h = elim (Bool-cases (is_active r.status)) [
    | inl active ↦ rw active (record { finished = refl; errors = refl })
    | inr final ↦ rw final h
  ]

  step-Inv :
      (event : RunEvent P) (task : TaskState) (r : RunRecord Q P)
      → IsTimed r
      → IsInPhase task r
      → Inv (step event task r)
  unfolding step begin_run report
  step-Inv (begin now) not_started r t h = record {
    timed = record {
      finished = t.finished ∙ ap (λ s. not (is_active s)) h.0;
      errors = t.errors ∙ ap is_failed h.0;
    };
    phase = (refl, refl);
  }
  step-Inv (begin now) executing r t h = record { timed = t; phase = h }
  step-Inv (begin now) ended r t h = record { timed = t; phase = tt }
  step-Inv (progress completed total partial) not_started r t h = record { timed = t; phase = h }
  step-Inv (progress completed total partial) executing r t h = record {
    timed = record { finished = t.finished; errors = t.errors };
    phase = h;
  }
  step-Inv (progress completed total partial) ended r t h = record { timed = t; phase = tt }
  step-Inv (finish now ending) not_started r t h = record { timed = t; phase = h }
  step-Inv (finish now ending) executing r t h = record {
    timed = end_run-IsTimed now ending r h.0 t;
    phase = tt;
  }
  step-Inv (finish now ending) ended r t h = record { timed = t; phase = tt }
  step-Inv drop not_started r t h = record { timed = t; phase = tt }
  step-Inv drop executing r t h = record { timed = t; phase = tt }
  step-Inv drop ended r t h = record { timed = t; phase = tt }
  step-Inv (settle now) not_started r t h = record { timed = t; phase = h }
  step-Inv (settle now) executing r t h = record { timed = t; phase = h }
  step-Inv (settle now) ended r t h = record { timed = settle-IsTimed now r t; phase = tt }

  final_step :
      (event : RunEvent P) (task : TaskState) (r : RunRecord Q P)
      → IsInPhase task r
      → is_active r.status ≡ false
      → (step event task r).row ≡ r
  unfolding step settle_cancelled
  final_step event not_started r h final = absurd (cc (final, ap is_active h.0))
  final_step event executing r h final = absurd (cc (final, ap is_active h.0))
  final_step (begin now) ended r h final = refl
  final_step (progress completed total partial) ended r h final = refl
  final_step (finish now ending) ended r h final = refl
  final_step drop ended r h final = refl
  final_step (settle now) ended r h final = rw final refl

  -- The steps keep the phases of a run and its times.
  run_events-Inv : (events : List (RunEvent P)) (r : Run Q P) → Inv r → Inv (run_events events r)
  unfolding run_events
  run_events-Inv [] r h = h
  run_events-Inv (event ∷ events) r h =
      run_events-Inv events (step event r.task r.row) (step-Inv event r.task r.row h.timed h.phase)

  final_row_stays :
      (events : List (RunEvent P)) (r : Run Q P)
      → Inv r
      → is_active r.row.status ≡ false
      → (run_events events r).row ≡ r.row
  unfolding run_events
  final_row_stays [] r h final = refl
  final_row_stays (event ∷ events) r h final =
      let same = final_step event r.task r.row h.phase final in
      final_row_stays events (step event r.task r.row) (step-Inv event r.task r.row h.timed h.phase)
        (ap (λ (x : RunRecord Q P). is_active x.status) same ∙ final)
      ∙ same

  -- If a run has a final status after some steps from its start, it has a time at which it finished, and an
  -- error just if it failed, and no further steps change its record.
  pub final_stays :
      (id : String) (now : ℕ) (request : Q) (retry_of : Option String) (previous : Option P)
      (earlier later : List (RunEvent P))
      → is_active (run_events earlier (new_run id now request retry_of previous)).row.status ≡ false
      → IsTimed (run_events earlier (new_run id now request retry_of previous)).row
        × ((run_events later (run_events earlier (new_run id now request retry_of previous))).row
            ≡ (run_events earlier (new_run id now request retry_of previous)).row)
  final_stays id now request retry_of previous earlier later final =
      let r = run_events earlier (new_run id now request retry_of previous) in
      let h = run_events-Inv earlier _ (new_run-Inv id now request retry_of previous) in
      (h.timed, final_row_stays later r h final)

  pub settle_cancelled-final :
      (now : ℕ) (r : RunRecord Q P) → is_active (settle_cancelled now r).status ≡ false
  unfolding settle_cancelled
  settle_cancelled-final now r = elim (Bool-cases (is_active r.status)) [
    | inl active ↦ rw active refl
    | inr final ↦ rw (final, final) refl
  ]
