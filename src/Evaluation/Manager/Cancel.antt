-- ===== src/Evaluation/Manager/Cancel.antt =====
-- What `cancel` returns, and what it leaves in memory and in the files.
use showcase_host.Prelude.{
  ℕ, true, false, Option, none, some, List, [], ◌∷◌, ◌≡◌, refl, sym, ap, subst, ◌⊎◌, inl, inr,
  Bool-cases, String, some_eq,
}
use showcase_host.Prelude.Results.{ok, ok_eq, >>=-ok}
use showcase_host.Retrieval.{lookup}
use showcase_host.Retrieval.Table.{put-lookup}
use showcase_host.Evaluation.Manager.{
  Manager, store_run, persists, store_step, store_steps, settle_run, get, cancel, cancel_run,
  cancel_found,
}
use showcase_host.Evaluation.Manager.Reading.{Example}
use showcase_host.Evaluation.Manager.States.{
  TaskState, not_started, executing, ended, RunRecord, Run, is_active, settle_cancelled, RunEvent,
  begin, progress, finish, drop, settle, step, run_events,
}

module _ {Q P : Type 0} where
  -- The run is final, in memory and in its file.
  pub record IsSettled (r : Run Q P) (m : Manager Q P) : Type 0 where
    pub final : is_active r.row.status ≡ false
    pub in_memory : lookup r.row.id m.runs ≡ some r
    pub in_file : lookup r.row.id m.files ≡ some r.row

  -- A step without `_persist` does not change the record.
  unpersisted_step :
      (event : RunEvent P) (task : TaskState) (row : RunRecord Q P)
      → persists event task row ≡ false
      → (step event task row).row ≡ row
  unfolding step settle_cancelled
  unpersisted_step (begin now) not_started row e = absurd (cc e)
  unpersisted_step (begin now) executing row e = refl
  unpersisted_step (begin now) ended row e = refl
  unpersisted_step (progress completed total partial) not_started row e = refl
  unpersisted_step (progress completed total partial) executing row e = absurd (cc e)
  unpersisted_step (progress completed total partial) ended row e = refl
  unpersisted_step (finish now ending) not_started row e = refl
  unpersisted_step (finish now ending) executing row e = absurd (cc e)
  unpersisted_step (finish now ending) ended row e = refl
  unpersisted_step drop not_started row e = refl
  unpersisted_step drop executing row e = refl
  unpersisted_step drop ended row e = refl
  unpersisted_step (settle now) not_started row e = refl
  unpersisted_step (settle now) executing row e = refl
  unpersisted_step (settle now) ended row e = rw e refl

  abbrev IsKept : Run Q P × Manager Q P → Type 0
  IsKept (r, m) = (is_active r.row.status ≡ true) ⊎ IsSettled r m

  store_step-IsKept :
      (event : RunEvent P) (r : Run Q P) (m : Manager Q P)
      → IsKept (r, m)
      → IsKept (store_step event r m)
  unfolding store_step store_run
  store_step-IsKept event r m h =
      let next = step event r.task r.row in
      elim (Bool-cases (is_active next.row.status)) [
        | inl active ↦ inl active
        | inr final ↦ elim (Bool-cases (persists event r.task r.row)) [
          | inl stored ↦ rw stored (
              inr (record {
                final = final;
                in_memory = put-lookup _ _ m.runs;
                in_file = put-lookup _ _ m.files;
              }))
          | inr unchanged ↦
              let same = unpersisted_step event r.task r.row unchanged in
              rw unchanged (elim h [
                | inl active ↦
                    absurd (cc (final, active, ap (λ (x : RunRecord Q P). is_active x.status) same))
                | inr settled ↦ inr (record {
                  final = final;
                  in_memory = put-lookup _ _ m.runs;
                  in_file =
                      subst (λ (x : RunRecord Q P). lookup x.id m.files ≡ some x) (sym same)
                        settled.in_file;
                })
              ])
        ]
      ]

  store_steps-IsKept :
      (events : List (RunEvent P)) (r : Run Q P) (m : Manager Q P)
      → IsKept (r, m)
      → IsKept (store_steps events (r, m)) × ((store_steps events (r, m)).0 ≡ run_events events r)
  unfolding store_steps store_step run_events
  store_steps-IsKept [] r m h = (h, refl)
  store_steps-IsKept (event ∷ events) r m h =
      store_steps-IsKept events (store_step event r m).0 (store_step event r m).1
        (store_step-IsKept event r m h)

  settle_run-IsSettled :
      (now : ℕ) (x : Run Q P × Manager Q P)
      → IsKept x
      → IsSettled (settle_run now x).0 (settle_run now x).1
  unfolding settle_run store_run settle_cancelled
  settle_run-IsSettled now (r, m) h = elim (Bool-cases (is_active r.row.status)) [
    | inl active ↦ rw active (record {
      final = refl;
      in_memory = put-lookup _ _ m.runs;
      in_file = put-lookup _ _ m.files;
    })
    | inr final ↦
        rw final (elim h [ inl active ↦ absurd (cc (final, active)) | inr settled ↦ settled ])
  ]

  -- A run that was active and is settled: its record is that after the steps, or is cancelled.
  pub record IsCancelled (now : ℕ) (events : List (RunEvent P)) (old r : Run Q P) (m : Manager Q P)
      : Type 0 where
    pub was_active : is_active old.row.status ≡ true
    pub after_events : r.row ≡ settle_cancelled now (run_events events old).row
    pub settled : IsSettled r m

  cancel_run-IsCancelled :
      (now : ℕ) (events : List (RunEvent P)) (m : Manager Q P) (old : Run Q P)
      (result : Run Q P × Manager Q P)
      → cancel_run now events m old ≡ ok result
      → IsCancelled now events old result.0 result.1
  unfolding cancel_run settle_run
  cancel_run-IsCancelled now events m old result = elim (Bool-cases (is_active old.row.status)) [
    | inr final ↦ rw final (λ h. absurd (cc h))
    | inl active ↦ rw active (λ h.
        let kept = store_steps-IsKept events old m (inl active) in
        subst (λ (x : Run Q P × Manager Q P). IsCancelled now events old x.0 x.1) (ok_eq h)
          (record {
            was_active = active;
            after_events = ap (λ (x : Run Q P). settle_cancelled now x.row) kept.1;
            settled = settle_run-IsSettled now (store_steps events (old, m)) kept.0;
          }))
  ]

  cancel_found-IsCancelled :
      (now : ℕ) (events : List (RunEvent P)) (found : Option (Run Q P)) (m after : Manager Q P)
      (r : Run Q P)
      → cancel_found now events (found, m) ≡ ok (some r, after)
      → (old : Run Q P) × (found ≡ some old) × IsCancelled now events old r after
  cancel_found-IsCancelled now events none m after r h = absurd (cc (ap (λ x. x.0) (ok_eq h)))
  cancel_found-IsCancelled now events (some old) m after r h =
      let (done, finished, same) = >>=-ok (cancel_run now events m old) _ h in
      let pair = ok_eq same in
      (
        old,
        refl,
        subst (λ x. IsCancelled now events old x after) (some_eq _ _ (ap (λ x. x.0) pair))
            (subst (λ x. IsCancelled now events old done.0 x) (ap (λ x. x.1) pair)
              (cancel_run-IsCancelled now events m old done finished)),
      )

  -- If `cancel` returns a run, then that which it found was active. Its record is the one to which the steps
  -- of the loop until the task's end led if that is final, and the cancelled one otherwise; it is final, and
  -- it is the one in memory and in the file.
  pub cancel-IsCancelled :
      (map_examples : (Example → Example) → P → P) (id : String) (now : ℕ)
      (events : List (RunEvent P)) (m after : Manager Q P) (r : Run Q P)
      → cancel map_examples id now events m ≡ ok (some r, after)
      → (old : Run Q P) × ((get map_examples id m).0 ≡ some old)
        × IsCancelled now events old r after
  unfolding cancel
  cancel-IsCancelled map_examples id now events m after r =
      cancel_found-IsCancelled now events (get map_examples id m).0 (get map_examples id m).1 after
        r
