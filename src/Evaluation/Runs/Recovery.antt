-- ===== src/Evaluation/Runs/Recovery.antt =====
-- The recovery of a previous result in app/evaluation/service.py.
use showcase_host.Evaluation.Runs.Details.{Detail, has_scores, item_at, set_item}
use showcase_host.Prelude.{
  ℕ, suc, zero, String, Bool, not, ◌||◌, Option, none, some, List, [], ◌∷◌, ltb, if◌then◌else◌,
  or_else, is_some, length, str_eq,
}
use showcase_host.Prelude.Results.{Result, ok, err, ◌>>=◌, fold_result}

-- The `ValueError`s of a recovery.
pub data RecoveryError : Type 0 where
  no_fingerprint predates_retrieval settings_changed sample_changed invalid_indices : RecoveryError

-- A saved result: `sample_fingerprint` and the retrieval settings, where they are known, and the examples.
pub record SavedResult (S C : Type 0) : Type 0 where
  pub sample_fingerprint : Option String
  pub retrieval : Option C
  pub examples : List (Option ℕ × Detail S)

unfoldable check_settings : {C : Type 0} → (C → Bool) → Option C → Result RecoveryError (Unit {0})
check_settings same_settings none = err predates_retrieval
check_settings same_settings (some c) = if same_settings c then ok tt else err settings_changed

-- `validate_recovery`; an empty fingerprint counts as none.
unfoldable pub validate_recovery :
    {S C : Type 0} → (C → Bool) → SavedResult S C → Result RecoveryError (Unit {0})
unfolding check_settings
validate_recovery same_settings r =
    if str_eq (or_else r.sample_fingerprint "") ""
    then err no_fingerprint
    else check_settings same_settings r.retrieval

-- The body of the loop over the saved examples; an index that is no integer is none.
unfoldable pub place_detail :
    {S : Type 0}
    → List (Option (Detail S))
    → Detail S
    → Option ℕ
    → Result RecoveryError (List (Option (Detail S)))
place_detail details detail none = err invalid_indices
place_detail details detail (some index) =
    if not (ltb index (length details)) || is_some (item_at index details)
    then err invalid_indices
    else ok (set_item index detail details)

unfoldable pub recover_detail :
    {S : Type 0}
    → List (Option (Detail S))
    → Option ℕ × Detail S
    → Result RecoveryError (List (Option (Detail S)))
recover_detail details (index, detail) =
    if has_scores detail then place_detail details detail index else ok details

abbrev pub empty_details : {S : Type 0} → ℕ → List (Option (Detail S))
empty_details zero = []
empty_details (suc n) = none ∷ empty_details n

-- The details that a run of `count` rows starts with.
unfoldable pub start_details :
    {S C : Type 0}
    → (C → Bool)
    → ℕ
    → String
    → Option (SavedResult S C)
    → Result RecoveryError (List (Option (Detail S)))
start_details same_settings count fingerprint none = ok (empty_details count)
start_details same_settings count fingerprint (some previous) =
    validate_recovery same_settings previous >>= λ _.
    if str_eq fingerprint (or_else previous.sample_fingerprint "")
    then fold_result recover_detail (empty_details count) previous.examples
    else err sample_changed
