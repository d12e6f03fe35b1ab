-- ===== src/Evaluation/Runs/Outcome/Recovered.antt =====
-- What a run recovers of a saved result.
use showcase_host.Prelude.{
  ℕ, zero, suc, Bool, true, not, Option, none, some, List, [], ◌∷◌, ◌≡◌, refl, sym, subst, ◌∙◌, inl,
  inr, All, length, ltb, is_some, Bool-cases, arith, String, ◌||◌, or_else, str_eq, All-imp,
}
use showcase_host.Prelude.Results.{ok, ok_eq, >>=-ok, fold_result}
use showcase_host.Evaluation.Runs.{start_progress}
use showcase_host.Evaluation.Runs.Recovery.{
  SavedResult, start_details, recover_detail, place_detail, empty_details, validate_recovery,
}
use showcase_host.Evaluation.Runs.Details.{Detail, has_scores, item_at, count_some, succeeded}
use showcase_host.Evaluation.Runs.Slots.{count_done, All-set, length-set}
use showcase_host.Evaluation.Runs.Invariant.{IsSlot, Inv, is_scored}

module _ {S : Type 0} where
  -- A saved example that has scores has succeeded.
  abbrev IsSaved : Option ℕ × Detail S → Type 0
  IsSaved (index, d) = has_scores d ≡ true → d.status ≡ succeeded

  abbrev pub IsRecovered : Option (Detail S) → Type 0
  IsRecovered none = Unit {0}
  IsRecovered (some d) = (has_scores d ≡ true) × (d.status ≡ succeeded)

  place_detail-ok :
      (details after : List (Option (Detail S))) (d : Detail S) (index : Option ℕ)
      → place_detail details d index ≡ ok after
      → (has_scores d ≡ true) × (d.status ≡ succeeded)
      → All IsRecovered details
      → All IsRecovered after × (length after ≡ length details)
  unfolding place_detail
  place_detail-ok details after d none = λ h. absurd (cc h)
  place_detail-ok details after d (some index) =
      elim (Bool-cases (not (ltb index (length details)) || is_some (item_at index details))) [
        | inl bad ↦ rw bad (λ h. absurd (cc h))
        | inr good ↦ rw good (λ h w k.
            subst (λ x. All IsRecovered x × (length x ≡ length details)) (ok_eq h)
              (All-set IsRecovered index d details w k, length-set index d details))
      ]

  recover_detail-ok :
      (details after : List (Option (Detail S))) (saved : Option ℕ × Detail S)
      → recover_detail details saved ≡ ok after
      → IsSaved saved
      → All IsRecovered details
      → All IsRecovered after × (length after ≡ length details)
  unfolding recover_detail
  recover_detail-ok details after (index, d) = elim (Bool-cases (has_scores d)) [
    | inl scored ↦ rw scored (λ h w. place_detail-ok details after d index h (scored, w refl))
    | inr unscored ↦
        rw unscored (λ h w k.
          subst (λ x. All IsRecovered x × (length x ≡ length details)) (ok_eq h) (k, refl))
  ]

  recover-ok :
      (saved : List (Option ℕ × Detail S)) (details after : List (Option (Detail S)))
      → fold_result recover_detail details saved ≡ ok after
      → All IsSaved saved
      → All IsRecovered details
      → All IsRecovered after × (length after ≡ length details)
  recover-ok [] details after h w k =
      subst (λ x. All IsRecovered x × (length x ≡ length details)) (ok_eq h) (k, refl)
  recover-ok (first ∷ saved) details after h w k =
      let (next, placed, rest) = >>=-ok (recover_detail details first) _ h in
      let (good, same) = recover_detail-ok details next first placed w.0 k in
      let (all_good, all_same) = recover-ok saved next after rest w.1 good in
      (all_good, all_same ∙ same)

  empty-IsRecovered :
      (n : ℕ) (details : List (Option (Detail S)))
      → details ≡ empty_details n
      → All IsRecovered details × (length details ≡ n)
  empty-IsRecovered n details e =
      subst (λ x. All IsRecovered x × (length x ≡ n)) (sym e) (all_empty n)
    where
      all_empty :
          (n : ℕ)
          → All IsRecovered (empty_details {S = S} n) × (length (empty_details {S = S} n) ≡ n)
      all_empty zero = (tt, omega arith)
      all_empty (suc n) = let (all, len) = all_empty n in ((tt, all), omega (arith, len))

  abbrev pub SavedWell : {C : Type 0} → Option (SavedResult S C) → Type 0
  SavedWell none = Unit {0}
  SavedWell (some previous) = All IsSaved previous.examples

  pub start_details-ok :
      {C : Type 0} (same_settings : C → Bool) (count : ℕ) (fingerprint : String)
      (previous : Option (SavedResult S C)) (details : List (Option (Detail S)))
      → SavedWell previous
      → start_details same_settings count fingerprint previous ≡ ok details
      → All IsRecovered details × (length details ≡ count)
  unfolding start_details
  start_details-ok same_settings count fingerprint none details w h =
      subst (λ x. All IsRecovered x × (length x ≡ count)) (ok_eq h) (empty-IsRecovered count _ refl)
  start_details-ok same_settings count fingerprint (some previous) details w h =
      let (_, _, rest) = >>=-ok (validate_recovery same_settings previous) _ h in
      let (none_yet, len) = empty-IsRecovered count (empty_details count) refl in
      elim (Bool-cases (str_eq fingerprint (or_else previous.sample_fingerprint ""))) [
        | inl same ↦
            let (all, kept) =
              recover-ok previous.examples (empty_details count) details (rw same at rest) w
                none_yet in
            (all, kept ∙ len)
        | inr changed ↦ absurd (cc (rw changed at rest))
      ]

  IsSlot-item : (max_retries : ℕ) (o : Option (Detail S)) → IsRecovered o → IsSlot max_retries o
  IsSlot-item max_retries none h = tt
  IsSlot-item max_retries (some d) h = is_scored h.0 h.1

  recovered_done :
      (details : List (Option (Detail S)))
      → All IsRecovered details
      → count_some details ≡ count_done details
  recovered_done [] h = refl
  recovered_done (none ∷ details) h = recovered_done details h.1
  recovered_done (some d ∷ details) h = rw h.0.1 (omega (arith, recovered_done details h.1))

  pub recovered-Inv :
      (max_retries : ℕ) (details : List (Option (Detail S)))
      → All IsRecovered details
      → Inv max_retries (start_progress details)
  recovered-Inv max_retries details h = record {
    slots = All-imp IsRecovered (IsSlot max_retries) (IsSlot-item max_retries) details h;
    counted = recovered_done details h;
  }
