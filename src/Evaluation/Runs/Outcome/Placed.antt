-- ===== src/Evaluation/Runs/Outcome/Placed.antt =====
-- Every scored example of a saved result has its place in what a run starts with: the recovery of
-- app/evaluation/service.py.
use showcase_host.Prelude.{
  ℕ, Bool, true, not, Option, none, some, List, [], ◌∷◌, ◌≡◌, sym, subst, ◌∙◌, inl, inr, length,
  ltb, is_some, Bool-cases, arith, String, ◌||◌, or_else, str_eq, In, ap, false,
}
use showcase_host.Prelude.Results.{ok, ok_eq, >>=-ok, fold_result}
use showcase_host.Evaluation.Runs.Recovery.{
  SavedResult, start_details, recover_detail, place_detail, empty_details, validate_recovery,
}
use showcase_host.Evaluation.Runs.Details.{Detail, has_scores, item_at}
use showcase_host.Evaluation.Runs.Slots.{item_at-set_other, item_at-set}

is_free : (a b : Bool) → (not a || b) ≡ false → b ≡ false
is_free a b h = ground (arith, h)

module _ {S : Type 0} where
  -- A place that is taken is refused, so what is placed stays.
  place_detail-keeps :
      (details after : List (Option (Detail S))) (d : Detail S) (index : Option ℕ) (m : ℕ)
      (e : Detail S)
      → place_detail details d index ≡ ok after
      → item_at m details ≡ some e
      → item_at m after ≡ some e
  unfolding place_detail
  place_detail-keeps details after d none m e = λ h. absurd (cc h)
  place_detail-keeps details after d (some index) m e =
      elim (Bool-cases (not (ltb index (length details)) || is_some (item_at index details))) [
        | inl bad ↦ rw bad (λ h. absurd (cc h))
        | inr good ↦ rw good (λ h known.
            subst (λ x. item_at m x ≡ some e) (ok_eq h)
              (item_at-set_other m index d details (λ same. cc (
                ap (λ i. is_some (item_at i details)) same,
                ap is_some known,
                is_free (ltb index (length details)) (is_some (item_at index details)) good,
              ))
                ∙ known))
      ]

  -- The place of the detail holds it.
  place_detail-placed :
      (details after : List (Option (Detail S))) (d : Detail S) (m : ℕ)
      → place_detail details d (some m) ≡ ok after
      → item_at m after ≡ some d
  unfolding place_detail
  place_detail-placed details after d m =
      elim (Bool-cases (not (ltb m (length details)) || is_some (item_at m details))) [
        | inl bad ↦ rw bad (λ h. absurd (cc h))
        | inr good ↦ rw good (λ h.
            subst (λ x. item_at m x ≡ some d) (ok_eq h)
              (item_at-set m d details (ground (arith, good))))
      ]

  recover_detail-keeps :
      (details after : List (Option (Detail S))) (saved : Option ℕ × Detail S) (m : ℕ)
      (e : Detail S)
      → recover_detail details saved ≡ ok after
      → item_at m details ≡ some e
      → item_at m after ≡ some e
  unfolding recover_detail
  recover_detail-keeps details after (index, d) m e = elim (Bool-cases (has_scores d)) [
    | inl scored ↦ rw scored (place_detail-keeps details after d index m e)
    | inr unscored ↦ rw unscored (λ h known. subst (λ x. item_at m x ≡ some e) (ok_eq h) known)
  ]

  recover_detail-placed :
      (details after : List (Option (Detail S))) (m : ℕ) (d : Detail S)
      → has_scores d ≡ true
      → recover_detail details (some m, d) ≡ ok after
      → item_at m after ≡ some d
  unfolding recover_detail
  recover_detail-placed details after m d scored = rw scored (place_detail-placed details after d m)

  recover-keeps :
      (saved : List (Option ℕ × Detail S)) (details after : List (Option (Detail S))) (m : ℕ)
      (e : Detail S)
      → fold_result recover_detail details saved ≡ ok after
      → item_at m details ≡ some e
      → item_at m after ≡ some e
  recover-keeps [] details after m e h known = subst (λ x. item_at m x ≡ some e) (ok_eq h) known
  recover-keeps (first ∷ saved) details after m e h known =
      let (next, placed, rest) = >>=-ok (recover_detail details first) _ h in
      recover-keeps saved next after m e rest
        (recover_detail-keeps details next first m e placed known)

  recover-placed :
      (saved : List (Option ℕ × Detail S)) (details after : List (Option (Detail S))) (m : ℕ)
      (d : Detail S)
      → fold_result recover_detail details saved ≡ ok after
      → In (some m, d) saved
      → has_scores d ≡ true
      → item_at m after ≡ some d
  recover-placed [] details after m d h among scored = absurd among
  recover-placed (first ∷ saved) details after m d h (inl here) scored =
      let (next, placed, rest) = >>=-ok (recover_detail details first) _ h in
      recover-keeps saved next after m d rest (
        recover_detail-placed details next m d scored
          (subst (λ x. recover_detail details x ≡ ok next) (sym here) placed))
  recover-placed (first ∷ saved) details after m d h (inr later) scored =
      let (next, placed, rest) = >>=-ok (recover_detail details first) _ h in
      recover-placed saved next after m d rest later scored

  -- A run starts with every scored example of the saved result.
  pub start_details-placed :
      {C : Type 0} (same_settings : C → Bool) (count : ℕ) (fingerprint : String)
      (previous : SavedResult S C) (details : List (Option (Detail S))) (m : ℕ) (d : Detail S)
      → start_details same_settings count fingerprint (some previous) ≡ ok details
      → In (some m, d) previous.examples
      → has_scores d ≡ true
      → item_at m details ≡ some d
  unfolding start_details
  start_details-placed same_settings count fingerprint previous details m d h among scored =
      let (_, _, rest) = >>=-ok (validate_recovery same_settings previous) _ h in
      elim (Bool-cases (str_eq fingerprint (or_else previous.sample_fingerprint ""))) [
        | inl same ↦
            recover-placed previous.examples (empty_details count) details m d (rw same at rest)
              among scored
        | inr changed ↦ absurd (cc (rw changed at rest))
      ]
