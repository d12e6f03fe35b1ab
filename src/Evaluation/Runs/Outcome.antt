-- ===== src/Evaluation/Runs/Outcome.antt =====
-- What a run returns: `run` of app/evaluation/service.py as a whole, with the recovery of a saved result.
pub mod Recovered
pub mod Placed
use showcase_host.Evaluation.Runs.Outcome.Placed.{start_details-placed}
use showcase_host.Evaluation.Runs.Outcome.Recovered.{
  IsRecovered, SavedWell, start_details-ok, recovered-Inv,
}
use showcase_host.Prelude.{
  ℕ, zero, suc, ◌+◌, ◌<◌, ◌≤◌, Bool, true, false, not, Option, none, some, List, [], ◌∷◌, ◌≡◌, refl,
  sym, ap, subst, ◌∙◌, ◌⊎◌, inl, inr, All, In, length, ltb, is_some, Bool-cases, arith, String,
  ◌||◌, or_else, str_eq, All-imp,
}
use showcase_host.Prelude.Results.{Result, ok, ok_eq, >>=-ok, fold_result}
use showcase_host.Evaluation.Runs.{run, start_progress, first_pass, retry_pass}
use showcase_host.Evaluation.Runs.Recovery.{
  SavedResult, start_details, recover_detail, place_detail, empty_details, validate_recovery,
}
use showcase_host.Evaluation.Runs.Details.{
  failed, Detail, Progress, is_retrying, has_scores, item_at, count_some, succeeded,
}
use showcase_host.Evaluation.Runs.Errors.{Exc}
use showcase_host.Evaluation.Runs.Slots.{
  is_done, count_done, count_done-all, All-set, All-item, length-set, item_at-All,
}
use showcase_host.Evaluation.Runs.Invariant.{IsSlot, Inv, is_scored, has_attempts, has_none}
use showcase_host.Evaluation.Runs.Passes.{IsPass, first_pass-IsPass, retry_pass-IsPass}
use showcase_host.Evaluation.Runs.Settled.{
  occurrences, first_pass_starts, retry_pass_settles, rounds_left-le,
}

-- A scored example, or one with the error of the last of all its attempts.
abbrev IsOutcome : {S : Type 0} → ℕ → Option (Detail S) → Type 0
IsOutcome max_retries none = ⊥
IsOutcome max_retries (some d) =
    ((has_scores d ≡ true) × (d.status ≡ succeeded))
    ⊎ ((has_scores d ≡ false) × (d.status ≡ failed) × (d.attempts ≡ max_retries + 1))

-- Every row has an outcome, and `completed` counts them all.
pub record IsSettled {S : Type 0} (max_retries count : ℕ) (p : Progress S) : Type 0 where
  pub rows : length p.details ≡ count
  pub all_counted : p.completed ≡ count
  pub outcomes : All (IsOutcome max_retries) p.details

done-IsOutcome :
    {S : Type 0} (max_retries : ℕ) (o : Option (Detail S))
    → IsSlot max_retries o
    → is_done o ≡ true
    → IsOutcome max_retries o
done-IsOutcome max_retries none h done = absurd (cc done)
done-IsOutcome max_retries (some d) (is_scored scored s) done = inl (scored, s)
done-IsOutcome max_retries (some d) (has_attempts _ s _ _) done =
    absurd (cc (done, ap is_retrying s))
done-IsOutcome max_retries (some d) (has_none unscored s n) done = inr (unscored, s, n)

-- The two groups of tasks after a recovery.
module _ {S : Type 0} (max_retries : ℕ) (attempt_at : ℕ → ℕ → Result Exc S)
    (firsts retries : List ℕ) (details : List (Option (Detail S)))
    (recovered : All IsRecovered details) where
  abbrev after_first : Progress S
  after_first = first_pass max_retries attempt_at firsts (start_progress details)

  abbrev after_both : Progress S
  after_both = retry_pass max_retries attempt_at retries after_first

  first_group : IsPass max_retries attempt_at (start_progress details) after_first
  first_group =
      first_pass-IsPass max_retries attempt_at firsts (start_progress details)
        (recovered-Inv max_retries details recovered)

  second_group : IsPass max_retries attempt_at after_first after_both
  second_group = retry_pass-IsPass max_retries attempt_at retries after_first first_group.keeps

  scored_stays :
      (m : ℕ) (d : Detail S) → item_at m details ≡ some d → item_at m after_both.details ≡ some d
  scored_stays m d known =
      let scored = subst IsRecovered known (All-item IsRecovered m details tt recovered) in
      let done = ap is_done known ∙ ap (λ s. not (is_retrying s)) scored.1 in
      let first = first_group.frozen m done in
      second_group.frozen m (ap is_done first ∙ done) ∙ first ∙ known

  module _ (count : ℕ) (len : length details ≡ count)
      (all_first : (m : ℕ) → m < count → In m firsts)
      (all_retried : (m : ℕ) → m < count → max_retries ≤ occurrences m retries) where
    same_rows : length after_both.details ≡ count
    same_rows = second_group.same_length ∙ first_group.same_length ∙ len

    all_done :
        (m : ℕ) → m < length after_both.details → is_done (item_at m after_both.details) ≡ true
    all_done m range =
        let within = subst (λ n. m < n) same_rows range in
        let started =
          first_pass_starts max_retries attempt_at firsts (start_progress details) m
            (recovered-Inv max_retries details recovered) (subst (λ n. m < n) (sym len) within)
            (inl (all_first m within)) in
        let slot = All-item (IsSlot max_retries) m after_first.details tt first_group.keeps.slots in
        retry_pass_settles max_retries attempt_at retries after_first m first_group.keeps started
          (omega (arith, all_retried m within, rounds_left-le max_retries attempt_at _ slot))

    both-IsSettled : IsSettled max_retries count after_both
    both-IsSettled = record {
      rows = same_rows;
      all_counted =
          second_group.keeps.counted
          ∙ count_done-all after_both.details
              (item_at-All (λ o. is_done o ≡ true) after_both.details all_done)
          ∙ same_rows;
      outcomes = item_at-All (IsOutcome max_retries) after_both.details (λ m range.
          done-IsOutcome max_retries _
            (All-item (IsSlot max_retries) m after_both.details tt second_group.keeps.slots)
            (all_done m range));
    }

module _ {S C : Type 0} (max_retries : ℕ) (attempt_at : ℕ → ℕ → Result Exc S)
    (same_settings : C → Bool) (count : ℕ) (fingerprint : String)
    (previous : Option (SavedResult S C)) (firsts retries : List ℕ) (saved : SavedWell previous)
    (p : Progress S)
    (returns : run max_retries attempt_at same_settings count fingerprint previous firsts retries
      ≡ ok p) where
  passes :
      (details : List (Option (Detail S))) × (start_details same_settings count fingerprint previous
        ≡ ok details)
      × (retry_pass max_retries attempt_at retries
            (first_pass max_retries attempt_at firsts (start_progress details))
          ≡ p)
  unfolding run
  passes =
      let (details, started, ended) =
        >>=-ok (start_details same_settings count fingerprint previous) _ returns in
      (details, started, ok_eq ended)

  started_keeps :
      (details : List (Option (Detail S)))
      → start_details same_settings count fingerprint previous ≡ ok details
      → (m : ℕ) (d : Detail S) → item_at m details ≡ some d
      → item_at m p.details ≡ some d
  started_keeps details h m d known =
      let (others, started, ended) = passes in
      let same = ok_eq (sym started ∙ h) in
      let (recovered, _) =
        start_details-ok same_settings count fingerprint previous details saved h in
      let ends = λ (ds : List (Option (Detail S))).
        retry_pass max_retries attempt_at retries
          (first_pass max_retries attempt_at firsts (start_progress ds)) in
      subst (λ (x : Progress S). item_at m x.details ≡ some d) (ap ends (sym same) ∙ ended)
        (scored_stays max_retries attempt_at firsts retries details recovered m d known)

  -- If a run with a well-formed previous result returns, and every row has its first task and max_retries
  -- rounds, then every row has scores or has failed after max_retries + 1 attempts, and all are counted.
  pub run-IsSettled :
      ((m : ℕ) → m < count → In m firsts)
      → ((m : ℕ) → m < count → max_retries ≤ occurrences m retries)
      → IsSettled max_retries count p
  run-IsSettled all_first all_retried =
      let (details, started, ended) = passes in
      let (recovered, len) =
        start_details-ok same_settings count fingerprint previous details saved started in
      subst (IsSettled max_retries count) ended (
        both-IsSettled max_retries attempt_at firsts retries details recovered count len all_first
          all_retried)

-- If a run with a saved result returns, in which every example with scores has succeeded, then every one of
-- these examples is in what the run returns, at its index and as it was saved.
pub run_keeps_scored :
    {S C : Type 0} (max_retries : ℕ) (attempt_at : ℕ → ℕ → Result Exc S) (same_settings : C → Bool)
    (count : ℕ) (fingerprint : String) (saved : SavedResult S C) (firsts retries : List ℕ)
    (p : Progress S)
    → SavedWell (some saved)
    → run max_retries attempt_at same_settings count fingerprint (some saved) firsts retries ≡ ok p
    → (m : ℕ) (d : Detail S) → In (some m, d) saved.examples
    → has_scores d ≡ true
    → item_at m p.details ≡ some d
run_keeps_scored max_retries attempt_at same_settings count fingerprint saved firsts retries p well
      returns m d among scored =
    let (details, started, _) =
      passes max_retries attempt_at same_settings count fingerprint (some saved) firsts retries well
        p returns in
    started_keeps max_retries attempt_at same_settings count fingerprint (some saved) firsts retries
      well p returns details started m d
      (start_details-placed same_settings count fingerprint saved details m d started among scored)
