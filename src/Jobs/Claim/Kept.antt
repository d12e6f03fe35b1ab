-- ===== src/Jobs/Claim/Kept.antt =====
-- What a claim keeps of the other jobs, and when it returns one.
use showcase_host.Jobs.Claim.{
  get_job-swept, begin_attempt-KeepsId, swept, requeue_expired-KeepsId, claim_next-best,
  none_available, claim_next-nobody, best, IsAvailable,
}
use showcase_host.Prelude.{
  All-map, All, ℕ, ◌≡◌, sym, ◌∙◌, ap, subst, ◌≢◌, inl, inr, Bool, true, Option, none, some, List,
  map, Option-cases, In-filter, All-map_to, some_eq,
}
use showcase_host.Jobs.{Job, get_job, requeue_expired, is_claimable, begin_attempt, claim_next}
use showcase_host.Jobs.Table.{
  update-HasKeys, HasKeys, All-update_found, All-update, map-HasKeys, oldest-In,
}

-- A property of rows that the sweep and the start of an attempt keep is kept by `claim_next`.
pub claim_next-All {κ} :
    {X : Type 0} (now lease : ℕ) (locked : ℕ → Bool) (P : Job X → Type κ)
    → ((j : Job X) → P j → P (requeue_expired now j))
    → ((j : Job X) → P j → P (begin_attempt now lease j))
    → (jobs : List (Job X)) → All P jobs
    → All P (claim_next now lease locked jobs).1
claim_next-All now lease locked P sweep begin jobs h =
    elim (Option-cases (best now lease locked jobs)) [
      | inl nobody ↦ rw (claim_next-nobody now lease locked jobs nobody) (All-map P _ sweep jobs h)
      | inr (s, chosen) ↦
          rw (claim_next-best now lease locked jobs s chosen)
            (All-update P s.id _ begin _ (All-map P _ sweep jobs h))
    ]

pub claim_next-HasKeys :
    {X : Type 0} (now lease : ℕ) (locked : ℕ → Bool) (jobs : List (Job X))
    → HasKeys jobs
    → HasKeys (claim_next now lease locked jobs).1
claim_next-HasKeys now lease locked jobs d = elim (Option-cases (best now lease locked jobs)) [
  | inl nobody ↦
      rw (claim_next-nobody now lease locked jobs nobody)
        (map-HasKeys _ jobs (requeue_expired-KeepsId now) d)
  | inr (s, chosen) ↦ rw (claim_next-best now lease locked jobs s chosen) (
      update-HasKeys s.id _ _ (begin_attempt-KeepsId now lease)
        (map-HasKeys _ jobs (requeue_expired-KeepsId now) d))
]

-- A row that may be taken is enough for a claim to return one.
pub claim_next-ne-none :
    {X : Type 0} (now lease : ℕ) (locked : ℕ → Bool) (jobs : List (Job X)) (j : Job X)
    → HasKeys jobs
    → get_job j.id jobs ≡ some j
    → IsAvailable now locked j
    → (claim_next now lease locked jobs).0 ≢ none
claim_next-ne-none now lease locked jobs j d found free e =
    elim (Option-cases (best now lease locked jobs)) [
      | inl nobody ↦ none_available now lease locked jobs j nobody found free
      | inr (s, chosen) ↦ cc (
          ap (λ (t : Option ℕ × List (Job _)). t.0)
            (claim_next-best now lease locked jobs s chosen))
    ]

-- The same where the start of an attempt keeps it only for a row that may be taken.
pub claim_next-All_claimable {κ μ} :
    {X : Type 0} (now lease : ℕ) (locked : ℕ → Bool) (P : Job X → Type κ) (Q : Job X → Type μ)
    → ((j : Job X) → P j → Q (requeue_expired now j))
    → ((j : Job X) → Q j → is_claimable now locked j ≡ true → Q (begin_attempt now lease j))
    → (jobs : List (Job X)) → HasKeys jobs
    → All P jobs
    → All Q (claim_next now lease locked jobs).1
claim_next-All_claimable {X} now lease locked P Q sweep begin jobs d h =
    elim (Option-cases (best now lease locked jobs)) [
      | inl nobody ↦ rw (claim_next-nobody now lease locked jobs nobody) all_swept
      | inr (s, chosen) ↦
          let (m, free) =
            In-filter (is_claimable now locked) s (swept now lease locked jobs)
              (oldest-In s _ chosen) in
          rw (claim_next-best now lease locked jobs s chosen) (
            All-update_found Q s.id _ _
              (λ j e q. begin j q (
                subst (λ r. is_claimable now locked r ≡ true)
                  (some_eq s j (sym (get_job-swept now lease locked jobs s d m) ∙ e)) free))
              all_swept)
    ]
  where
    all_swept : All Q (map (requeue_expired now) jobs)
    all_swept = All-map_to P Q (requeue_expired now) sweep jobs h
