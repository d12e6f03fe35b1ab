-- ===== src/Jobs/Claim.antt =====
-- `claim_next`: which row it takes, what it does to it, and what it leaves alone.
pub mod Kept
pub mod Taken
use mathlib.Core.Option
use showcase_host.Prelude.{
  All-map, All, ℕ, ◌≤◌, ◌≡◌, refl, sym, ◌∙◌, ap, subst, ◌≢◌, inl, inr, Bool, true, Option, none,
  some, List, map, arith, ◌==◌, Option-cases, if◌then◌else◌, filter, In, In-filter, filter-In,
  All-In, All-map_to, some_eq,
}
use showcase_host.Jobs.{
  Job, get_job, update_job, requeue_expired, is_claimable, oldest, begin_attempt, claim_next,
}
use showcase_host.Jobs.Table.{
  update-HasKeys, HasKeys, KeepsId, All-update_found, All-update, get_job-update, get_job-map,
  map-HasKeys, get_job-In, In-get_job, oldest-eq-none, oldest-In, oldest-le,
}

module _ {X : Type 0} (now : ℕ) where
  requeue_expired-KeepsId : KeepsId (requeue_expired {X = X} now)
  unfolding requeue_expired
  requeue_expired-KeepsId j = ground arith

  begin_attempt-KeepsId : (lease : ℕ) → KeepsId (begin_attempt {X = X} now lease)
  unfolding begin_attempt
  begin_attempt-KeepsId lease j = refl

  requeue_expired-created_at : (j : Job X) → (requeue_expired now j).created_at ≡ j.created_at
  unfolding requeue_expired
  requeue_expired-created_at j = ground arith

-- A row that `claim_next` may take at a time: due in the queue, or with an expired lease.
abbrev pub IsAvailable : {X : Type 0} → ℕ → (ℕ → Bool) → Job X → Type 0
IsAvailable now locked j = is_claimable now locked (requeue_expired now j) ≡ true

-- What a claim of the row `j` leaves of a table: it begins an attempt, and is a row that had waited
-- longest of those that could be taken; every other row is only swept.
pub record Claims {X : Type 0} (now lease : ℕ) (locked : ℕ → Bool) (before after : List (Job X))
    (id : ℕ) (j : Job X) : Type 0 where
  pub found : get_job id before ≡ some j
  pub available : IsAvailable now locked j
  pub first :
      (k : Job X)
      → get_job k.id before ≡ some k
      → IsAvailable now locked k
      → j.created_at ≤ k.created_at
  pub begun : get_job id after ≡ some (begin_attempt now lease (requeue_expired now j))
  pub others :
      (k : ℕ) → k ≢ id → get_job k after ≡ Option.map (requeue_expired now) (get_job k before)

module _ {X : Type 0} (now lease : ℕ) (locked : ℕ → Bool) (jobs : List (Job X)) where
  abbrev swept : List (Job X)
  swept = map (requeue_expired now) jobs

  abbrev best : Option (Job X)
  best = oldest (filter (is_claimable now locked) swept)

  from_jobs : (k : ℕ) → get_job k swept ≡ Option.map (requeue_expired now) (get_job k jobs)
  from_jobs k = get_job-map k (requeue_expired now) jobs (requeue_expired-KeepsId now)

  get_job-swept : (s : Job X) → HasKeys jobs → In s swept → get_job s.id swept ≡ some s
  get_job-swept s d =
      In-get_job s swept (map-HasKeys (requeue_expired now) jobs (requeue_expired-KeepsId now) d)

  -- The row in the old table from which a swept row comes.
  unswept :
      (s : Job X)
      → HasKeys jobs
      → In s swept
      → (j : Job X) × (get_job s.id jobs ≡ some j) × (s ≡ requeue_expired now j)
  unswept s d m = elim (Option-cases (get_job s.id jobs)) [
    | inl missing ↦ cc (missing, from_jobs s.id, get_job-swept s d m)
    | inr (j, found) ↦ (j, found, cc (found, from_jobs s.id, get_job-swept s d m))
  ]

  claim_next-best :
      (s : Job X)
      → best ≡ some s
      → claim_next now lease locked jobs
        ≡ (some s.id, update_job s.id (begin_attempt now lease) swept)
  unfolding claim_next
  claim_next-best s e = rw e

  claim_next-nobody : best ≡ none → claim_next now lease locked jobs ≡ (none, swept)
  unfolding claim_next
  claim_next-nobody e = rw e

  -- Rows of the old table that can be claimed are among those of which `best` is the oldest.
  best-le :
      (s k : Job X)
      → HasKeys jobs
      → best ≡ some s
      → get_job k.id jobs ≡ some k
      → is_claimable now locked (requeue_expired now k) ≡ true
      → s.created_at ≤ k.created_at
  best-le s k d e found free = omega (
    arith,
    requeue_expired-created_at now k,
    All-In _ (requeue_expired now k) _ (oldest-le s _ e)
        (filter-In _ _ swept (get_job-In k.id (requeue_expired now k) swept there).0 free),
  )
    where
      there : get_job k.id swept ≡ some (requeue_expired now k)
      there = cc (from_jobs k.id, found)

  updated :
      (id : ℕ) (s : Job X)
      → get_job id (update_job s.id (begin_attempt now lease) swept) ≡ (
          if s.id == id
          then Option.map (begin_attempt now lease) (get_job id swept)
          else get_job id swept)
  updated id s =
      get_job-update id s.id (begin_attempt now lease) swept (begin_attempt-KeepsId now lease)

  row-Claims :
      (s j : Job X)
      → HasKeys jobs
      → best ≡ some s
      → In s swept
      → is_claimable now locked s ≡ true
      → get_job s.id jobs ≡ some j
      → s ≡ requeue_expired now j
      → Claims now lease locked jobs (update_job s.id (begin_attempt now lease) swept) s.id j
  row-Claims s j d e m free found same = record {
    found = found;
    available = rw (← same) free;
    first = λ k there open_. omega (
      arith,
      best-le s k d e there open_,
      requeue_expired-created_at now j,
      ap (λ (r : Job X). r.created_at) same,
    );
    begun = ground (arith, updated s.id s, get_job-swept s d m);
    others = λ k ne. ground (arith, updated k s, from_jobs k);
  }

  best-Claims :
      (s : Job X)
      → HasKeys jobs
      → best ≡ some s
      → (j : Job X) × Claims now lease locked jobs
          (update_job s.id (begin_attempt now lease) swept)
          s.id
          j
  best-Claims s d e =
      let (m, free) = In-filter (is_claimable now locked) s swept (oldest-In s _ e) in
      let (j, found, same) = unswept s d m in (j, row-Claims s j d e m free found same)

  none_available :
      (k : Job X) → best ≡ none → get_job k.id jobs ≡ some k → ¬ IsAvailable now locked k
  none_available k e found free =
      subst (In (requeue_expired now k)) (oldest-eq-none _ e)
        (filter-In _ _ swept (get_job-In k.id (requeue_expired now k) swept there).0 free)
    where
      there : get_job k.id swept ≡ some (requeue_expired now k)
      there = cc (from_jobs k.id, found)

-- What `claim_next` has done, by what it returned.
abbrev pub Swept :
    {X : Type 0} → ℕ → ℕ → (ℕ → Bool) → List (Job X) → Option ℕ × List (Job X) → Type 0
Swept {X} now lease locked before (none, after) =
    ((k : Job X) → get_job k.id before ≡ some k → ¬ IsAvailable now locked k)
    × ((k : ℕ) → get_job k after ≡ Option.map (requeue_expired now) (get_job k before))
Swept {X} now lease locked before (some id, after) =
    (j : Job X) × Claims now lease locked before after id j

-- What `claim_next` does to a table with a primary key.
pub claim_next-Swept :
    {X : Type 0} (now lease : ℕ) (locked : ℕ → Bool) (jobs : List (Job X))
    → HasKeys jobs
    → Swept now lease locked jobs (claim_next now lease locked jobs)
claim_next-Swept now lease locked jobs d = elim (Option-cases (best now lease locked jobs)) [
  | inl nobody ↦ rw (claim_next-nobody now lease locked jobs nobody) (
    λ k found. none_available now lease locked jobs k nobody found,
    from_jobs now lease locked jobs,
  )
  | inr (s, chosen) ↦
      rw (claim_next-best now lease locked jobs s chosen)
        (best-Claims now lease locked jobs s d chosen)
]
