-- ===== src/Jobs/Table.antt =====
-- Rows of a job table: finding one by its primary key, changing one, and the oldest of some.
use mathlib.Core.Option
use showcase_host.Prelude.{
  Bool-cases, ℕ, ◌≤◌, ◌≡◌, refl, inl, inr, none, some, List, [], ◌∷◌, map, arith, ◌==◌,
  Option-cases, if◌then◌else◌, All, All-imp, In,
}
use showcase_host.Jobs.{Job, get_job, update_job, oldest}

-- The primary key: no two rows have the same id.
abbrev pub HasKeys : {X : Type 0} → List (Job X) → Type 0
HasKeys [] = Unit
HasKeys (j ∷ js) = (get_job j.id js ≡ none) × HasKeys js

-- A change that leaves the primary key alone.
abbrev pub KeepsId : {X : Type 0} → (Job X → Job X) → Type 0
KeepsId {X} f = (j : Job X) → (f j).id ≡ j.id

module _ {X : Type 0} where
  pub get_job-update :
      (k id : ℕ) (f : Job X → Job X) (js : List (Job X))
      → KeepsId f
      → get_job k (update_job id f js)
        ≡ (if id == k then Option.map f (get_job k js) else get_job k js)
  get_job-update k id f [] h = ground arith
  get_job-update k id f (j ∷ js) h = ground (arith, get_job-update k id f js h, h j)

  pub get_job-map :
      (k : ℕ) (f : Job X → Job X) (js : List (Job X))
      → KeepsId f
      → get_job k (map f js) ≡ Option.map f (get_job k js)
  get_job-map k f [] h = refl
  get_job-map k f (j ∷ js) h = ground (arith, get_job-map k f js h, h j)

  pub map-HasKeys :
      (f : Job X → Job X) (js : List (Job X)) → KeepsId f → HasKeys js → HasKeys (map f js)
  map-HasKeys f [] h d = tt
  map-HasKeys f (j ∷ js) h d =
      (ground (arith, get_job-map (f j).id f js h, h j, d.0), map-HasKeys f js h d.1)

  pub update-HasKeys :
      (id : ℕ) (f : Job X → Job X) (js : List (Job X))
      → KeepsId f
      → HasKeys js
      → HasKeys (update_job id f js)
  update-HasKeys id f [] h d = tt
  update-HasKeys id f (j ∷ js) h d =
      ground (arith, h j, get_job-update j.id id f js h, update-HasKeys id f js h d.1)

  pub get_job-In :
      (k : ℕ) (j : Job X) (js : List (Job X)) → get_job k js ≡ some j → In j js × (j.id ≡ k)
  get_job-In k j [] e = cc
  get_job-In k j (x ∷ js) e = ground (arith, get_job-In k j js)

  pub In-get_job : (j : Job X) (js : List (Job X)) → HasKeys js → In j js → get_job j.id js ≡ some j
  In-get_job j [] d m = elim m [ ]
  In-get_job j (x ∷ js) d m = ground (arith, In-get_job j js d.1)

  pub oldest-eq-none : (js : List (Job X)) → oldest js ≡ none → js ≡ []
  oldest-eq-none [] e = refl
  oldest-eq-none (j ∷ js) e = ground arith

  pub oldest-In : (j : Job X) (js : List (Job X)) → oldest js ≡ some j → In j js
  oldest-In j [] e = cc
  oldest-In j (x ∷ js) e = elim (Option-cases (oldest js)) [
    | inl empty ↦ ground arith
    | inr (k, best) ↦ ground (arith, oldest-In k js best)
  ]

  pub oldest-le :
      (j : Job X) (js : List (Job X))
      → oldest js ≡ some j
      → All (λ k. j.created_at ≤ k.created_at) js
  oldest-le j [] e = tt
  oldest-le j (x ∷ js) e = elim (Option-cases (oldest js)) [
    | inl empty ↦ ground (arith, oldest-eq-none js empty)
    | inr (k, best) ↦
        let least : (j.created_at ≤ x.created_at) × (j.created_at ≤ k.created_at) = ground arith in
        (least.0, All-imp _ _ (λ i h. omega (arith, least.1)) js (oldest-le k js best))
  ]

  pub All-update {κ} :
      (P : Job X → Type κ) (id : ℕ) (f : Job X → Job X)
      → ((j : Job X) → P j → P (f j))
      → (js : List (Job X)) → All P js
      → All P (update_job id f js)
  All-update P id f keep [] h = tt
  All-update P id f keep (j ∷ js) h = elim (Bool-cases (j.id == id)) [
    | inl here ↦ rw here (keep j h.0, h.1)
    | inr elsewhere ↦ rw elsewhere (h.0, All-update P id f keep js h.1)
  ]

  -- The same where the change is known to meet only the row that the key finds.
  pub All-update_found {κ} :
      (P : Job X → Type κ) (id : ℕ) (f : Job X → Job X) (js : List (Job X))
      → ((j : Job X) → get_job id js ≡ some j → P j → P (f j))
      → All P js
      → All P (update_job id f js)
  All-update_found P id f [] keep h = tt
  All-update_found P id f (j ∷ js) keep h = elim (Bool-cases (j.id == id)) [
    | inl here ↦ rw here (keep j (rw here) h.0, h.1)
    | inr elsewhere ↦
        rw elsewhere (h.0, All-update_found P id f js (λ k e. keep k (rw elsewhere e)) h.1)
  ]
