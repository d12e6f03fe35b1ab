-- ===== src/Repositories/Access.antt =====
-- Who can read a repository after a synchronization.
pub mod Transfer
use showcase_host.Prelude.{
  ℕ, true, false, not, Option, none, some, List, [], ◌∷◌, ◌++◌, ◌≡◌, refl, sym, ap, ◌∙◌, ◌⊎◌, ◌==◌,
  ==_iff, any, filter, find, In, In-filter, All, All-In, All-imp, inl, inr, Bool-cases, some_eq,
  arith,
}
use showcase_host.Repositories.{
  SourceRepository, Repository, Installation, Tables, is_pair, add_association, update_columns,
  new_repository, has_github_id, update_repository, associate, synchronize_repository,
  synchronize_repositories, is_of_installation, is_stale, revoke_stale, synchronize_installation,
}

-- A row of the repository with this id is of the installation, and GitHub listed it.
pub record IsListed (installation_id : ℕ) (sources : List SourceRepository)
    (repositories : List Repository) (id : ℕ) : Type 0 where
  pub repository : Repository
  pub stored : In repository repositories
  pub same_id : repository.id ≡ id
  pub same_installation : repository.installation_id ≡ installation_id
  pub source : SourceRepository
  pub listed : In source sources
  pub same_source : repository.github_repository_id ≡ source.id

In-append_left : {A : Type 0} (a : A) (ys xs : List A) → In a xs → In a (xs ++ ys)
In-append_left a ys [] m = absurd m
In-append_left a ys (x ∷ xs) (inl e) = inl e
In-append_left a ys (x ∷ xs) (inr m) = inr (In-append_left a ys xs m)

In-last : {A : Type 0} (a : A) (xs : List A) → In a (xs ++ a ∷ [])
In-last a [] = inl refl
In-last a (x ∷ xs) = inr (In-last a xs)

-- A row of the repository, of the installation and with the GitHub id.
record IsStored (installation_id github_id : ℕ) (repositories : List Repository) (id : ℕ)
    : Type 0 where
  row : Repository
  stored : In row repositories
  same_id : row.id ≡ id
  same_installation : row.installation_id ≡ installation_id
  same_github : row.github_repository_id ≡ github_id

module _ (installation_id : ℕ) where
  IsStored-later :
      (g id : ℕ) (r : Repository) (rs : List Repository)
      → IsStored installation_id g rs id
      → IsStored installation_id g (r ∷ rs) id
  IsStored-later g id r rs h = record {
    row = h.row;
    stored = inr h.stored;
    same_id = h.same_id;
    same_installation = h.same_installation;
    same_github = h.same_github;
  }

  -- The update of another row, or of this one, keeps it stored.
  update-IsStored :
      (source : SourceRepository) (g id : ℕ) (rs : List Repository) (row : Repository)
      → In row rs
      → row.id ≡ id
      → row.installation_id ≡ installation_id
      → row.github_repository_id ≡ g
      → IsStored installation_id g (update_repository installation_id source rs) id
  update-IsStored source g id [] row m i j k = absurd m
  update-IsStored source g id (r ∷ rs) row (inl here) i j k =
      elim (Bool-cases (has_github_id source.id r)) [
        | inl same ↦ rw same (record {
          row = update_columns installation_id source r;
          stored = inl refl;
          same_id = ap (λ (x : Repository). x.id) (sym here) ∙ i;
          same_installation = refl;
          same_github = ap (λ (x : Repository). x.github_repository_id) (sym here) ∙ k;
        })
        | inr other ↦ rw other (record {
          row = row;
          stored = inl here;
          same_id = i;
          same_installation = j;
          same_github = k;
        })
      ]
  update-IsStored source g id (r ∷ rs) row (inr later) i j k =
      elim (Bool-cases (has_github_id source.id r)) [
        | inl same ↦ rw same (record {
          row = row;
          stored = inr later;
          same_id = i;
          same_installation = j;
          same_github = k;
        })
        | inr other ↦
            rw other (IsStored-later g id r _ (update-IsStored source g id rs row later i j k))
      ]

  -- The selected row is stored by its update.
  found-IsStored :
      (source : SourceRepository) (rs : List Repository) (row : Repository)
      → find (has_github_id source.id) rs ≡ some row
      → IsStored installation_id source.id (update_repository installation_id source rs) row.id
  found-IsStored source [] row = λ h. absurd (cc h)
  found-IsStored source (r ∷ rs) row = elim (Bool-cases (has_github_id source.id r)) [
    | inl same ↦ rw same (λ h. record {
      row = update_columns installation_id source r;
      stored = inl refl;
      same_id = ap (λ (x : Repository). x.id) (some_eq _ _ h);
      same_installation = refl;
      same_github = (==_iff _ _).0 same;
    })
    | inr other ↦
        rw other (λ h. IsStored-later source.id row.id r _ (found-IsStored source rs row h))
  ]

  append-IsStored :
      (g id : ℕ) (rs : List Repository) (new row : Repository)
      → In row rs
      → row.id ≡ id
      → row.installation_id ≡ installation_id
      → row.github_repository_id ≡ g
      → IsStored installation_id g (rs ++ new ∷ []) id
  append-IsStored g id rs new row m i j k = record {
    row = row;
    stored = In-append_left row (new ∷ []) rs m;
    same_id = i;
    same_installation = j;
    same_github = k;
  }

  module _ (user : ℕ) where
    step-keeps :
        (source : SourceRepository) (t : Tables) (found : Option Repository) (g id : ℕ)
        → IsStored installation_id g t.repositories id
        → IsStored installation_id g
            (synchronize_repository user installation_id source t found).0.repositories
            id
    unfolding synchronize_repository
    step-keeps source t none g id h =
        append-IsStored g id t.repositories _ h.row h.stored h.same_id h.same_installation
          h.same_github
    step-keeps source t (some r) g id h =
        update-IsStored source g id t.repositories h.row h.stored h.same_id h.same_installation
          h.same_github

    step-stores :
        (source : SourceRepository) (t : Tables) (found : Option Repository)
        → find (has_github_id source.id) t.repositories ≡ found
        → IsStored installation_id source.id
            (synchronize_repository user installation_id source t found).0.repositories
            (synchronize_repository user installation_id source t found).1
    unfolding synchronize_repository
    step-stores source t none e = record {
      row = new_repository t.next_id installation_id source;
      stored = In-last _ t.repositories;
      same_id = refl;
      same_installation = refl;
      same_github = refl;
    }
    step-stores source t (some r) e = found-IsStored source t.repositories r e

    -- Each accessible id is of a row for one of the sources.
    abbrev IsAccessible : List SourceRepository → List Repository → ℕ → Type 0
    IsAccessible sources rs id =
        (source : SourceRepository) × In source sources × IsStored installation_id source.id rs id

    loop-IsAccessible :
        (all sources : List SourceRepository) (t : Tables) (ids : List ℕ)
        → ((s : SourceRepository) → In s sources → In s all)
        → All (IsAccessible all t.repositories) ids
        → All
            (IsAccessible all
              (synchronize_repositories user installation_id sources (t, ids)).0.repositories)
            (synchronize_repositories user installation_id sources (t, ids)).1
    unfolding synchronize_repositories
    loop-IsAccessible all [] t ids sub h = h
    loop-IsAccessible all (source ∷ sources) t ids sub h =
        let found = find (has_github_id source.id) t.repositories in
        let step = synchronize_repository user installation_id source t found in
        loop-IsAccessible all sources step.0 (step.1 ∷ ids) (λ s m. sub s (inr m))
          (
            (source, sub source (inl refl), step-stores source t found refl),
            All-imp _ _ (λ id a. (a.0, a.1, step-keeps source t found a.0.id id a.2)) ids h,
          )

  any-In : (id : ℕ) (ids : List ℕ) → any (λ i. i == id) ids ≡ true → In id ids
  any-In id [] h = absurd (cc h)
  any-In id (i ∷ ids) h = elim (Bool-cases (i == id)) [
    | inl same ↦ inl (sym ((==_iff i id).0 same))
    | inr other ↦ inr (any-In id ids (rw other at h))
  ]

  revoke_stale-IsListed :
      (user : ℕ) (sources : List SourceRepository) (t : Tables) (ids : List ℕ) (id : ℕ)
      → All (IsAccessible user sources t.repositories) ids
      → In (user, id) (revoke_stale user installation_id (t, ids)).user_repositories
      → is_of_installation installation_id t.repositories id ≡ true
      → IsListed installation_id sources t.repositories id
  unfolding revoke_stale
  revoke_stale-IsListed user sources t ids id all m within =
      let (_, kept) =
        In-filter (λ p. not (is_stale user installation_id t.repositories ids p)) (user, id)
          t.user_repositories m in
      let known : any (λ i. i == id) ids ≡ true = ground (arith, kept, within, ==_iff user user) in
      let (source, listed, h) =
        All-In (IsAccessible user sources t.repositories) id ids all (any-In id ids known) in
      record {
        repository = h.row;
        stored = h.stored;
        same_id = h.same_id;
        same_installation = h.same_installation;
        source = source;
        listed = listed;
        same_source = h.same_github;
      }

-- A repository of the installation that the user can read after a synchronization was listed by GitHub.
pub synchronize_installation-IsListed :
    (user : ℕ) (i : Installation) (sources : List SourceRepository) (t : Tables) (id : ℕ)
    → In (user, id) (synchronize_installation user i sources t).user_repositories
    → is_of_installation i.id (synchronize_installation user i sources t).repositories id ≡ true
    → IsListed i.id sources (synchronize_installation user i sources t).repositories id
unfolding synchronize_installation revoke_stale
synchronize_installation-IsListed user i sources t id m within =
    let (after, ids) = synchronize_repositories user i.id sources (associate user i t, []) in
    revoke_stale-IsListed i.id user sources after ids id
      (loop-IsAccessible i.id user sources sources (associate user i t) [] (λ s k. k) tt) m within
