-- ===== src/SourceControl/Install.antt =====
-- What a user can read once the app is installed.
use showcase_host.Prelude.{
  ℕ, ◌<◌, Bool, true, ◌&&◌, Option, none, some, List, ◌≡◌, refl, length, filter, find, All, In,
  In-All, In-filter, find-In, ◌==◌, ==_iff, arith, Bool-cases, inl, inr, ap, sym, ◌∙◌, subst,
}
use showcase_host.Prelude.Results.{ok, ok_eq, >>=-ok, ◌>>=◌}
use showcase_host.Repositories.{
  Installation, SourceRepository, Tables, synchronize_installation, is_of_installation,
}
use showcase_host.Repositories.Access.{IsListed, synchronize_installation-IsListed}
use showcase_host.SourceControl.{
  Reply, install, with_installations, with_repositories, is_account, from_github, find_installation,
  paginate,
}
use showcase_host.SourceControl.Pages.{IsPaged, paginate-All}

-- The associations of a user with repositories of an installation.
abbrev pub is_readable : ℕ → ℕ → Tables → ℕ × ℕ → Bool
is_readable user installation_id t (u, id) =
    u == user && is_of_installation installation_id t.repositories id

-- The installation is one of the account's, and of its repositories the user can read just what GitHub listed.
pub record IsInstalled (user installation_id : ℕ) (installations : List Installation)
    (sources : List SourceRepository) (before : Tables) (result : Option Tables) : Type 0 where
  pub installation : Installation
  pub listed : In installation installations
  pub same_id : installation.id ≡ installation_id
  pub after : Tables
  pub returned : result ≡ some after
  pub synchronized : after ≡ synchronize_installation user installation sources before
  pub readable :
      All
        (λ p. IsListed installation_id sources after.repositories p.1)
        (filter (is_readable user installation_id after) after.user_repositories)

readable-IsListed :
    (user : ℕ) (i : Installation) (sources : List SourceRepository) (t : Tables) (p : ℕ × ℕ)
    → In p (synchronize_installation user i sources t).user_repositories
    → is_readable user i.id (synchronize_installation user i sources t) p ≡ true
    → IsListed i.id sources (synchronize_installation user i sources t).repositories p.1
readable-IsListed user i sources t (u, id) m passes =
    let after = synchronize_installation user i sources t in
    elim (Bool-cases (u == user)) [
      | inl own ↦
          synchronize_installation-IsListed user i sources t id
            (subst (λ v. In (v, id) after.user_repositories) ((==_iff u user).0 own) m)
            (rw own at passes)
      | inr other ↦ absurd (cc (rw other at passes))
    ]

all_readable :
    (user : ℕ) (i : Installation) (sources : List SourceRepository) (t : Tables)
    → All
        (λ p. IsListed i.id sources (synchronize_installation user i sources t).repositories p.1)
        (filter
          (is_readable user i.id (synchronize_installation user i sources t))
          (synchronize_installation user i sources t).user_repositories)
all_readable user i sources t =
    let after = synchronize_installation user i sources t in
    In-All (filter (is_readable user i.id after) after.user_repositories) (λ p m.
      let (stored, passes) = In-filter (is_readable user i.id after) p after.user_repositories m in
      readable-IsListed user i sources t p stored passes)

installed :
    (user installation_id : ℕ) (installations : List Installation) (sources : List SourceRepository)
    (t : Tables) (i : Installation)
    → In i installations
    → i.id ≡ installation_id
    → IsInstalled user installation_id installations sources t
        (some (synchronize_installation user i sources t))
installed user installation_id installations sources t i m same = record {
  installation = i;
  listed = m;
  same_id = same;
  after = synchronize_installation user i sources t;
  returned = refl;
  synchronized = refl;
  readable =
      subst
        (λ n.
          All (λ p. IsListed n sources (synchronize_installation user i sources t).repositories p.1)
            (filter (is_readable user n (synchronize_installation user i sources t))
              (synchronize_installation user i sources t).user_repositories))
        same (all_readable user i sources t);
}

module _ (fuel : ℕ) (installations_at : ℕ → Reply (List Installation))
    (repositories_at : ℕ → ℕ → Reply (List SourceRepository)) (user installation_id : ℕ)
    (installations : List Installation) (sources : List SourceRepository) (t : Tables)
    (installation_pages : IsPaged 100 installations_at 1 installations)
    (repository_pages : IsPaged 100 (repositories_at installation_id) 1 sources)
    (enough : length installations < fuel) (enough_sources : length sources < fuel) where
  from_found :
      (o : Option Installation) (i : Installation)
      → find (λ (j : Installation). j.id == installation_id) installations ≡ o
      → from_github (find_installation installation_id installations) ≡ ok i
      → In i installations × (i.id ≡ installation_id)
  unfolding find_installation
  from_found none i e h = absurd (cc (rw (e, from_github) at h))
  from_found (some j) i e h =
      let same = ok_eq (rw (e, from_github) at h) in
      let (m, own) =
        find-In (λ (k : Installation). k.id == installation_id) installations i
          (e ∙ ap some same) in
      (m, (==_iff i.id installation_id).0 own)

  found-IsInstalled :
      (result : Option Tables)
      → with_installations fuel installations_at repositories_at user installation_id t
          (some installations)
        ≡ ok result
      → IsInstalled user installation_id installations sources t result
  found-IsInstalled result h =
      let (i, found, rest) =
        >>=-ok (from_github (find_installation installation_id installations)) _ h in
      let (listed, paged, last) =
        >>=-ok (from_github (paginate 100 (repositories_at installation_id) fuel)) _ rest in
      let all =
        paginate-All 100 (repositories_at installation_id) (omega arith) fuel sources
          repository_pages enough_sources in
      let same : some sources ≡ listed = ok_eq (sym (ap from_github all) ∙ paged) in
      let (m, own) = from_found _ i refl found in
      subst (IsInstalled user installation_id installations sources t)
        (ap (with_repositories fuel installations_at repositories_at user i t) same ∙ ok_eq last)
        (installed user installation_id installations sources t i m own)

  -- If GitHub serves two lists in pages and there is fuel for their pages, then an installation that returns
  -- is of one that GitHub listed for the account, and is synchronized; of its repositories, the user can read
  -- only those that GitHub listed.
  pub install-IsInstalled :
      (github_id_of : ℕ → Option ℕ) (source_user : ℕ) (result : Option Tables)
      → install fuel installations_at repositories_at
          (some user)
          (some installation_id)
          github_id_of
          source_user
          t
        ≡ ok result
      → IsInstalled user installation_id installations sources t result
  unfolding install
  install-IsInstalled github_id_of source_user result h =
      elim (Bool-cases (is_account (github_id_of user) source_user)) [
        | inl own ↦ found-IsInstalled result (
            sym (
              ap
                (λ x.
                  from_github x
                  >>= with_installations fuel installations_at repositories_at user installation_id
                      t)
                (paginate-All 100 installations_at (omega arith) fuel installations
                  installation_pages enough))
            ∙ (rw own at h))
        | inr other ↦ absurd (cc (rw other at h))
      ]
