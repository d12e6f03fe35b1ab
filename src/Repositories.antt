-- ===== src/Repositories.antt =====
-- Repositories and who may read them: app/services/repositories.py, over the tables of app/db/models.py.
pub mod Access
mod Tests
use showcase_host.Prelude.{
  ℕ, suc, ◌+◌, String, Bool, true, false, not, ◌||◌, ◌&&◌, Option, none, some, List, [], ◌∷◌, ◌++◌,
  map, ◌==◌, if◌then◌else◌, any, filter, find, str_leb, sort_by,
}

pub record Installation : Type 0 where
  pub id : ℕ
  pub account_id : ℕ
  pub account_login : String
  pub account_type : String
  pub repository_selection : String

-- `SourceRepository`, without its installation.
pub record SourceRepository : Type 0 where
  pub id : ℕ
  pub owner : String
  pub name : String
  pub full_name : String
  pub is_private : Bool
  pub default_branch : String

pub record Repository : Type 0 where
  pub id : ℕ
  pub github_repository_id : ℕ
  pub installation_id : ℕ
  pub owner : String
  pub name : String
  pub full_name : String
  pub is_private : Bool
  pub default_branch : String
  pub last_observed_sha : Option String

-- The associations are pairs of a user and an installation or a repository; `next_id` numbers repositories.
pub record Tables : Type 0 where
  pub installations : List Installation
  pub user_installations : List (ℕ × ℕ)
  pub repositories : List Repository
  pub user_repositories : List (ℕ × ℕ)
  pub next_id : ℕ

abbrev pub is_pair : ℕ → ℕ → ℕ × ℕ → Bool
is_pair a b (x, y) = x == a && y == b

-- `session.get(...)` of an association, and its insertion if there is none.
abbrev pub add_association : ℕ → ℕ → List (ℕ × ℕ) → List (ℕ × ℕ)
add_association user id pairs =
    if any (is_pair user id) pairs then pairs else pairs ++ (user, id) ∷ []

unfoldable pub store_installation : Installation → List Installation → List Installation
store_installation i [] = i ∷ []
store_installation i (j ∷ js) = if j.id == i.id then i ∷ js else j ∷ store_installation i js

-- The assignments to a repository's columns.
abbrev pub update_columns : ℕ → SourceRepository → Repository → Repository
update_columns installation_id source r = record r {
  installation_id = installation_id;
  owner = source.owner;
  name = source.name;
  full_name = source.full_name;
  is_private = source.is_private;
  default_branch = source.default_branch;
}

abbrev pub new_repository : ℕ → ℕ → SourceRepository → Repository
new_repository id installation_id source = record {
  id = id;
  github_repository_id = source.id;
  installation_id = installation_id;
  owner = source.owner;
  name = source.name;
  full_name = source.full_name;
  is_private = source.is_private;
  default_branch = source.default_branch;
  last_observed_sha = none;
}

abbrev pub has_github_id : ℕ → Repository → Bool
has_github_id id r = r.github_repository_id == id

-- The update of the row that was selected by its unique GitHub id.
abbrev pub update_repository : ℕ → SourceRepository → List Repository → List Repository
update_repository installation_id source [] = []
update_repository installation_id source (r ∷ rs) =
    if has_github_id source.id r
    then update_columns installation_id source r ∷ rs
    else r ∷ update_repository installation_id source rs

-- A repository that comes from another installation loses its readers.
abbrev readers_after : ℕ → Repository → List (ℕ × ℕ) → List (ℕ × ℕ)
readers_after installation_id r pairs =
    if r.installation_id == installation_id then pairs else filter (λ p. not (p.1 == r.id)) pairs

-- The body of the loop over the sources, for the row that was selected: the tables, and the repository's id.
unfoldable pub synchronize_repository :
    ℕ → ℕ → SourceRepository → Tables → Option Repository → Tables × ℕ
synchronize_repository user installation_id source t none = (
  record t {
    repositories = t.repositories ++ new_repository t.next_id installation_id source ∷ [];
    user_repositories = add_association user t.next_id t.user_repositories;
    next_id = t.next_id + 1;
  },
  t.next_id,
)
synchronize_repository user installation_id source t (some r) = (
  record t {
    repositories = update_repository installation_id source t.repositories;
    user_repositories =
        add_association user r.id (readers_after installation_id r t.user_repositories);
  },
  r.id,
)

-- The loop, with `accessible_repository_ids`.
unfoldable pub synchronize_repositories :
    ℕ → ℕ → List SourceRepository → Tables × List ℕ → Tables × List ℕ
unfolding synchronize_repository
synchronize_repositories user installation_id [] (t, ids) = (t, ids)
synchronize_repositories user installation_id (source ∷ sources) (t, ids) =
    let (after, id) =
      synchronize_repository user installation_id source t
        (find (has_github_id source.id) t.repositories) in
    synchronize_repositories user installation_id sources (after, id ∷ ids)

-- The join with `repositories`: the association is of a repository of the installation.
abbrev pub is_of_installation : ℕ → List Repository → ℕ → Bool
is_of_installation installation_id repositories id =
    any (λ (r : Repository). r.id == id && r.installation_id == installation_id) repositories

abbrev pub is_stale : ℕ → ℕ → List Repository → List ℕ → ℕ × ℕ → Bool
is_stale user installation_id repositories ids (u, id) =
    u == user && is_of_installation installation_id repositories id && not (any (λ i. i == id) ids)

unfoldable pub revoke_stale : ℕ → ℕ → Tables × List ℕ → Tables
revoke_stale user installation_id (t, ids) = record t {
  user_repositories =
      filter (λ p. not (is_stale user installation_id t.repositories ids p)) t.user_repositories;
}

-- The tables in which the loop starts.
abbrev pub associate : ℕ → Installation → Tables → Tables
associate user installation t = record t {
  installations = store_installation installation t.installations;
  user_installations = add_association user installation.id t.user_installations;
}

unfoldable pub synchronize_installation : ℕ → Installation → List SourceRepository → Tables → Tables
unfolding store_installation synchronize_repositories revoke_stale
synchronize_installation user installation sources t =
    revoke_stale user installation.id
      (synchronize_repositories user installation.id sources (associate user installation t, []))

abbrev can_read : ℕ → Tables → Repository → Bool
can_read user t r = any (is_pair user r.id) t.user_repositories

abbrev by_full_name : Repository → Repository → Bool
by_full_name a b = str_leb a.full_name b.full_name

unfoldable list_user_repositories : ℕ → Tables → List Repository
list_user_repositories user t = sort_by by_full_name (filter (can_read user t) t.repositories)

unfoldable get_user_repository : ℕ → ℕ → Tables → Option Repository
get_user_repository user id t = find (λ r. r.id == id && can_read user t r) t.repositories
