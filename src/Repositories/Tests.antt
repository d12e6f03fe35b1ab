-- ===== src/Repositories/Tests.antt =====
-- A repository that moves to an installation, and one that GitHub no longer lists.
use showcase_host.Prelude.{true, [], ◌∷◌, ◌≡◌, refl}
use showcase_host.Repositories.{
  Installation, SourceRepository, Tables, new_repository, synchronize_installation,
}

abbrev listed : SourceRepository
listed = record {
  id = 70;
  owner = "o";
  name = "n";
  full_name = "o/n";
  is_private = true;
  default_branch = "main";
}

abbrev installation : Installation
installation = record {
  id = 5;
  account_id = 1;
  account_login = "o";
  account_type = "User";
  repository_selection = "all";
}

-- Repository 1 comes from installation 4; repository 2 is not listed any more.
abbrev tables : Tables
tables = record {
  installations = [];
  user_installations = [];
  repositories =
      new_repository 1 4 listed
      ∷ new_repository 2 5 (record listed { id = 71; full_name = "o/m" })
      ∷ [];
  user_repositories = (8, 1) ∷ (9, 1) ∷ (9, 2) ∷ (8, 2) ∷ [];
  next_id = 3;
}

synchronizes :
    (synchronize_installation 9 installation (listed ∷ []) tables).user_repositories
    ≡ (8, 2) ∷ (9, 1) ∷ []
unfolding synchronize_installation
synchronizes = refl
