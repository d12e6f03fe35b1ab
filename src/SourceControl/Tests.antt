-- ===== src/SourceControl/Tests.antt =====
-- The pages of a list, a download, and an installation.
use showcase_host.Prelude.{
  ap, ℕ, ◌+◌, ◌*◌, ◌-◌, Option, some, List, [], ◌∷◌, ◌≡◌, refl, take, true, false, arith,
}
use showcase_host.Prelude.Results.{Result, ok, err}
use showcase_host.Embeddings.Calls.{drop}
use showcase_host.Repositories.{Installation, SourceRepository, Tables}
use showcase_host.SourceControl.{
  Reply, response, Stream, too_large, request, paginate, resolve_sha, download_archive,
  write_chunks, install, permanent, InstallError, wrong_account,
}
use showcase_host.SourceControl.Pages.{IsPaged}
use showcase_host.SourceControl.Download.{IsDownloaded, download_archive-IsDownloaded}
use showcase_host.SourceControl.Install.{IsInstalled, install-IsInstalled}

abbrev served : {A : Type 0} → ℕ → List A → ℕ → Reply (List A)
served per_page xs page = response 200 (take per_page (drop ((page - 1) * per_page) xs))

one_less : (n : ℕ) → (1 + n) - 1 ≡ n
one_less n = omega arith

served-IsPaged :
    {A : Type 0} (per_page : ℕ) (xs : List A) → IsPaged per_page (served per_page xs) 1 xs
served-IsPaged per_page xs n =
    ap (λ k. response 200 (take per_page (drop (k * per_page) xs))) (one_less n)

abbrev numbers : List ℕ
numbers = 5 ∷ 6 ∷ 7 ∷ []

paginates : paginate 2 (served 2 numbers) 4 ≡ ok (some numbers)
unfolding paginate request
paginates = refl

abbrev stream : Reply Stream
stream = response 200 (record { chunks = (1 ∷ 2 ∷ []) ∷ (3 ∷ []) ∷ []; breaks = false })

downloads :
    (download_archive 3 (λ url. stream) (response 302 (some "u")) ≡ (ok 3, 1 ∷ 2 ∷ 3 ∷ []))
    × (download_archive 2 (λ url. stream) (response 302 (some "u")) ≡ (err too_large, 1 ∷ 2 ∷ []))
unfolding download_archive request write_chunks
downloads = (refl, refl)

refuses_sha :
    resolve_sha (λ s. s) (response 200 "abc")
    ≡ err (permanent "invalid_commit_sha" "GitHub returned an invalid commit SHA")
unfolding resolve_sha request
refuses_sha = refl

abbrev installation : Installation
installation = record {
  id = 5;
  account_id = 1;
  account_login = "o";
  account_type = "User";
  repository_selection = "all";
}

abbrev repository : SourceRepository
repository = record {
  id = 70;
  owner = "o";
  name = "n";
  full_name = "o/n";
  is_private = true;
  default_branch = "main";
}

abbrev tables : Tables
tables = record {
  installations = [];
  user_installations = [];
  repositories = [];
  user_repositories = [];
  next_id = 1;
}

abbrev try_install : ℕ → Result InstallError (Option Tables)
try_install account =
    install 2 (served 100 (installation ∷ [])) (λ id. served 100 (repository ∷ [])) (some 9)
      (some 5) (λ id. some 8) account tables

abbrev or_same : Result InstallError (Option Tables) → Option Tables
or_same (ok t) = t
or_same (err e) = some tables

wrong_account_fails : try_install 7 ≡ err wrong_account
unfolding install
wrong_account_fails = refl

installs : try_install 8 ≡ ok (or_same (try_install 8))
unfolding install paginate request
installs = refl

install-IsInstalled_example :
    IsInstalled 9 5 (installation ∷ []) (repository ∷ []) tables (or_same (try_install 8))
install-IsInstalled_example =
    install-IsInstalled 2 (served 100 (installation ∷ [])) (λ id. served 100 (repository ∷ [])) 9 5
      (installation ∷ []) (repository ∷ []) tables (served-IsPaged 100 (installation ∷ []))
      (served-IsPaged 100 (repository ∷ [])) (omega arith) (omega arith) (λ id. some 8) 8
      (or_same (try_install 8)) installs

download_archive-IsDownloaded_example :
    IsDownloaded 3
      (λ url. stream)
      (response 302 (some "u"))
      (download_archive 3 (λ url. stream) (response 302 (some "u")))
download_archive-IsDownloaded_example =
    download_archive-IsDownloaded 3 (λ url. stream) (response 302 (some "u"))
