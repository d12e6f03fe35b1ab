-- ===== src/Auth/Routes/Tests.antt =====
-- A login through the callback, one with a state that is used up, and the setup of an installation.
use showcase_host.Prelude.{arith, ap, str_eq, ◌+◌, ◌≡◌, refl, String, none, some, [], ◌∷◌}
use showcase_host.Prelude.Results.{ok, err}
use showcase_host.SourceControl.{network_failure}
use showcase_host.Auth.{OauthFlow, seconds}
use showcase_host.Auth.Routes.{
  SourceUser, Provider, Site, connected, invalid_state, github_auth_callback, github_install_setup,
}
use showcase_host.Auth.Routes.Connected.{IsReady, IsConnected, github_auth_callback-IsConnected}

abbrev hash : String → String
hash value = value

abbrev octocat : SourceUser
octocat = record { id = 7; login = "octocat"; avatar_url = none }

abbrev provider : Provider
provider = record {
  exchange_code = λ code verifier. ok "token";
  get_user = λ token. ok octocat;
  installations_at = λ token page. network_failure;
  repositories_at = λ token installation page. network_failure;
}

abbrev flow : String → String → OauthFlow
flow state purpose = record {
  state_hash = state;
  code_verifier = "v";
  purpose = purpose;
  user_id = some 3;
  installation_id = none;
  expires_at = 600_000_000;
}

abbrev site : Site
site = record {
  flows = flow "s" "login" ∷ flow "i" "install_start" ∷ [];
  users = record { id = 3; github_user_id = 7; github_login = "old"; avatar_url = none } ∷ [];
  sessions = [];
  tables = record {
    installations = [];
    user_installations = [];
    repositories = [];
    user_repositories = [];
    next_id = 1;
  };
}

abbrev after_login : Site
after_login = record {
  flows = flow "i" "install_start" ∷ [];
  users = record { id = 3; github_user_id = 7; github_login = "octocat"; avatar_url = none } ∷ [];
  sessions = record { user_id = 3; token_hash = "cookie"; expires_at = 5 + seconds 60 } ∷ [];
  tables = site.tables;
}

logs_in :
    github_auth_callback hash provider 9 5 60 4 "cookie" "code" "s" site
    ≡ ok (some (connected "cookie" (5 + seconds 60), after_login))
unfolding github_auth_callback
logs_in = refl

once :
    github_auth_callback hash provider 9 6 60 4 "cookie" "code" "s" after_login ≡ err invalid_state
unfolding github_auth_callback
once = refl

-- The setup wants a flow that the user's installation started, and starts one to verify it.
sets_up :
    (github_install_setup hash 5 600 3 12 "i" "n" "w" site.flows
      ≡ ok (
          flow "s" "login"
          ∷ record {
            state_hash = "n";
            code_verifier = "w";
            purpose = "install_verify";
            user_id = some 3;
            installation_id = some 12;
            expires_at = 5 + seconds 600;
          }
          ∷ []))
    × (github_install_setup hash 5 600 8 12 "i" "n" "w" site.flows ≡ err invalid_state)
    × (github_install_setup hash 5 600 3 12 "s" "n" "w" site.flows ≡ err invalid_state)
unfolding github_install_setup
sets_up = (refl, refl, refl)

ready : IsReady hash 4 site "cookie"
ready = record {
  unique_flows = ((λ e. cc (ap (λ x. str_eq x "s") e), tt), (tt, tt));
  distinct_ids = (tt, tt);
  unused_id = ((λ e. omega (arith, e)), tt);
  unused_token = tt;
  some_token = refl;
}

github_auth_callback-IsConnected_example :
    IsConnected hash provider 5 "code" "s" site 9 "cookie" (5 + seconds 60) after_login
github_auth_callback-IsConnected_example =
    github_auth_callback-IsConnected hash provider 9 5 60 4 9 "code" "s" site "cookie" ready
      "cookie" (5 + seconds 60) after_login logs_in
