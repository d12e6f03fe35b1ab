-- ===== src/Auth/Routes.antt =====
-- The routes of app/api/routes/auth.py that change something. An error ends the transaction without a commit,
-- so that everything stays as it was.
pub mod Connected
mod Tests
use showcase_host.Prelude.{
  ℕ, ◌+◌, String, Bool, true, false, ◌&&◌, Option, none, some, List, find, ◌==◌, if◌then◌else◌,
  str_eq,
}
use showcase_host.Prelude.Results.{Result, ok, err, ◌>>=◌}
use showcase_host.Repositories.{Installation, SourceRepository, Tables}
use showcase_host.SourceControl.{
  SourceControlError, Reply, InstallError, source_control, is_account, install,
}
use showcase_host.Auth.{
  OauthFlow, User, Session, seconds, upsert_user, create_oauth_flow, consume_oauth_flow,
  create_session,
}

pub record SourceUser : Type 0 where
  pub id : ℕ
  pub login : String
  pub avatar_url : Option String

-- How GitHub answers: to a code with its verifier, and to a user's token, by pages where it lists.
pub record Provider : Type 0 where
  pub exchange_code : String → String → Result SourceControlError String
  pub get_user : String → Result SourceControlError SourceUser
  pub installations_at : String → ℕ → Reply (List Installation)
  pub repositories_at : String → ℕ → ℕ → Reply (List SourceRepository)

pub record Site : Type 0 where
  pub flows : List OauthFlow
  pub users : List User
  pub sessions : List Session
  pub tables : Tables

-- A redirection with the cookie's value and its end, or to the page after an installation.
pub data Answer : Type 0 where
  connected : String → ℕ → Answer
  installed : Answer

pub data RouteError : Type 0 where
  invalid_state : RouteError
  failed : InstallError → RouteError

abbrev from_client : {A : Type 0} → Result SourceControlError A → Result RouteError A
from_client (ok a) = ok a
from_client (err e) = err (failed (source_control e))

abbrev github_id_of : List User → ℕ → Option ℕ
github_id_of users id = elim (find (λ (u : User). u.id == id) users) [
  | none ↦ none
  | some u ↦ some u.github_user_id
]

abbrev pub end_install :
    Site → Result InstallError (Option Tables) → Result RouteError (Option (Answer × Site))
end_install w (err e) = err (failed e)
end_install w (ok none) = ok none
end_install w (ok (some tables)) = ok (some (installed, record w { tables = tables }))

module _ (hash : String → String) where
  -- The end of a login; `new_id` and `raw_session` are random.
  unfoldable pub sign_in : ℕ → ℕ → ℕ → String → SourceUser → Site → Answer × Site
  unfolding upsert_user create_session
  sign_in now ttl new_id raw_session source w =
      let (user, users) = upsert_user new_id source.id source.login source.avatar_url w.users in
      (
        connected raw_session (now + seconds ttl),
        record w {
          users = users;
          sessions = create_session hash now ttl user.id raw_session w.sessions;
        },
      )

  module _ (provider : Provider) (fuel now ttl new_id : ℕ) (raw_session code : String) where
    -- None if the lists of GitHub have more pages than `fuel`.
    unfoldable pub by_purpose :
        Site → OauthFlow → String → SourceUser → Result RouteError (Option (Answer × Site))
    unfolding sign_in install
    by_purpose w flow token source =
        if str_eq flow.purpose "install_verify"
        then end_install w (
            install fuel (provider.installations_at token) (provider.repositories_at token)
              flow.user_id flow.installation_id (github_id_of w.users) source.id w.tables)
        else ok (some (sign_in now ttl new_id raw_session source w))

    abbrev pub with_token : Site → OauthFlow → String → Result RouteError (Option (Answer × Site))
    with_token w flow token =
        from_client (provider.get_user token) >>= λ source. by_purpose w flow token source

    abbrev pub with_flow :
        Site → Option OauthFlow × List OauthFlow → Result RouteError (Option (Answer × Site))
    with_flow w (none, flows) = err invalid_state
    with_flow w (some flow, flows) =
        from_client (provider.exchange_code code flow.code_verifier) >>= λ token.
        with_token (record w { flows = flows }) flow token

    unfoldable pub github_auth_callback : String → Site → Result RouteError (Option (Answer × Site))
    unfolding by_purpose consume_oauth_flow
    github_auth_callback state w = with_flow w (consume_oauth_flow hash now state w.flows)

  -- The check of the flow that the setup consumes.
  abbrev is_start_of : ℕ → OauthFlow → Bool
  is_start_of user_id flow = str_eq flow.purpose "install_start" && is_account flow.user_id user_id

  abbrev pub with_initial_flow :
      ℕ
      → ℕ
      → ℕ
      → ℕ
      → String
      → String
      → Option OauthFlow × List OauthFlow
      → Result RouteError (List OauthFlow)
  with_initial_flow now ttl user_id installation_id state verifier (none, flows) = err invalid_state
  with_initial_flow now ttl user_id installation_id state verifier (some flow, flows) =
      if is_start_of user_id flow
      then ok (
          create_oauth_flow hash now ttl state verifier "install_verify" (some user_id)
            (some installation_id) flows)
      else err invalid_state

  -- The setup by a signed-in user, with the new state and its verifier.
  unfoldable pub github_install_setup :
      ℕ → ℕ → ℕ → ℕ → String → String → String → List OauthFlow → Result RouteError (List OauthFlow)
  unfolding consume_oauth_flow create_oauth_flow
  github_install_setup now ttl user_id installation_id old_state state verifier flows =
      with_initial_flow now ttl user_id installation_id state verifier
        (consume_oauth_flow hash now old_state flows)
