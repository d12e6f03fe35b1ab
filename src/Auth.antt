-- ===== src/Auth.antt =====
-- OAuth flows and sessions in app/services/auth.py. Tokens and identifiers are arguments in place of
-- random values, times are microseconds, and `hash` is SHA-256 in hexadecimal.
pub mod SingleUse
pub mod Lifetime
pub mod Users
pub mod Routes
mod Tests
use showcase_host.Prelude.{
  ℕ, ◌+◌, ◌*◌, String, Bool, true, false, not, ◌&&◌, Option, none, some, List, [], ◌∷◌, ◌++◌, ltb,
  ◌==◌, if◌then◌else◌, filter, find, str_eq,
}

pub record OauthFlow : Type 0 where
  pub state_hash : String
  pub code_verifier : String
  pub purpose : String
  pub user_id : Option ℕ
  pub installation_id : Option ℕ
  pub expires_at : ℕ

pub record Session : Type 0 where
  pub user_id : ℕ
  pub token_hash : String
  pub expires_at : ℕ

pub record User : Type 0 where
  pub id : ℕ
  pub github_user_id : ℕ
  pub github_login : String
  pub avatar_url : Option String

-- `timedelta(seconds=n)`.
abbrev pub seconds : ℕ → ℕ
seconds n = 1_000_000 * n

-- The user of the first session that the join finds; `none` and "" are no tokens.
abbrev pub user_of : Option Session → List User → Option User
user_of none users = none
user_of (some s) users = find (λ (u : User). u.id == s.user_id) users

-- The update or the insertion of a row, for which `new_id` is the random identifier.
unfoldable pub upsert_user : ℕ → ℕ → String → Option String → List User → User × List User
upsert_user new_id github_user_id login avatar_url [] =
    let user : User = record {
      id = new_id;
      github_user_id = github_user_id;
      github_login = login;
      avatar_url = avatar_url;
    } in
    (user, user ∷ [])
upsert_user new_id github_user_id login avatar_url (u ∷ users) =
    let user = record u { github_login = login; avatar_url = avatar_url } in
    let (found, rest) = upsert_user new_id github_user_id login avatar_url users in
    if u.github_user_id == github_user_id then (user, user ∷ users) else (found, u ∷ rest)

module _ (hash : String → String) where
  unfoldable pub create_oauth_flow :
      ℕ → ℕ → String → String → String → Option ℕ → Option ℕ → List OauthFlow → List OauthFlow
  create_oauth_flow now ttl state verifier purpose user_id installation_id flows =
      flows
      ++ record {
        state_hash = hash state;
        code_verifier = verifier;
        purpose = purpose;
        user_id = user_id;
        installation_id = installation_id;
        expires_at = now + seconds ttl;
      }
        ∷ []

  abbrev pub is_live_flow : ℕ → String → OauthFlow → Bool
  is_live_flow now state flow = str_eq flow.state_hash (hash state) && ltb now flow.expires_at

  -- `session.delete(flow)` of the row that the `select` finds first.
  unfoldable pub consume_oauth_flow :
      ℕ → String → List OauthFlow → Option OauthFlow × List OauthFlow
  consume_oauth_flow now state [] = (none, [])
  consume_oauth_flow now state (flow ∷ flows) =
      let (found, rest) = consume_oauth_flow now state flows in
      if is_live_flow now state flow then (some flow, flows) else (found, flow ∷ rest)

  unfoldable pub create_session : ℕ → ℕ → ℕ → String → List Session → List Session
  create_session now ttl user_id raw_token sessions =
      sessions
      ++ record { user_id = user_id; token_hash = hash raw_token; expires_at = now + seconds ttl }
        ∷ []

  abbrev pub is_live_session : ℕ → String → Session → Bool
  is_live_session now raw_token s = str_eq s.token_hash (hash raw_token) && ltb now s.expires_at

  unfoldable pub find_user_for_session : ℕ → Option String → List Session → List User → Option User
  find_user_for_session now none sessions users = none
  find_user_for_session now (some raw_token) sessions users =
      if str_eq raw_token ""
      then none
      else user_of (find (is_live_session now raw_token) sessions) users

  unfoldable pub delete_session : Option String → List Session → List Session
  delete_session none sessions = sessions
  delete_session (some raw_token) sessions =
      if str_eq raw_token ""
      then sessions
      else filter (λ (s : Session). not (str_eq s.token_hash (hash raw_token))) sessions
