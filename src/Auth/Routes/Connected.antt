-- ===== src/Auth/Routes/Connected.antt =====
-- What a login through the callback comes to.
use showcase_host.Prelude.{
  ℕ, ◌+◌, ◌≡◌, refl, ap, ◌∙◌, subst, inl, inr, String, false, Option, none, some, some_eq, List,
  All, ltb, if◌then◌else◌, Bool-cases, str_eq,
}
use showcase_host.Prelude.Results.{Result, ok, err, ok_eq, >>=-ok}
use showcase_host.Repositories.{Tables}
use showcase_host.SourceControl.{SourceControlError, InstallError}
use showcase_host.Auth.{
  OauthFlow, User, Session, seconds, upsert_user, consume_oauth_flow, find_user_for_session,
  delete_session,
}
use showcase_host.Auth.SingleUse.{IsAbsent, IsUnique, absent-consume, consumed-IsAbsent}
use showcase_host.Auth.Lifetime.{create_session-find_user}
use showcase_host.Auth.Users.{IsUnused, HasDistinctIds, upsert_user-IsUpserted}
use showcase_host.Auth.Routes.{
  SourceUser, Provider, Site, Answer, connected, installed, from_client, end_install, sign_in,
  by_purpose, with_flow, github_auth_callback,
}

module _ (hash : String → String) (provider : Provider) (now : ℕ) (code state : String)
    (w : Site) where
  -- The state was that of a stored flow, and is used up; its code led to an account, whose user the cookie
  -- finds until it expires.
  pub record IsConnected (t : ℕ) (raw_session : String) (expires : ℕ) (after : Site) : Type 0 where
    pub flow : OauthFlow
    pub consumed : (consume_oauth_flow hash now state w.flows).0 ≡ some flow
    pub token : String
    pub exchanged : provider.exchange_code code flow.code_verifier ≡ ok token
    pub source : SourceUser
    pub account : provider.get_user token ≡ ok source
    pub user : User
    pub same_account : user.github_user_id ≡ source.id
    pub same_name : user.github_login ≡ source.login
    pub finds :
        find_user_for_session hash t (some raw_session) after.sessions after.users
        ≡ (if ltb t expires then some user else none)
    pub signs_out :
        find_user_for_session hash t
          (some raw_session)
          (delete_session hash (some raw_session) after.sessions)
          after.users
        ≡ none
    pub used_up : (consume_oauth_flow hash t state after.flows).0 ≡ none
    pub same_tables : after.tables ≡ w.tables

  -- An answer that connects is that of a login.
  abbrev IsOf : ℕ → Answer × Site → Type 0
  IsOf t (connected raw_session expires, after) = IsConnected t raw_session expires after
  IsOf t (installed, after) = Unit {0}

module _ (hash : String → String) (new_id : ℕ) (w : Site) where
  -- What must hold of the random values, and of the tables.
  pub record IsReady (raw_session : String) : Type 0 where
    pub unique_flows : IsUnique w.flows
    pub distinct_ids : HasDistinctIds w.users
    pub unused_id : IsUnused new_id w.users
    pub unused_token : All (λ (s : Session). ¬ s.token_hash ≡ hash raw_session) w.sessions
    pub some_token : str_eq raw_session "" ≡ false

from_client-ok :
    {A : Type 0} (r : Result SourceControlError A) (a : A) → from_client r ≡ ok a → r ≡ ok a
from_client-ok (ok b) a e = ap ok (ok_eq e)
from_client-ok (err x) a e = absurd (cc e)

not_installed :
    (w after : Site) (r : Result InstallError (Option Tables)) (raw_session : String) (expires : ℕ)
    → ¬ end_install w r ≡ ok (some (connected raw_session expires, after))
not_installed w after (err e) raw_session expires h = cc h
not_installed w after (ok none) raw_session expires h = cc (ok_eq h)
not_installed w after (ok (some tables)) raw_session expires h =
    cc (ap (λ (x : Answer × Site). x.0) (some_eq _ _ (ok_eq h)))

module _ (hash : String → String) (provider : Provider) (fuel now ttl new_id t : ℕ)
    (code state : String) (w : Site) (raw_session : String)
    (ready : IsReady hash new_id w raw_session) where
  sign_in-IsConnected :
      (flow : OauthFlow) (flows : List OauthFlow) (token : String) (source : SourceUser)
      → consume_oauth_flow hash now state w.flows ≡ (some flow, flows)
      → provider.exchange_code code flow.code_verifier ≡ ok token
      → provider.get_user token ≡ ok source
      → IsConnected hash provider now code state w t raw_session
          (now + seconds ttl)
          (sign_in hash now ttl new_id raw_session source (record w { flows = flows })).1
  unfolding sign_in
  sign_in-IsConnected flow flows token source consumed exchanged account =
      let r = upsert_user new_id source.id source.login source.avatar_url w.users in
      let row =
        upsert_user-IsUpserted new_id source.id source.login source.avatar_url w.users
          ready.distinct_ids ready.unused_id in
      let found =
        create_session-find_user hash now t ttl r.0.id raw_session w.sessions r.1 ready.unused_token
          ready.some_token in
      let first = ap (λ (x : Option OauthFlow × List OauthFlow). x.0) consumed in
      record {
        flow = flow;
        consumed = first;
        token = token;
        exchanged = exchanged;
        source = source;
        account = account;
        user = r.0;
        same_account = row.account;
        same_name = row.name;
        finds =
            found.0
            ∙ ap (λ (o : Option User). if ltb t (now + seconds ttl) then o else none) row.found;
        signs_out = found.1;
        used_up = absent-consume hash t state flows (
            subst (λ (x : Option OauthFlow × List OauthFlow). IsAbsent (hash state) x.1) consumed
              (consumed-IsAbsent hash now state w.flows flow ready.unique_flows first));
        same_tables = refl;
      }

  by_purpose-IsConnected :
      (flow : OauthFlow) (flows : List OauthFlow) (token : String) (source : SourceUser)
      (raw : String) (expires : ℕ) (after : Site)
      → consume_oauth_flow hash now state w.flows ≡ (some flow, flows)
      → provider.exchange_code code flow.code_verifier ≡ ok token
      → provider.get_user token ≡ ok source
      → by_purpose hash provider fuel now ttl new_id raw_session code
          (record w { flows = flows })
          flow
          token
          source
        ≡ ok (some (connected raw expires, after))
      → IsConnected hash provider now code state w t raw expires after
  unfolding by_purpose
  by_purpose-IsConnected flow flows token source raw expires after consumed exchanged account =
      elim (Bool-cases (str_eq flow.purpose "install_verify")) [
        | inl installs ↦
            rw installs
              (λ e. absurd (not_installed (record w { flows = flows }) after _ raw expires e))
        | inr logs_in ↦ rw logs_in (λ e.
            subst (IsOf hash provider now code state w t) (some_eq _ _ (ok_eq e))
              (sign_in-IsConnected flow flows token source consumed exchanged account))
      ]

  with_flow-IsConnected :
      (r : Option OauthFlow × List OauthFlow) (raw : String) (expires : ℕ) (after : Site)
      → consume_oauth_flow hash now state w.flows ≡ r
      → with_flow hash provider fuel now ttl new_id raw_session code w r
        ≡ ok (some (connected raw expires, after))
      → IsConnected hash provider now code state w t raw expires after
  with_flow-IsConnected (none, flows) raw expires after consumed e = absurd (cc e)
  with_flow-IsConnected (some flow, flows) raw expires after consumed e =
      let (token, exchanged, rest) =
        >>=-ok (from_client (provider.exchange_code code flow.code_verifier)) _ e in
      let (source, account, end) = >>=-ok (from_client (provider.get_user token)) _ rest in
      by_purpose-IsConnected flow flows token source raw expires after consumed
        (from_client-ok _ token exchanged) (from_client-ok _ source account) end

  -- If the flows have different hashes, the users different identifiers, and the random identifier and
  -- token are new, then a callback that answers with a cookie has used up a stored flow, whose code GitHub
  -- exchanged for an account: at any later or earlier time the cookie leads to a user with the account's
  -- number and name just until it expires or is deleted, the state leads to no flow, and the repositories are as before.
  pub github_auth_callback-IsConnected :
      (raw : String) (expires : ℕ) (after : Site)
      → github_auth_callback hash provider fuel now ttl new_id raw_session code state w
        ≡ ok (some (connected raw expires, after))
      → IsConnected hash provider now code state w t raw expires after
  unfolding github_auth_callback
  github_auth_callback-IsConnected raw expires after =
      with_flow-IsConnected (consume_oauth_flow hash now state w.flows) raw expires after refl
