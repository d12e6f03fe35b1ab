-- ===== src/Auth/Tests.antt =====
-- A flow that is used twice, and a session.
use showcase_host.Prelude.{ap, ◌≡◌, refl, String, none, some, List, [], ◌∷◌, str_eq}
use showcase_host.Auth.{OauthFlow, User, consume_oauth_flow, create_session, find_user_for_session}
use showcase_host.Auth.SingleUse.{Request, starts, uses, handle_all, consume_oauth_flow-once}

abbrev hash : String → String
hash value = value

abbrev flow : OauthFlow
flow = record {
  state_hash = "s";
  code_verifier = "v";
  purpose = "login";
  user_id = none;
  installation_id = none;
  expires_at = 600_000_000;
}

consume_runs :
    (consume_oauth_flow hash 5 "s" (flow ∷ []) ≡ (some flow, []))
    × (consume_oauth_flow hash 600_000_000 "s" (flow ∷ []) ≡ (none, flow ∷ []))
unfolding consume_oauth_flow
consume_runs = (refl, refl)

first_use : (consume_oauth_flow hash 5 "s" (flow ∷ [])).0 ≡ some flow
unfolding consume_oauth_flow
first_use = refl

abbrev requests : List Request
requests = starts 6 600 "t" "w" "login" none none ∷ uses 7 "s" ∷ []

consume_oauth_flow-once_example :
    (consume_oauth_flow hash 8 "s"
      (handle_all hash requests (consume_oauth_flow hash 5 "s" (flow ∷ [])).1)).0
    ≡ none
consume_oauth_flow-once_example =
    consume_oauth_flow-once hash 5 8 "s" (flow ∷ []) flow requests (tt, tt) first_use
      ((λ e. cc (ap (λ x. str_eq x "s") e)), (tt, tt))

abbrev user : User
user = record { id = 1; github_user_id = 7; github_login = "octocat"; avatar_url = none }

signs_in :
    find_user_for_session hash 9 (some "k") (create_session hash 0 60 1 "k" []) (user ∷ [])
    ≡ some user
unfolding find_user_for_session create_session
signs_in = refl
