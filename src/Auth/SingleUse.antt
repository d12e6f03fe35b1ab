-- ===== src/Auth/SingleUse.antt =====
-- A state is consumed at most once.
use showcase_host.Prelude.{
  subst, ℕ, ◌≡◌, refl, inl, inr, String, Option, none, some, List, [], ◌∷◌, All, All-append,
  Bool-cases, str_eq_iff, arith,
}
use showcase_host.Auth.{OauthFlow, create_oauth_flow, is_live_flow, consume_oauth_flow}

-- No flow has the hash.
abbrev pub IsAbsent : String → List OauthFlow → Type 0
IsAbsent h flows = All (λ (f : OauthFlow). ¬ f.state_hash ≡ h) flows

-- No two flows have the same hash.
abbrev pub IsUnique : List OauthFlow → Type 0
IsUnique [] = Unit {0}
IsUnique (f ∷ flows) = IsAbsent f.state_hash flows × IsUnique flows

-- What requests do to the flows: start one, with a state that is not stored yet, or use one up.
pub data Request : Type 0 where
  starts : ℕ → ℕ → String → String → String → Option ℕ → Option ℕ → Request
  uses : ℕ → String → Request

module _ (hash : String → String) where
  unfoldable pub handle : Request → List OauthFlow → List OauthFlow
  handle (starts now ttl state verifier purpose user_id installation_id) flows =
      create_oauth_flow hash now ttl state verifier purpose user_id installation_id flows
  handle (uses now state) flows = (consume_oauth_flow hash now state flows).1

  unfoldable pub handle_all : List Request → List OauthFlow → List OauthFlow
  handle_all [] flows = flows
  handle_all (r ∷ requests) flows = handle_all requests (handle r flows)

  -- The request starts no flow with the hash.
  abbrev IsOther : String → Request → Type 0
  IsOther h (starts now ttl state verifier purpose user_id installation_id) = ¬ hash state ≡ h
  IsOther h (uses now state) = Unit {0}

  consume-IsAbsent :
      (now : ℕ) (state h : String) (flows : List OauthFlow)
      → IsAbsent h flows
      → IsAbsent h (consume_oauth_flow hash now state flows).1
  unfolding consume_oauth_flow
  consume-IsAbsent now state h [] absent = tt
  consume-IsAbsent now state h (f ∷ flows) absent =
      elim (Bool-cases (is_live_flow hash now state f)) [
        | inl live ↦ rw live absent.1
        | inr dead ↦ rw dead (absent.0, consume-IsAbsent now state h flows absent.1)
      ]

  pub absent-consume :
      (now : ℕ) (state : String) (flows : List OauthFlow)
      → IsAbsent (hash state) flows
      → (consume_oauth_flow hash now state flows).0 ≡ none
  unfolding consume_oauth_flow
  absent-consume now state [] absent = refl
  absent-consume now state (f ∷ flows) absent = elim (Bool-cases (is_live_flow hash now state f)) [
    | inl live ↦ absurd (absent.0 ((str_eq_iff f.state_hash (hash state)).0 (ground (arith, live))))
    | inr dead ↦ rw dead (absent-consume now state flows absent.1)
  ]

  -- The flow that was found was the only one with its hash.
  pub consumed-IsAbsent :
      (now : ℕ) (state : String) (flows : List OauthFlow) (flow : OauthFlow)
      → IsUnique flows
      → (consume_oauth_flow hash now state flows).0 ≡ some flow
      → IsAbsent (hash state) (consume_oauth_flow hash now state flows).1
  unfolding consume_oauth_flow
  consumed-IsAbsent now state [] flow unique = λ e. tt
  consumed-IsAbsent now state (f ∷ flows) flow unique =
      elim (Bool-cases (is_live_flow hash now state f)) [
        | inl live ↦ rw live (λ e.
            subst (λ h. IsAbsent h flows)
              ((str_eq_iff f.state_hash (hash state)).0 (ground (arith, live))) unique.0)
        | inr dead ↦ rw dead (λ e. (
          (λ same.
              cc (e, absent-consume now state flows (subst (λ h. IsAbsent h flows) same unique.0))),
          consumed-IsAbsent now state flows flow unique.1 e,
        ))
      ]

  handle_all-IsAbsent :
      (h : String) (requests : List Request) (flows : List OauthFlow)
      → All (IsOther h) requests
      → IsAbsent h flows
      → IsAbsent h (handle_all requests flows)
  unfolding handle_all handle create_oauth_flow
  handle_all-IsAbsent h [] flows other absent = absent
  handle_all-IsAbsent h (starts now ttl state verifier purpose user_id installation_id ∷ requests)
        flows other absent =
      handle_all-IsAbsent h requests _ other.1
        (All-append (λ (f : OauthFlow). ¬ f.state_hash ≡ h) flows _ absent (other.0, tt))
  handle_all-IsAbsent h (uses now state ∷ requests) flows other absent =
      handle_all-IsAbsent h requests (consume_oauth_flow hash now state flows).1 other.1
        (consume-IsAbsent now state h flows absent)

  -- Once a state has been consumed, no later request consumes it again, whatever flows are started and
  -- consumed in between, unless a flow with the same hash is started.
  pub consume_oauth_flow-once :
      (now later : ℕ) (state : String) (flows : List OauthFlow) (flow : OauthFlow)
      (requests : List Request)
      → IsUnique flows
      → (consume_oauth_flow hash now state flows).0 ≡ some flow
      → All (IsOther (hash state)) requests
      → (consume_oauth_flow hash later state
          (handle_all requests (consume_oauth_flow hash now state flows).1)).0
        ≡ none
  consume_oauth_flow-once now later state flows flow requests unique e other =
      absent-consume later state (handle_all requests (consume_oauth_flow hash now state flows).1) (
        handle_all-IsAbsent (hash state) requests (consume_oauth_flow hash now state flows).1 other
          (consumed-IsAbsent now state flows flow unique e))
