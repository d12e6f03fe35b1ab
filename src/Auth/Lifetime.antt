-- ===== src/Auth/Lifetime.antt =====
-- A session lasts until it expires or is deleted.
use showcase_host.Prelude.{
  ℕ, ◌+◌, ◌≡◌, refl, ap, ◌∙◌, inl, inr, String, true, false, not, ◌&&◌, none, some, List, [], ◌∷◌,
  ◌++◌, All, ltb, ◌==◌, if◌then◌else◌, filter, find, Bool-cases, str_eq, str_eq_iff, arith,
}
use showcase_host.Auth.{
  Session, User, seconds, create_session, is_live_session, user_of, find_user_for_session,
  delete_session,
}

module _ (hash : String → String) where
  found_last :
      (t : ℕ) (raw_token : String) (sessions : List Session) (s : Session)
      → All (λ (o : Session). ¬ o.token_hash ≡ hash raw_token) sessions
      → find (is_live_session hash t raw_token) (sessions ++ s ∷ [])
        ≡ (if is_live_session hash t raw_token s then some s else none)
  found_last t raw_token [] s h = refl
  found_last t raw_token (o ∷ sessions) s h =
      elim (Bool-cases (is_live_session hash t raw_token o)) [
        | inl live ↦
            absurd (h.0 ((str_eq_iff o.token_hash (hash raw_token)).0 (ground (arith, live))))
        | inr dead ↦ rw dead (found_last t raw_token sessions s h.1)
      ]

  none_left :
      (t : ℕ) (raw_token : String) (sessions : List Session)
      → find
          (is_live_session hash t raw_token)
          (filter (λ (s : Session). not (str_eq s.token_hash (hash raw_token))) sessions)
        ≡ none
  none_left t raw_token [] = refl
  none_left t raw_token (s ∷ sessions) = elim (Bool-cases (str_eq s.token_hash (hash raw_token))) [
    | inl same ↦ rw same (none_left t raw_token sessions)
    | inr other ↦ rw (other, other) (none_left t raw_token sessions)
  ]

  -- A new token leads to the user that it was made for as long as its time to live lasts, and to nobody
  -- afterwards; once it is deleted, it leads to nobody at any time.
  pub create_session-find_user :
      (now t ttl user_id : ℕ) (raw_token : String) (sessions : List Session) (users : List User)
      → All (λ (o : Session). ¬ o.token_hash ≡ hash raw_token) sessions
      → str_eq raw_token "" ≡ false
      → (find_user_for_session hash t
            (some raw_token)
            (create_session hash now ttl user_id raw_token sessions)
            users
          ≡ (if ltb t (now + seconds ttl)
              then find (λ (u : User). u.id == user_id) users
              else none))
        × (find_user_for_session hash t
              (some raw_token)
              (delete_session hash
                (some raw_token)
                (create_session hash now ttl user_id raw_token sessions))
              users
            ≡ none)
  unfolding find_user_for_session create_session delete_session
  create_session-find_user now t ttl user_id raw_token sessions users fresh named =
      let s : Session = record {
        user_id = user_id;
        token_hash = hash raw_token;
        expires_at = now + seconds ttl;
      } in
      (
        rw named (
            ap (λ f. user_of f users) (found_last t raw_token sessions s fresh)
            ∙ rw ((str_eq_iff (hash raw_token) (hash raw_token)).1 refl)
                (live_user t (now + seconds ttl) s users)),
        rw named (ap (λ f. user_of f users) (none_left t raw_token (sessions ++ s ∷ []))),
      )
    where
      live_user :
          (t limit : ℕ) (s : Session) (users : List User)
          → user_of (if true && ltb t limit then some s else none) users
            ≡ (if ltb t limit then find (λ (u : User). u.id == s.user_id) users else none)
      live_user t limit s users = elim (Bool-cases (ltb t limit)) [
        | inl live ↦ rw live refl
        | inr over ↦ rw over refl
      ]
