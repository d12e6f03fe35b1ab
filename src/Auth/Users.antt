-- ===== src/Auth/Users.antt =====
-- The user that is updated or inserted is the one that the table has for its identifier.
use showcase_host.Prelude.{
  ℕ, ◌≡◌, refl, sym, inl, inr, String, Option, some, List, [], ◌∷◌, All, find, ◌==◌, ==_iff,
  Bool-cases,
}
use showcase_host.Auth.{User, upsert_user}

-- No user has the identifier.
abbrev pub IsUnused : ℕ → List User → Type 0
IsUnused id users = All (λ (u : User). ¬ u.id ≡ id) users

abbrev pub HasDistinctIds : List User → Type 0
HasDistinctIds [] = Unit {0}
HasDistinctIds (u ∷ users) = IsUnused u.id users × HasDistinctIds users

module _ (new_id github_user_id : ℕ) (login : String) (avatar_url : Option String) where
  upsert_user-other :
      (id : ℕ) (users : List User)
      → IsUnused id users
      → ¬ new_id ≡ id
      → ¬ (upsert_user new_id github_user_id login avatar_url users).0.id ≡ id
  unfolding upsert_user
  upsert_user-other id [] unused fresh = fresh
  upsert_user-other id (u ∷ users) unused fresh =
      elim (Bool-cases (u.github_user_id == github_user_id)) [
        | inl here ↦ rw here unused.0
        | inr later ↦ rw later (upsert_user-other id users unused.1 fresh)
      ]

  -- The row of an account: the user has its number and name, and is found by the identifier.
  pub record IsUpserted (r : User × List User) : Type 0 where
    pub account : r.0.github_user_id ≡ github_user_id
    pub name : r.0.github_login ≡ login
    pub found : find (λ (u : User). u.id == r.0.id) r.1 ≡ some r.0

  skip_other :
      (u : User) (r : User × List User) → ¬ r.0.id ≡ u.id → IsUpserted r → IsUpserted (r.0, u ∷ r.1)
  skip_other u r other h = record {
    account = h.account;
    name = h.name;
    found = elim (Bool-cases (u.id == r.0.id)) [
      | inl same ↦ absurd (other (sym ((==_iff u.id r.0.id).0 same)))
      | inr differs ↦ rw differs h.found
    ];
  }

  pub upsert_user-IsUpserted :
      (users : List User)
      → HasDistinctIds users
      → IsUnused new_id users
      → IsUpserted (upsert_user new_id github_user_id login avatar_url users)
  unfolding upsert_user
  upsert_user-IsUpserted [] distinct unused = record {
    account = refl;
    name = refl;
    found = rw ((==_iff new_id new_id).1 refl) refl;
  }
  upsert_user-IsUpserted (u ∷ users) distinct unused =
      elim (Bool-cases (u.github_user_id == github_user_id)) [
        | inl here ↦ rw here (record {
          account = (==_iff u.github_user_id github_user_id).0 here;
          name = refl;
          found = rw ((==_iff u.id u.id).1 refl) refl;
        })
        | inr later ↦ rw later (
            skip_other u (upsert_user new_id github_user_id login avatar_url users)
              (upsert_user-other u.id users distinct.0 (λ e. unused.0 (sym e)))
              (upsert_user-IsUpserted users distinct.1 unused.1))
      ]
