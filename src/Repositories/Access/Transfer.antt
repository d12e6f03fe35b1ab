-- ===== src/Repositories/Access/Transfer.antt =====
-- A repository that moves to another installation has no other readers.
use showcase_host.Prelude.{
  ℕ, false, not, some, List, [], ◌∷◌, ◌++◌, ◌≡◌, ap, ◌⊎◌, ◌==◌, ==_iff, any, filter, find, In,
  In-filter, inl, inr, Bool-cases, arith,
}
use showcase_host.Repositories.{
  SourceRepository, Repository, Tables, is_pair, add_association, has_github_id,
  synchronize_repository,
}

none_left :
    (id other : ℕ) (pairs : List (ℕ × ℕ)) → ¬ (In (other, id) (filter (λ p. not (p.1 == id)) pairs))
none_left id other pairs m =
    let (_, kept) = In-filter (λ (p : ℕ × ℕ). not (p.1 == id)) (other, id) pairs m in
    absurd (ground (arith, kept, ==_iff id id))

In-append_one : {A : Type 0} (a b : A) (xs : List A) → In a (xs ++ b ∷ []) → In a xs ⊎ (a ≡ b)
In-append_one a b [] (inl e) = inr e
In-append_one a b [] (inr m) = absurd m
In-append_one a b (x ∷ xs) (inl e) = inl (inl e)
In-append_one a b (x ∷ xs) (inr m) = elim (In-append_one a b xs m) [
  | inl k ↦ inl (inr k)
  | inr e ↦ inr e
]

only_reader :
    (user id other : ℕ) (pairs : List (ℕ × ℕ))
    → In (other, id) (add_association user id (filter (λ p. not (p.1 == id)) pairs))
    → other ≡ user
only_reader user id other pairs =
    let left = filter (λ (p : ℕ × ℕ). not (p.1 == id)) pairs in
    elim (Bool-cases (any (is_pair user id) left)) [
      | inl known ↦ rw known (λ m. absurd (none_left id other pairs m))
      | inr unknown ↦ rw unknown (λ m. elim (In-append_one (other, id) (user, id) left m) [
        | inl k ↦ absurd (none_left id other pairs k)
        | inr e ↦ ap (λ x. x.0) e
      ])
    ]

-- A repository that is found for another installation is left with one reader, the user.
transfer_revokes :
    (user installation_id : ℕ) (source : SourceRepository) (t : Tables) (r : Repository)
    → find (has_github_id source.id) t.repositories ≡ some r
    → (r.installation_id == installation_id) ≡ false
    → (other : ℕ)
    → In
        (other, r.id)
        (synchronize_repository user installation_id source t
          (find (has_github_id source.id) t.repositories)).0.user_repositories
    → other ≡ user
unfolding synchronize_repository
transfer_revokes user installation_id source t r found moved other =
    rw (found, moved) (only_reader user r.id other t.user_repositories)
