-- ===== src/Snapshots/Paths.antt =====
-- The parts of a member's name that extraction accepts stay below the workspace.
use Prim.Native.Char.{code}
use showcase_host.Prelude.{
  String, ◌≡◌, refl, Bool, true, false, not, ◌||◌, List, [], ◌∷◌, arith, ◌==◌, any, filter, All,
  All-filter, str_eq, Bool-cases, inl, inr,
}
use showcase_host.Snapshots.{has_char, split_slash, pure_parts}

-- One name below a directory: not "..", "." or empty, and with no separator in it.
pub record IsSafePart (p : String) : Type 0 where
  pub not_parent : str_eq ".." p ≡ false
  pub not_here : str_eq p "." ≡ false
  pub not_empty : str_eq p "" ≡ false
  pub no_slash : has_char b'/' p ≡ false
  pub no_backslash : has_char b'\\' p ≡ false

abbrev IsPlain : String → Type 0
IsPlain p = (has_char b'/' p ≡ false) × (has_char b'\\' p ≡ false)

split_slash-IsPlain :
    (name : String)
    → has_char b'\\' name ≡ false
    → IsPlain (split_slash name).0 × All IsPlain (split_slash name).1
split_slash-IsPlain String.[] h = ((refl, refl), tt)
split_slash-IsPlain (String.◌∷◌ c s) h =
    let rest : has_char b'\\' s ≡ false = ground arith in
    let (first, others) = split_slash-IsPlain s rest in
    elim (Bool-cases (code c == b'/')) [
      | inl slash ↦ rw slash ((refl, refl), (first, others))
      | inr other ↦ rw other ((ground (arith, first.0), ground (arith, first.1)), others)
    ]

All-any : (p : String → Bool) (xs : List String) → any p xs ≡ false → All (λ x. p x ≡ false) xs
All-any p [] h = tt
All-any p (x ∷ xs) h = ground (arith, All-any p xs)

All-kept : {A : Type 0} (p : A → Bool) (xs : List A) → All (λ x. p x ≡ true) (filter p xs)
All-kept p [] = tt
All-kept p (x ∷ xs) = ground (arith, All-kept p xs)

All-zip :
    {A : Type 0} (P Q R : A → Type 0)
    → ((a : A) → P a → Q a → R a)
    → (xs : List A) → All P xs
    → All Q xs
    → All R xs
All-zip P Q R f [] p q = tt
All-zip P Q R f (x ∷ xs) p q = (f x p.0 q.0, All-zip P Q R f xs p.1 q.1)

-- The parts of a name without a backslash, none of which is "..".
pub pure_parts-IsSafePart :
    (name : String)
    → any (str_eq "..") (pure_parts name) ≡ false
    → has_char b'\\' name ≡ false
    → All IsSafePart (pure_parts name)
unfolding pure_parts
pure_parts-IsSafePart name up back =
    All-zip IsKept IsBelow IsSafePart (λ p kept below. safe p kept below.0 below.1)
      (pure_parts name) (All-kept is_kept all_parts)
      (All-zip IsPlain (λ p. str_eq ".." p ≡ false) IsBelow (λ p plain no_up. (plain, no_up))
        (pure_parts name) (All-filter IsPlain is_kept all_parts (split_slash-IsPlain name back))
        (All-any (str_eq "..") (pure_parts name) up))
  where
    all_parts : List String
    all_parts = (split_slash name).0 ∷ (split_slash name).1

    is_kept : String → Bool
    is_kept p = not (str_eq p "" || str_eq p ".")

    IsKept : String → Type 0
    IsKept p = is_kept p ≡ true

    IsBelow : String → Type 0
    IsBelow p = IsPlain p × (str_eq ".." p ≡ false)

    safe :
        (p : String)
        → not (str_eq p "" || str_eq p ".") ≡ true
        → IsPlain p
        → str_eq ".." p ≡ false
        → IsSafePart p
    safe p kept plain no_up = record {
      not_parent = no_up;
      not_here = ground arith;
      not_empty = ground arith;
      no_slash = plain.0;
      no_backslash = plain.1;
    }
