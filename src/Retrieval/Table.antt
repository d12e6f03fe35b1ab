-- ===== src/Retrieval/Table.antt =====
-- Dictionaries as association lists: what `put` changes, and that it keeps the keys distinct.
use showcase_host.Prelude.{
  ◌≡◌, refl, sym, ap, ◌∙◌, inl, inr, String, true, false, none, some, List, [], ◌∷◌, if◌then◌else◌,
  In, Bool-cases, str_eq, str_eq_iff, arith,
}
use showcase_host.Retrieval.{lookup, put}

pub str_eq_refl : (s : String) → str_eq s s ≡ true
str_eq_refl s = (str_eq_iff s s).1 refl

module _ {A : Type 0} where
  pub put-lookup :
      (key : String) (a : A) (table : List (String × A)) → lookup key (put key a table) ≡ some a
  put-lookup key a [] = rw (str_eq_refl key) refl
  put-lookup key a ((k, b) ∷ rest) = elim (Bool-cases (str_eq k key)) [
    | inl here ↦ rw (here, here) refl
    | inr later ↦ rw (later, later) (put-lookup key a rest)
  ]

  pub put-other :
      (key id : String) (a : A) (table : List (String × A))
      → str_eq key id ≡ false
      → lookup id (put key a table) ≡ lookup id table
  put-other key id a [] other = rw other refl
  put-other key id a ((k, b) ∷ rest) other = elim (Bool-cases (str_eq k key)) [
    | inl here ↦
        let differs = ap (λ x. str_eq x id) ((str_eq_iff k key).0 here) ∙ other in
        rw (here, differs) refl
    | inr later ↦
        rw later (ap (λ r. if str_eq k id then some b else r) (put-other key id a rest other))
  ]

  -- No key stands twice.
  abbrev pub IsDistinct : List (String × A) → Type 0
  IsDistinct [] = Unit {0}
  IsDistinct ((k, a) ∷ rest) = (lookup k rest ≡ none) × IsDistinct rest

  pub put-IsDistinct :
      (key : String) (a : A) (table : List (String × A))
      → IsDistinct table
      → IsDistinct (put key a table)
  put-IsDistinct key a [] h = (refl, tt)
  put-IsDistinct key a ((k, b) ∷ rest) h = elim (Bool-cases (str_eq k key)) [
    | inl here ↦ rw here h
    | inr later ↦ rw later (
      put-other key k a rest (ground (arith, later, str_eq_iff k key, str_eq_iff key k)) ∙ h.0,
      put-IsDistinct key a rest h.1,
    )
  ]

  pub IsDistinct-lookup :
      (key : String) (a : A) (table : List (String × A))
      → IsDistinct table
      → In (key, a) table
      → lookup key table ≡ some a
  IsDistinct-lookup key a [] h m = absurd m
  IsDistinct-lookup key a ((k, b) ∷ rest) h (inl here) =
      rw (← ap (λ x. x.0) here) (rw (str_eq_refl key) (ap some (sym (ap (λ x. x.1) here))))
  IsDistinct-lookup key a ((k, b) ∷ rest) h (inr later) =
      let found = IsDistinct-lookup key a rest h.1 later in
      elim (Bool-cases (str_eq k key)) [
        | inl same ↦ absurd (cc (found, h.0, ap (λ x. lookup x rest) ((str_eq_iff k key).0 same)))
        | inr other ↦ rw other found
      ]
