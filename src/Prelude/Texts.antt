-- ===== src/Prelude/Texts.antt =====
-- Texts: Python counts and slices a `str` by characters.
pub mod Digits
use Prim.Native.Nat.{ℕ, zero, suc, ◌+◌, ◌/◌, ◌%◌, ◌≤◌, min}
use Prim.Native.Char.{code}
use Prim.Native.String.{String}
use text.Mathlib.Text.{◌==◌}
use text.Mathlib.TextEquality.{eq_iff}
use mathlib.Core.Path.{◌≡◌, refl}
use mathlib.Core.Logic.{◌↔◌}
use mathlib.Core.Bool.{Bool, true, false}
use mathlib.Core.List.{List, [], ◌∷◌}
use showcase_host.Prelude.Tests.{ltb, ◌==◌ as nat_eq, if◌then◌else◌}
use showcase_host.Prelude.Lists.{sum_by}
use native.Mathlib.Omega.{arith}

-- `a == b` on texts.
abbrev pub str_eq : String → String → Bool
str_eq a b = a == b

pub str_eq_iff : (a b : String) → (str_eq a b ≡ true) ↔ (a ≡ b)
str_eq_iff a b = eq_iff a b

-- `len(s)`.
abbrev pub str_len : String → ℕ
str_len String.[] = 0
str_len (String.◌∷◌ c s) = suc (str_len s)

-- `s[:n]`.
abbrev pub str_take : ℕ → String → String
str_take zero s = String.[]
str_take (suc n) String.[] = String.[]
str_take (suc n) (String.◌∷◌ c s) = String.◌∷◌ c (str_take n s)

str_len-take-le : (n : ℕ) (s : String) → str_len (str_take n s) ≤ n
str_len-take-le zero s = omega arith
str_len-take-le (suc n) String.[] = omega arith
str_len-take-le (suc n) (String.◌∷◌ c s) = omega (arith, str_len-take-le n s)

pub str_len-take : (n : ℕ) (s : String) → str_len (str_take n s) ≡ min n (str_len s)
str_len-take zero s = omega arith
str_len-take (suc n) String.[] = omega arith
str_len-take (suc n) (String.◌∷◌ c s) = omega (arith, str_len-take n s)

-- `a + b`.
abbrev pub str_append : String → String → String
str_append String.[] t = t
str_append (String.◌∷◌ c s) t = String.◌∷◌ c (str_append s t)

-- `"".join(parts)`, and what an f-string does with its parts.
abbrev pub concat : List String → String
concat [] = String.[]
concat (s ∷ ss) = str_append s (concat ss)

pub str_len-append : (s t : String) → str_len (str_append s t) ≡ str_len s + str_len t
str_len-append String.[] t = omega arith
str_len-append (String.◌∷◌ c s) t = omega (arith, str_len-append s t)

pub str_len-concat : (ss : List String) → str_len (concat ss) ≡ sum_by str_len ss
str_len-concat [] = omega arith
str_len-concat (s ∷ ss) = omega (arith, str_len-append s (concat ss), str_len-concat ss)

digit : ℕ → String
digit d =
    if nat_eq d 0
    then "0"
    else if nat_eq d 1
    then "1"
    else if nat_eq d 2
    then "2"
    else if nat_eq d 3
    then "3"
    else if nat_eq d 4
    then "4"
    else if nat_eq d 5
    then "5"
    else if nat_eq d 6
    then "6"
    else if nat_eq d 7
    then "7"
    else if nat_eq d 8
    then "8"
    else "9"

-- The digits of a number before `rest`; a number has at most as many digits as its value plus one.
decimal : ℕ → ℕ → String → String
decimal zero n rest = rest
decimal (suc f) n rest =
    let shown = str_append (digit (n % 10)) rest in
    let more = decimal f (n / 10) shown in if ltb n 10 then shown else more

-- `str(n)`.
unfoldable pub str_of : ℕ → String
unfolding digit decimal
str_of n = decimal (suc n) n String.[]

str_of_runs : str_of 1205 ≡ "1205"
unfolding str_of
str_of_runs = refl

-- `a <= b` on texts, which compares code points from the left.
abbrev pub str_leb : String → String → Bool
str_leb String.[] t = true
str_leb (String.◌∷◌ c s) String.[] = false
str_leb (String.◌∷◌ c s) (String.◌∷◌ d t) =
    let rest = str_leb s t in
    if ltb (code c) (code d) then true else if nat_eq (code c) (code d) then rest else false

pub str_leb-total : (s t : String) → str_leb s t ≡ false → str_leb t s ≡ true
str_leb-total String.[] t h = cc
str_leb-total (String.◌∷◌ c s) String.[] h = refl
str_leb-total (String.◌∷◌ c s) (String.◌∷◌ d t) h = ground (arith, str_leb-total s t)
