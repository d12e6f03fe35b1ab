-- ===== src/Prelude/Texts/Digits.antt =====
-- The decimal text of a number consists of digits.
use Prim.Native.Nat.{ℕ, zero, suc, ◌/◌, ◌%◌, ◌≤◌}
use Prim.Native.Char.{code}
use Prim.Native.String.{String}
use mathlib.Core.Path.{◌≡◌, refl}
use mathlib.Core.Bool.{Bool, true, false, ◌&&◌}
use showcase_host.Prelude.Tests.{ltb, leb, ◌==◌ as nat_eq, if◌then◌else◌}
use showcase_host.Prelude.Texts.{str_append, str_len, str_len-append, str_of, digit, decimal}
use native.Mathlib.Omega.{arith}

abbrev pub all_digits : String → Bool
all_digits String.[] = true
all_digits (String.◌∷◌ c s) = leb 48 (code c) && leb (code c) 57 && all_digits s

all_digits-append :
    (s t : String) → all_digits s ≡ true → all_digits t ≡ true → all_digits (str_append s t) ≡ true
all_digits-append String.[] t a b = b
all_digits-append (String.◌∷◌ c s) t a b =
    let rest = all_digits-append s t (ground (arith, a)) b in ground (arith, a, rest)

-- One or more digits.
abbrev pub IsDecimal : String → Type 0
IsDecimal s = (all_digits s ≡ true) × (1 ≤ str_len s)

IsDecimal-append : (s t : String) → IsDecimal s → all_digits t ≡ true → IsDecimal (str_append s t)
IsDecimal-append s t a b = (all_digits-append s t a.0 b, omega (arith, a.1, str_len-append s t))

either : (b : Bool) (s t : String) → IsDecimal s → IsDecimal t → IsDecimal (if b then s else t)
either true s t a b = a
either false s t a b = b

digit-IsDecimal : (d : ℕ) → IsDecimal (digit d)
unfolding digit
digit-IsDecimal d =
    either (nat_eq d 0) _ _ (refl, omega arith)
      (either (nat_eq d 1) _ _ (refl, omega arith)
        (either (nat_eq d 2) _ _ (refl, omega arith)
          (either (nat_eq d 3) _ _ (refl, omega arith)
            (either (nat_eq d 4) _ _ (refl, omega arith)
              (either (nat_eq d 5) _ _ (refl, omega arith)
                (either (nat_eq d 6) _ _ (refl, omega arith)
                  (either (nat_eq d 7) _ _ (refl, omega arith)
                    (either (nat_eq d 8) _ _ (refl, omega arith) (refl, omega arith)))))))))

decimal-IsDecimal :
    (f n : ℕ) (rest : String) → all_digits rest ≡ true → IsDecimal (decimal (suc f) n rest)
unfolding decimal
decimal-IsDecimal zero n rest h =
    let shown = IsDecimal-append (digit (n % 10)) rest (digit-IsDecimal (n % 10)) h in
    either (ltb n 10) _ _ shown shown
decimal-IsDecimal (suc f) n rest h =
    let shown = IsDecimal-append (digit (n % 10)) rest (digit-IsDecimal (n % 10)) h in
    either (ltb n 10) _ _ shown
      (decimal-IsDecimal f (n / 10) (str_append (digit (n % 10)) rest) shown.0)

pub str_of-IsDecimal : (n : ℕ) → IsDecimal (str_of n)
unfolding str_of
str_of-IsDecimal n = decimal-IsDecimal n n String.[] refl
