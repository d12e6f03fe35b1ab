-- ===== src/Snapshots/Keys/Plain.antt =====
-- Texts of digits are plain names.
use showcase_host.Prelude.{
  String, ◌≡◌, refl, sym, ap, ◌∙◌, true, false, inl, inr, Bool-cases, str_eq, str_eq_iff, IsDecimal,
  all_digits, str_len, ℕ, ltb, arith,
}
use showcase_host.Snapshots.{has_char}
use showcase_host.Snapshots.Paths.{IsSafePart}

all_digits-no_char :
    (k : ℕ) (s : String) → ltb k 48 ≡ true → all_digits s ≡ true → has_char k s ≡ false
all_digits-no_char k String.[] small h = refl
all_digits-no_char k (String.◌∷◌ c s) small h =
    let rest = all_digits-no_char k s small (ground (arith, h)) in ground (arith, h, rest, small)

all_digits-no_backslash : (s : String) → all_digits s ≡ true → has_char b'\\' s ≡ false
all_digits-no_backslash String.[] h = refl
all_digits-no_backslash (String.◌∷◌ c s) h =
    let rest = all_digits-no_backslash s (ground (arith, h)) in ground (arith, h, rest)

differs : (s t : String) → ¬ s ≡ t → str_eq s t ≡ false
differs s t h = elim (Bool-cases (str_eq s t)) [
  | inl same ↦ absurd (h ((str_eq_iff s t).0 same))
  | inr other ↦ other
]

pub IsDecimal-IsSafePart : (s : String) → IsDecimal s → IsSafePart s
IsDecimal-IsSafePart s h = record {
  not_parent = differs ".." s (λ e. cc (ap all_digits e ∙ h.0));
  not_here = differs s "." (λ e. cc (sym (ap all_digits e) ∙ h.0));
  not_empty = differs s "" (λ e. omega (arith, ap str_len e, h.1));
  no_slash = all_digits-no_char b'/' s refl h.0;
  no_backslash = all_digits-no_backslash s h.0;
}
