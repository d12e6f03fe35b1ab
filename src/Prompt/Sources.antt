-- ===== src/Prompt/Sources.antt =====
-- The sources that `build_messages` includes, and how long the prompt gets.
pub mod Overrun
use showcase_host.Prelude.{
  ℕ, ◌+◌, ◌-◌, ◌/◌, ◌≤◌, ◌<◌, ◌≡◌, ◌≢◌, refl, ap, ◌⊎◌, inl, inr, true, false, ◌||◌, List, [], ◌∷◌,
  arith, leb, ltb, sum_by, sum_by-append, Bool-cases, String, str_len, str_take, str_eq, str_eq_iff,
  concat, str_len-append, str_len-concat, str_len-take,
}
use showcase_host.Prompt.{
  ChatMessage, ChatSource, PreparedChat, Role, rules, header, footer, include_sources, context_of,
  message_chars, available_chars, bounded_history, build_messages,
}

-- The block of a source of whose text the first `n` characters are quoted.
abbrev pub block : ChatSource → ℕ → String
block source n = concat (header source ∷ str_take n source.text ∷ footer source ∷ [])

-- The included sources are the first ones, in order. Each block quotes a nonempty beginning of its
-- source's text, within the characters available; only the last may be cut, and then nothing is left.
abbrev pub Quotes : ℕ → List ChatSource → List ChatSource → List String → Type 0
Quotes available sources [] [] = Unit
Quotes available (source ∷ sources) (s ∷ included) (b ∷ blocks) =
    (s ≡ source)
    × ((n : ℕ) × (b ≡ block source n)
        × (0 < n)
        × (str_len (header source) + n ≤ available)
        × ((str_len source.text ≤ n)
              × Quotes (available - (str_len (header source) + str_len source.text)) sources
                  included blocks
            ⊎ ((n < str_len source.text)
                × (str_len (header source) + n ≡ available)
                × (included ≡ [])
                × (blocks ≡ []))))
Quotes available sources included blocks = ⊥

nonempty : (s : String) → str_eq s "" ≡ false → 0 < str_len s
nonempty String.[] h = cc
nonempty (String.◌∷◌ c s) h = omega arith

cut_length :
    (n : ℕ) (s : String)
    → ltb (str_len (str_take n s)) (str_len s) ≡ true
    → (n < str_len s) × (str_len (str_take n s) ≡ n)
cut_length n s h = ground (arith, str_len-take n s)

whole_length :
    (n : ℕ) (s : String)
    → ltb (str_len (str_take n s)) (str_len s) ≡ false
    → (str_len s ≤ n) × (str_len (str_take n s) ≡ str_len s)
whole_length n s h = ground (arith, str_len-take n s)

quoted_length :
    (available : ℕ) (source : ChatSource)
    → let n = available - str_len (header source) in
      leb available (str_len (header source)) || str_eq (str_take n source.text) "" ≡ false
      → (0 < n) × (str_len (header source) + n ≡ available)
quoted_length available source h = ground arith

pub include_sources-Quotes :
    (available : ℕ) (sources : List ChatSource)
    → let (included, blocks) = include_sources available sources in
      Quotes available sources included blocks
unfolding include_sources
include_sources-Quotes available [] = tt
include_sources-Quotes available (source ∷ sources) =
    elim (Bool-cases
      (leb available (str_len (header source)) || str_eq (str_take n source.text) "")) [
        | inl stop ↦ rw stop tt
        | inr go ↦
            let (pos, budget) = quoted_length available source go in
            rw go (
              refl,
              (
                n,
                refl,
                pos,
                omega arith,
                elim (Bool-cases (ltb (str_len (str_take n source.text)) (str_len source.text))) [
                  | inl cut ↦ rw cut (inr ((cut_length n source.text cut).0, budget, refl, refl))
                  | inr whole ↦
                      let (fits, same) = whole_length n source.text whole in
                      rw (whole, same)
                        (inl (
                          fits,
                          include_sources-Quotes
                              (available - (str_len (header source) + str_len source.text)) sources,
                        ))
                ],
              ),
            )
      ]
  where
    n : ℕ
    n = available - str_len (header source)

pub footer_chars : ChatSource → ℕ
footer_chars source = str_len (footer source)

block_chars :
    (source : ChatSource) (n : ℕ)
    → str_len (block source n)
      ≡ str_len (header source) + str_len (str_take n source.text) + footer_chars source
unfolding footer_chars
block_chars source n =
    omega (arith, str_len-concat (header source ∷ str_take n source.text ∷ footer source ∷ []))

Quotes-chars :
    (available : ℕ) (sources included : List ChatSource) (blocks : List String)
    → Quotes available sources included blocks
    → sum_by str_len blocks ≤ available + sum_by footer_chars included
Quotes-chars available sources [] [] q = omega arith
Quotes-chars available [] (s ∷ included) blocks q = absurd q
Quotes-chars available sources [] (b ∷ blocks) q = absurd q
Quotes-chars available (source ∷ sources) (s ∷ included) [] q = absurd q
Quotes-chars available (source ∷ sources) (s ∷ included) (b ∷ blocks)
      (e, (n, eb, pos, fits, inl (whole, rest))) =
    omega (
      arith,
      ap footer_chars e,
      ap str_len eb,
      block_chars source n,
      str_len-take n source.text,
      Quotes-chars (available - (str_len (header source) + str_len source.text)) sources included
          blocks rest,
    )
Quotes-chars available (source ∷ sources) (s ∷ included) (b ∷ blocks)
      (e, (n, eb, pos, fits, inr (cut, all_used, no_more, no_blocks))) =
    omega (
      arith,
      ap footer_chars e,
      ap str_len eb,
      block_chars source n,
      str_len-take n source.text,
      ap (sum_by footer_chars) no_more,
      ap (sum_by str_len) no_blocks,
    )

Quotes-pos :
    (available : ℕ) (sources included : List ChatSource) (blocks : List String)
    → Quotes available sources included blocks
    → included ≢ []
    → 0 < available
Quotes-pos available sources [] blocks q ne = absurd (ne refl)
Quotes-pos available [] (s ∷ included) blocks q ne = absurd q
Quotes-pos available (source ∷ sources) (s ∷ included) [] q ne = absurd q
Quotes-pos available (source ∷ sources) (s ∷ included) (b ∷ blocks) (e, (n, eb, pos, fits, rest))
      ne =
    omega arith

context_chars :
    (included : List ChatSource) (blocks : List String)
    → included ≢ []
    → str_len (context_of included blocks) ≡ 31 + sum_by str_len blocks
unfolding context_of
context_chars [] blocks ne = absurd (ne refl)
context_chars (s ∷ included) blocks ne = omega (arith, str_len-concat blocks)

module _ (full_name question : String) (history : List ChatMessage) (sources : List ChatSource)
    (history_max_messages prompt_max_chars : ℕ) where
  abbrev pub prepared : PreparedChat
  prepared = build_messages full_name question history sources history_max_messages prompt_max_chars

  abbrev kept : List ChatMessage
  kept = bounded_history history history_max_messages (prompt_max_chars / 3)

  abbrev available : ℕ
  available = available_chars prompt_max_chars full_name question kept

  prepared_chars :
      prepared.sources ≢ []
      → sum_by message_chars prepared.messages
        ≡ str_len (rules full_name)
          + 31
          + sum_by str_len (include_sources available sources).1
          + sum_by message_chars kept
          + str_len question
  unfolding build_messages
  prepared_chars ne = omega (
    arith,
    str_len-append (rules full_name)
        (context_of (include_sources available sources).0 (include_sources available sources).1),
    context_chars (include_sources available sources).0 (include_sources available sources).1 ne,
    sum_by-append message_chars kept (record { role = Role.user; content = question } ∷ []),
  )

  -- A prompt with sources is longer than `prompt_max_chars` by its heading and the sources' closing
  -- lines at most.
  pub prompt-le :
      prepared.sources ≢ []
      → sum_by message_chars prepared.messages
        ≤ prompt_max_chars + 31 + sum_by footer_chars prepared.sources
  unfolding build_messages available_chars
  prompt-le ne =
      let quotes = include_sources-Quotes available sources in
      omega (
        arith,
        prepared_chars ne,
        Quotes-pos available sources _ _ quotes ne,
        Quotes-chars available sources _ _ quotes,
      )
