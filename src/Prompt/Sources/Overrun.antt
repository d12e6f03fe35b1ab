-- ===== src/Prompt/Sources/Overrun.antt =====
-- When a prompt is longer than its limit.
use showcase_host.Prompt.Sources.{prepared_chars, block_chars, footer_chars}
use showcase_host.Prelude.{
  ℕ, ◌+◌, ◌-◌, ◌/◌, ◌<◌, ◌≡◌, refl, ap, inl, inr, true, false, ◌||◌, List, [], ◌∷◌, arith, leb, ltb,
  sum_by, Bool-cases, String, str_len, str_take, str_eq, str_eq_iff, str_len-take,
}
use showcase_host.Prompt.{
  ChatMessage, ChatSource, header, include_sources, message_chars, available_chars, bounded_history,
  build_messages,
}

not_empty : (t : String) → 0 < str_len t → str_eq t "" ≡ false
not_empty t h = elim (Bool-cases (str_eq t "")) [
  | inl e ↦ absurd (omega (arith, ap str_len ((str_eq_iff t "").0 e)))
  | inr e ↦ e
]

not_stopped :
    (available used : ℕ) (t : String)
    → used < available
    → 0 < str_len t
    → leb available used || str_eq t "" ≡ false
not_stopped available used t room pos = ground (arith, not_empty t pos)

-- A first source of which only a part fits is the one source included, and fills what is available.
include_sources-cut :
    (available : ℕ) (source : ChatSource) (sources : List ChatSource)
    → str_len (header source) < available
    → available < str_len (header source) + str_len source.text
    → let (included, blocks) = include_sources available (source ∷ sources) in
      (included ≡ source ∷ []) × (sum_by str_len blocks ≡ available + footer_chars source)
unfolding include_sources
include_sources-cut available source sources room long =
    let n = available - str_len (header source) in
    let taken : str_len (str_take n source.text) ≡ n = omega (arith, str_len-take n source.text) in
    let go : leb available (str_len (header source)) || str_eq (str_take n source.text) "" ≡ false =
      not_stopped available (str_len (header source)) (str_take n source.text) room
        (omega (arith, taken)) in
    let cut : ltb (str_len (str_take n source.text)) (str_len source.text) ≡ true =
      ground (arith, taken) in
    rw (go, cut) (refl, omega (arith, block_chars source n, taken))

-- A first source that does not fit whole makes the prompt longer than `prompt_max_chars`, by its
-- heading and the closing line of that source.
pub prompt_overrun :
    (full_name question : String) (history : List ChatMessage) (source : ChatSource)
    (sources : List ChatSource) (history_max_messages prompt_max_chars : ℕ)
    → let kept = bounded_history history history_max_messages (prompt_max_chars / 3) in
      let available = available_chars prompt_max_chars full_name question kept in
      str_len (header source) < available
      → available < str_len (header source) + str_len source.text
      → let prepared =
          build_messages full_name question history
            (source ∷ sources)
            history_max_messages
            prompt_max_chars in
        (prepared.sources ≡ source ∷ [])
        × (sum_by message_chars prepared.messages ≡ prompt_max_chars + 31 + footer_chars source)
unfolding build_messages available_chars
prompt_overrun full_name question history source sources history_max_messages prompt_max_chars room
      long =
    let kept = bounded_history history history_max_messages (prompt_max_chars / 3) in
    let available = available_chars prompt_max_chars full_name question kept in
    let (one, filled) = include_sources-cut available source sources room long in
    (
      one,
      omega (
        arith,
        filled,
        prepared_chars full_name question history (source ∷ sources) history_max_messages
            prompt_max_chars (λ empty. cc (one, empty)),
      ),
    )
