-- ===== src/Prompt/History.antt =====
-- `bounded_history` keeps the longest run of newest turns that fits.
use showcase_host.Prelude.{
  subst, Bool, ℕ, ◌+◌, ◌*◌, ◌≤◌, ◌≡◌, refl, sym, ◌∙◌, ap, ◌⊎◌, inl, inr, true, false, ◌||◌, List,
  [], ◌∷◌, ◌++◌, reverse, append-nil, append_assoc, reverse-append, reverse-reverse, arith, ltb,
  length, length-append, sum_by, Bool-cases,
}
use showcase_host.Prompt.{
  Turn, ChatMessage, turn_chars, complete_turns, select_turns, messages_of, bounded_history,
}

abbrev Fits : ℕ → ℕ → List Turn → Type 0
Fits max_messages max_chars turns =
    (length turns * 2 ≤ max_messages) × (sum_by turn_chars turns ≤ max_chars)

-- The kept turns are the newest ones, they fit, and one turn more would not.
pub record Newest (max_messages max_chars : ℕ) (turns kept : List Turn) : Type 0 where
  pub older : List Turn
  pub split : turns ≡ older ++ kept
  pub fits : Fits max_messages max_chars kept
  pub longest :
      (older ≡ [])
      ⊎ ((before : List Turn) × (turn : Turn) × (older ≡ before ++ turn ∷ [])
          × ¬ Fits max_messages max_chars (turn ∷ kept))

Newest-along :
    {max_messages max_chars : ℕ} {turns turns' kept : List Turn}
    → turns ≡ turns'
    → Newest max_messages max_chars turns kept
    → Newest max_messages max_chars turns' kept
Newest-along {max_messages} {max_chars} {kept} e h =
    subst (λ all. Newest max_messages max_chars all kept) e h

reverse-cons :
    (turn : Turn) (turns : List Turn) → reverse (turn ∷ turns) ≡ reverse turns ++ turn ∷ []
reverse-cons turn turns = reverse-append (turn ∷ []) turns

reverse-append_one :
    (turn : Turn) (turns kept : List Turn)
    → reverse turns ≡ kept
    → reverse (turns ++ turn ∷ []) ≡ turn ∷ kept
reverse-append_one turn turns kept e = reverse-append turns (turn ∷ []) ∙ ap (λ r. turn ∷ r) e

module _ (max_messages max_chars : ℕ) where
  abbrev is_full : Turn → ℕ → ℕ → Bool
  is_full turn count used =
      ltb max_messages (count * 2 + 2) || ltb max_chars (used + turn_chars turn)

  full-not-Fits :
      (turn : Turn) (kept : List Turn) (count used : ℕ)
      → count ≡ length kept
      → used ≡ sum_by turn_chars kept
      → is_full turn count used ≡ true
      → ¬ Fits max_messages max_chars (turn ∷ kept)
  full-not-Fits turn kept count used l u full fits = ground (arith, fits.0, fits.1)

  room-Fits :
      (turn : Turn) (kept : List Turn) (count used : ℕ)
      → count ≡ length kept
      → used ≡ sum_by turn_chars kept
      → is_full turn count used ≡ false
      → Fits max_messages max_chars (turn ∷ kept)
  room-Fits turn kept count used l u room = ground arith

  select_turns-Newest :
      (turns selected kept : List Turn) (used : ℕ)
      → reverse selected ≡ kept
      → length selected ≡ length kept
      → used ≡ sum_by turn_chars kept
      → Fits max_messages max_chars kept
      → Newest max_messages max_chars
          (reverse turns ++ kept)
          (reverse (select_turns max_messages max_chars turns selected used))
  unfolding select_turns
  select_turns-Newest [] selected kept used e l u fits =
      rw e (record { older = []; split = refl; fits = fits; longest = inl refl })
  select_turns-Newest (turn ∷ turns) selected kept used e l u fits =
      elim (Bool-cases (is_full turn (length selected) used)) [
        | inl full ↦
            rw (full, e)
              (record {
                older = reverse (turn ∷ turns);
                split = refl;
                fits = fits;
                longest = inr (
                  reverse turns,
                  turn,
                  reverse-cons turn turns,
                  full-not-Fits turn kept (length selected) used l u full,
                );
              })
        | inr room ↦ rw room (
            Newest-along (sym (moved turn turns kept)) (
              select_turns-Newest turns (selected ++ turn ∷ []) (turn ∷ kept)
                (used + turn_chars turn) (reverse-append_one turn selected kept e)
                (omega (arith, length-append selected (turn ∷ []))) (omega arith)
                (room-Fits turn kept (length selected) used l u room)))
      ]
    where
      moved :
          (turn : Turn) (turns kept : List Turn)
          → reverse (turn ∷ turns) ++ kept ≡ reverse turns ++ turn ∷ kept
      moved turn turns kept = rw reverse-cons (append_assoc (reverse turns) (turn ∷ []) kept)

-- `bounded_history` returns the messages of the newest complete turns of the history: they respect
-- both bounds, and either they are all of the complete turns or the next older turn would not fit.
pub bounded_history-Newest :
    (history : List ChatMessage) (max_messages max_chars : ℕ)
    → (kept : List Turn) × Newest max_messages max_chars (complete_turns history) kept
      × (bounded_history history max_messages max_chars ≡ messages_of kept)
unfolding bounded_history
bounded_history-Newest history max_messages max_chars = (
  reverse (select_turns max_messages max_chars (reverse turns) [] 0),
  Newest-along (append-nil (reverse (reverse turns)) ∙ reverse-reverse turns) (
      select_turns-Newest max_messages max_chars (reverse turns) [] [] 0 refl refl refl
        (omega arith, omega arith)),
  refl,
)
  where
    turns : List Turn
    turns = complete_turns history
