-- ===== src/Embeddings/Catalog/Choice.antt =====
-- Every model stays a candidate, whatever is chosen first.
use mathlib.Core.List.{Perm}
use mathlib.Core.List.Perm
use showcase_host.Prelude.{
  find-In, ◌≤◌, some_eq, All-In, ℕ, ◌≡◌, refl, ap, sym, subst, inl, inr, ◌⊎◌, String, Bool, true,
  false, not, ◌&&◌, Option, none, some, List, [], ◌∷◌, ltb, leb, filter, length, map, All, In,
  Bool-cases, str_eq, str_eq_iff, arith,
}
use showcase_host.Embeddings.{EmbeddingInput, EmbeddingModel}
use showcase_host.Embeddings.Catalog.{
  bge_m3, mini_lm, e5_small, embedding_models, require_supported_model, model_eq, count_all,
  code_count, is_code_dominant, largest, automatic_order, selected_first, automatic_candidates,
  model_candidates,
}

automatic_order-Perm :
    (large : ℕ) (inputs : List EmbeddingInput) (languages : List (String × ℕ))
    → Perm (automatic_order large inputs languages) embedding_models
unfolding automatic_order
automatic_order-Perm large inputs languages =
    elim (Bool-cases (
      leb large (length inputs)
      && not (is_code_dominant (code_count languages) (length inputs))
      && leb (largest inputs) mini_lm.context_tokens)) [
        | inl prose ↦ rw prose (Perm.swap bge_m3 mini_lm (e5_small ∷ []))
        | inr other ↦
            elim (Bool-cases (
              not (is_code_dominant (code_count languages) (length inputs))
              && ltb 1 (length languages))) [
                | inl mixed ↦ rw (other, mixed) (Perm.cons bge_m3 (Perm.swap mini_lm e5_small []))
                | inr plain ↦ rw (other, plain) (Perm.refl embedding_models)
              ]
      ]

automatic_candidates-Perm :
    (lower : String → String) (large : ℕ) (inputs : List EmbeddingInput)
    → Perm (automatic_candidates lower large inputs) embedding_models
unfolding automatic_candidates
automatic_candidates-Perm lower large [] = Perm.refl embedding_models
automatic_candidates-Perm lower large (i ∷ inputs) =
    automatic_order-Perm large (i ∷ inputs)
      (count_all (map (λ (j : EmbeddingInput). lower j.language) (i ∷ inputs)) [])

-- The order that follows the manual choice of a model of the catalog.
others-Perm :
    (m : EmbeddingModel)
    → In m embedding_models
    → Perm (m ∷ filter (λ model. not (model_eq model m)) embedding_models) embedding_models
others-Perm m h =
    All-In
      (λ (m : EmbeddingModel).
        Perm (m ∷ filter (λ model. not (model_eq model m)) embedding_models) embedding_models)
      m embedding_models
      (
        Perm.refl embedding_models,
        (
          Perm.swap bge_m3 mini_lm (e5_small ∷ []),
          (
            Perm.trans (Perm.swap bge_m3 e5_small (mini_lm ∷ []))
                (Perm.cons bge_m3 (Perm.swap mini_lm e5_small [])),
            tt,
          ),
        ),
      )
      h

selected_first-Perm :
    (model_id : String) (found : Option EmbeddingModel) (candidates : List EmbeddingModel)
    → require_supported_model model_id ≡ found
    → selected_first found ≡ some candidates
    → Perm candidates embedding_models
      × ((m : EmbeddingModel) × (rest : List EmbeddingModel) × (candidates ≡ m ∷ rest)
          × (m.id ≡ model_id))
unfolding require_supported_model
selected_first-Perm model_id none candidates e chosen = absurd (cc chosen)
selected_first-Perm model_id (some m) candidates e chosen =
    let (member, named) =
      find-In (λ (x : EmbeddingModel). str_eq x.id model_id) embedding_models m e in
    let same : (m ∷ filter (λ model. not (model_eq model m)) embedding_models) ≡ candidates =
      cc chosen in
    (
      subst (λ (c : List EmbeddingModel). Perm c embedding_models) same (others-Perm m member),
      (
        m,
        filter (λ model. not (model_eq model m)) embedding_models,
        sym same,
        (str_eq_iff m.id model_id).0 named,
      ),
    )

-- Whatever the inputs and a supported manual choice are, the candidates are all models of the catalog,
-- each once, so a fallback is tried as long as one is left; a manual choice comes first.
pub model_candidates-Perm :
    (lower : String → String) (inputs : List EmbeddingInput) (manual_model : Option String)
    (large : ℕ) (candidates : List EmbeddingModel)
    → model_candidates lower inputs manual_model large ≡ some candidates
    → Perm candidates embedding_models
      × ((manual_model ≡ none)
          ⊎ (manual_model ≡ some "")
          ⊎ ((m : EmbeddingModel) × (rest : List EmbeddingModel) × (candidates ≡ m ∷ rest)
              × (manual_model ≡ some m.id)))
unfolding model_candidates
model_candidates-Perm lower inputs none large candidates = λ e. (
  subst (λ (c : List EmbeddingModel). Perm c embedding_models)
      (some_eq (automatic_candidates lower large inputs) candidates e)
      (automatic_candidates-Perm lower large inputs),
  inl refl,
)
model_candidates-Perm lower inputs (some manual_model) large candidates =
    elim (Bool-cases (str_eq manual_model "")) [
      | inl empty ↦ rw empty (λ e. (
        subst (λ (c : List EmbeddingModel). Perm c embedding_models)
            (some_eq (automatic_candidates lower large inputs) candidates e)
            (automatic_candidates-Perm lower large inputs),
        inr (inl (ap some ((str_eq_iff manual_model "").0 empty))),
      ))
      | inr named ↦ rw named (λ e.
          let (perm, (m, rest, first, m_id)) =
            selected_first-Perm manual_model (require_supported_model manual_model) candidates refl
              e in
          (perm, inr (inr (m, rest, first, ap some (sym m_id)))))
    ]

largest-bound :
    (inputs : List EmbeddingInput) (bound : ℕ)
    → largest inputs ≤ bound
    → All (λ (i : EmbeddingInput). i.token_count ≤ bound) inputs
unfolding largest
largest-bound [] bound h = tt
largest-bound (i ∷ inputs) bound h = (ground arith, largest-bound inputs bound (ground arith))

abbrev starts_with_mini_lm : List EmbeddingModel → Bool
starts_with_mini_lm [] = false
starts_with_mini_lm (m ∷ ms) = str_eq m.id mini_lm.id

both_of :
    {large total most bound : ℕ} (b : Bool)
    → (leb large total && b && leb most bound) ≡ true
    → (large ≤ total) × (most ≤ bound)
both_of b e = (ground (arith, e), ground (arith, e))

automatic_order-fits :
    (large : ℕ) (inputs : List EmbeddingInput) (languages : List (String × ℕ))
    → starts_with_mini_lm (automatic_order large inputs languages) ≡ true
    → (large ≤ length inputs) × (largest inputs ≤ mini_lm.context_tokens)
unfolding automatic_order
automatic_order-fits large inputs languages =
    elim (Bool-cases (
      leb large (length inputs)
      && not (is_code_dominant (code_count languages) (length inputs))
      && leb (largest inputs) mini_lm.context_tokens)) [
        | inl prose ↦
            rw prose
              (λ e. both_of (not (is_code_dominant (code_count languages) (length inputs))) prose)
        | inr other ↦
            elim (Bool-cases (
              not (is_code_dominant (code_count languages) (length inputs))
              && ltb 1 (length languages))) [
                | inl mixed ↦ rw (other, mixed) (λ e. absurd (cc e))
                | inr plain ↦ rw (other, plain) (λ e. absurd (cc e))
              ]
      ]

-- If the candidates that are chosen without a manual model start with MiniLM, no input is longer than
-- its context, and there are as many inputs as a large repository has.
pub automatic_candidates-fits :
    (lower : String → String) (large : ℕ) (inputs : List EmbeddingInput)
    (rest : List EmbeddingModel)
    → automatic_candidates lower large inputs ≡ mini_lm ∷ rest
    → All (λ (i : EmbeddingInput). i.token_count ≤ mini_lm.context_tokens) inputs
      × (large ≤ length inputs)
unfolding automatic_candidates
automatic_candidates-fits lower large [] rest e = absurd (cc (ap starts_with_mini_lm e))
automatic_candidates-fits lower large (i ∷ inputs) rest e =
    let (many, small) =
      automatic_order-fits large (i ∷ inputs)
        (count_all (map (λ (j : EmbeddingInput). lower j.language) (i ∷ inputs)) [])
        (ap starts_with_mini_lm e) in
    (largest-bound (i ∷ inputs) mini_lm.context_tokens small, many)
