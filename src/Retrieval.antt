-- ===== src/Retrieval.antt =====
-- The ranking and fusion of retrieved chunks in app/services/chat.py. Scores are any ordered type F in
-- place of floats, of which a NaN is not modelled.
pub mod Table
pub mod Fusion
pub mod Rerank
pub mod Hybrid
mod Tests
use showcase_host.Prelude.{
  ℕ, zero, suc, ◌+◌, ◌≡◌, ◌⊎◌, String, Bool, true, false, not, ◌||◌, ◌&&◌, Option, none, some, List,
  [], ◌∷◌, ◌++◌, leb, ltb, ◌==◌, if◌then◌else◌, or_else, any, take, map, str_eq, str_leb, sort_by,
}

-- The operations of floats that are used: `weigh w n` is `w / n`, and `parse` is `float` of a text;
-- `in_unit` says that a number is finite and lies between 0 and 1.
pub record Score (F : Type 0) : Type 0 where
  pub nought : F
  pub add : F → F → F
  pub weigh : F → ℕ → F
  pub score_leb : F → F → Bool
  pub parse : String → Option F
  pub scale : F → F → F
  pub in_unit : F → Bool

pub data Value (F : Type 0) : Type 0 where
  number : F → Value F
  text : String → Value F
  object : Value F

-- A dictionary by its items; the newest entry of a key stands first.
abbrev pub Payload : Type 0 → Type 0
Payload F = List (String × Value F)

pub record SearchRecord (F : Type 0) : Type 0 where
  pub id : Option String
  pub score : Option (Value F)
  pub payload : Option (Payload F)

abbrev pub lookup {ℓ} : {A : Type ℓ} → String → List (String × A) → Option A
lookup key [] = none
lookup key ((k, a) ∷ rest) = if str_eq k key then some a else lookup key rest

-- What the three dictionaries `scores`, `best_ranks` and `records`, which have the same keys, hold for
-- an identifier.
pub record Fused (F : Type 0) : Type 0 where
  pub score : F
  pub best_rank : ℕ
  pub payload : Payload F

abbrev pub min : ℕ → ℕ → ℕ
min a b = if leb a b then a else b

abbrev pub payload_of : {F : Type 0} → SearchRecord F → Payload F
payload_of record_ = or_else record_.payload []

abbrev pub put : {A : Type 0} → String → A → List (String × A) → List (String × A)
put key a [] = (key, a) ∷ []
put key a ((k, b) ∷ rest) = if str_eq k key then (k, a) ∷ rest else (k, b) ∷ put key a rest

abbrev pub fused_record : {F : Type 0} → String × Fused F → SearchRecord F
fused_record (i, e) = record {
  id = some i;
  score = some (number e.score);
  payload = some e.payload;
}

module _ {F : Type 0} (scores : Score F) where
  -- `_number`, of `none` for a missing entry.
  unfoldable pub number_of : Option (Value F) → F
  number_of none = scores.nought
  number_of (some (number f)) = f
  number_of (some (text t)) = or_else (scores.parse t) scores.nought
  number_of (some object) = scores.nought

  abbrev pub quality : Payload F → F
  quality payload = number_of (lookup "quality_score" payload)

  -- The order of the first two components of the key; a stable sort leaves the third to the positions.
  abbrev pub ranks_before : SearchRecord F → SearchRecord F → Bool
  ranks_before a b =
      if scores.score_leb (number_of a.score) (number_of b.score)
        && scores.score_leb (number_of b.score) (number_of a.score)
      then scores.score_leb (quality (payload_of b)) (quality (payload_of a))
      else scores.score_leb (number_of b.score) (number_of a.score)

  unfoldable pub rank_retrieved_chunks : List (SearchRecord F) → List (SearchRecord F)
  rank_retrieved_chunks records = sort_by ranks_before records

  -- `scores[id]`, `best_ranks[id]` and `records[id]` after one more rank.
  unfoldable pub fuse_entry : F → ℕ → ℕ → Payload F → Option (Fused F) → Fused F
  fuse_entry weight k rank payload none = record {
    score = scores.add scores.nought (scores.weigh weight (k + rank));
    best_rank = rank;
    payload = payload;
  }
  fuse_entry weight k rank payload (some e) = record {
    score = scores.add e.score (scores.weigh weight (k + rank));
    best_rank = min e.best_rank rank;
    payload = payload ++ e.payload;
  }

  -- The loop over one ranked channel, from a rank on.
  unfoldable pub fuse_channel :
      F
      → ℕ
      → ℕ
      → List String
      → List (SearchRecord F)
      → List (String × Fused F)
      → List (String × Fused F)
  fuse_channel weight k rank seen [] table = table
  fuse_channel weight k rank seen (r ∷ ranked) table =
      let chunk_id = or_else r.id "" in
      let skipped = fuse_channel weight k (suc rank) seen ranked table in
      let added =
        fuse_channel weight k (suc rank) (chunk_id ∷ seen) ranked
          (put chunk_id (fuse_entry weight k rank (payload_of r) (lookup chunk_id table)) table) in
      if str_eq chunk_id "" || any (str_eq chunk_id) seen then skipped else added

  unfoldable pub fuse_channels :
      F → F → ℕ → List (SearchRecord F) → List (SearchRecord F) → List (String × Fused F)
  fuse_channels dense_weight keyword_weight k dense keyword =
      fuse_channel keyword_weight k 1 [] (rank_retrieved_chunks keyword)
        (fuse_channel dense_weight k 1 [] (rank_retrieved_chunks dense) [])

  -- `sorted` by score and quality, downwards, then by best rank and identifier.
  abbrev pub fused_before : String × Fused F → String × Fused F → Bool
  fused_before (i, a) (j, b) =
      if not (scores.score_leb a.score b.score)
      then true
      else if not (scores.score_leb b.score a.score)
      then false
      else if not (scores.score_leb (quality a.payload) (quality b.payload))
      then true
      else if not (scores.score_leb (quality b.payload) (quality a.payload))
      then false
      else if ltb a.best_rank b.best_rank
      then true
      else if ltb b.best_rank a.best_rank
      then false
      else str_leb i j

  -- A limit of 0 stands for every limit that is not positive.
  unfoldable pub reciprocal_rank_fusion :
      List (SearchRecord F) → List (SearchRecord F) → ℕ → ℕ → F → F → List (SearchRecord F)
  reciprocal_rank_fusion dense keyword limit k dense_weight keyword_weight = map fused_record (
      take limit (sort_by fused_before (fuse_channels dense_weight keyword_weight k dense keyword)))
