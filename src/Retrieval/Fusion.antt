-- ===== src/Retrieval/Fusion.antt =====
-- The score of a fused chunk is the sum over the channels of their weights by the chunk's first rank.
use showcase_host.Prelude.{
  length-map, sort_by-All, All-take, ◌≤◌, ℕ, suc, ◌+◌, ◌≡◌, refl, sym, ap, ◌∙◌, inl, inr, String,
  Bool, true, false, ◌||◌, Option, none, some, List, [], ◌∷◌, or_else, any, take, map, length, All,
  In, if◌then◌else◌, Bool-cases, str_eq, str_eq_iff, sort_by, length-take-le, arith,
}
use showcase_host.Retrieval.{
  Score, number, Payload, SearchRecord, lookup, Fused, put, payload_of, rank_retrieved_chunks,
  fuse_entry, fuse_channel, fuse_channels, fused_before, fused_record, reciprocal_rank_fusion,
}
use showcase_host.Retrieval.Table.{
  put-lookup, put-other, IsDistinct, put-IsDistinct, IsDistinct-lookup,
}

abbrev is_out : String → List String → Bool
is_out id seen = str_eq id "" || any (str_eq id) seen

abbrev score_in : {F : Type 0} → Option (Fused F) → Option F
score_in none = none
score_in (some e) = some e.score

-- The rank at which an identifier comes first.
unfoldable pub first_rank : {F : Type 0} → String → ℕ → List (SearchRecord F) → Option ℕ
first_rank id rank [] = none
first_rank id rank (r ∷ ranked) =
    let later = first_rank id (suc rank) ranked in
    if str_eq (or_else r.id "") id then some rank else later

not_equal : (c id : String) → str_eq c id ≡ false → str_eq id c ≡ false
not_equal c id other = ground (arith, str_eq_iff c id, str_eq_iff id c, other)

out_now : (c id : String) (seen : List String) → str_eq c id ≡ true → is_out id (c ∷ seen) ≡ true
out_now c id seen same =
    let back : str_eq id c ≡ true = (str_eq_iff id c).1 (sym ((str_eq_iff c id).0 same)) in
    ground (arith, back)

module _ {F : Type 0} (scores : Score F) where
  -- What a channel adds to a score.
  abbrev gain : F → ℕ → Option ℕ → Option F → Option F
  gain weight k none score = score
  gain weight k (some rank) score =
      some (scores.add (or_else score scores.nought) (scores.weigh weight (k + rank)))

  fuse_entry-score :
      (weight : F) (k rank : ℕ) (payload : Payload F) (e : Option (Fused F))
      → score_in (some (fuse_entry scores weight k rank payload e))
        ≡ gain weight k (some rank) (score_in e)
  unfolding fuse_entry
  fuse_entry-score weight k rank payload none = refl
  fuse_entry-score weight k rank payload (some e) = refl

  own_rank :
      (weight : F) (k rank : ℕ) (payload : Payload F) (table : List (String × Fused F))
      (c id : String)
      → c ≡ id
      → score_in
          (lookup id (put c (fuse_entry scores weight k rank payload (lookup c table)) table))
        ≡ gain weight k (some rank) (score_in (lookup id table))
  own_rank weight k rank payload table c id same =
      ap
        (λ x.
          score_in
            (lookup id (put x (fuse_entry scores weight k rank payload (lookup x table)) table)))
        same
      ∙ ap score_in
          (put-lookup id (fuse_entry scores weight k rank payload (lookup id table)) table)
      ∙ fuse_entry-score weight k rank payload (lookup id table)

  fuse_channel-score :
      (weight : F) (k rank : ℕ) (seen : List String) (ranked : List (SearchRecord F))
      (table : List (String × Fused F)) (id : String)
      → score_in (lookup id (fuse_channel scores weight k rank seen ranked table)) ≡ (
          if is_out id seen
          then score_in (lookup id table)
          else gain weight k (first_rank id rank ranked) (score_in (lookup id table)))
  unfolding fuse_channel first_rank
  fuse_channel-score weight k rank seen [] table id = elim (Bool-cases (is_out id seen)) [
    | inl out ↦ rw out refl
    | inr fresh ↦ rw fresh refl
  ]
  fuse_channel-score weight k rank seen (r ∷ ranked) table id =
      let c = or_else r.id "" in
      let rest = λ (seen' : List String) (table' : List (String × Fused F)).
        fuse_channel-score weight k (suc rank) seen' ranked table' id in
      let e = fuse_entry scores weight k rank (payload_of r) (lookup c table) in
      elim (Bool-cases (str_eq c id)) [
        | inl same ↦ elim (Bool-cases (is_out id seen)) [
          | inl out ↦
              rw (same, (ap (λ x. is_out x seen) ((str_eq_iff c id).0 same) ∙ out))
                (rest seen table ∙ rw out refl)
          | inr fresh ↦
              rw (same, (ap (λ x. is_out x seen) ((str_eq_iff c id).0 same) ∙ fresh))
                (rest (c ∷ seen) (put c e table)
                  ∙ rw (out_now c id seen same, fresh)
                      (own_rank weight k rank (payload_of r) table c id ((str_eq_iff c id).0 same)))
        ]
        | inr other ↦ elim (Bool-cases (is_out c seen)) [
          | inl out ↦ rw (other, out) (rest seen table)
          | inr fresh ↦
              rw (other, fresh)
                (rest (c ∷ seen) (put c e table)
                  ∙ rw (not_equal c id other, put-other c id e table other) refl)
        ]
      ]

  fuse_channel-IsDistinct :
      (weight : F) (k rank : ℕ) (seen : List String) (ranked : List (SearchRecord F))
      (table : List (String × Fused F))
      → IsDistinct table
      → IsDistinct (fuse_channel scores weight k rank seen ranked table)
  unfolding fuse_channel
  fuse_channel-IsDistinct weight k rank seen [] table h = h
  fuse_channel-IsDistinct weight k rank seen (r ∷ ranked) table h =
      let c = or_else r.id "" in
      let e = fuse_entry scores weight k rank (payload_of r) (lookup c table) in
      elim (Bool-cases (is_out c seen)) [
        | inl out ↦ rw out (fuse_channel-IsDistinct weight k (suc rank) seen ranked table h)
        | inr fresh ↦ rw fresh (
            fuse_channel-IsDistinct weight k (suc rank) (c ∷ seen) ranked (put c e table)
              (put-IsDistinct c e table h))
      ]

  -- The score that the two channels give an identifier; `none` if it is in neither of them.
  abbrev pub score_of :
      F → F → ℕ → List (SearchRecord F) → List (SearchRecord F) → String → Option F
  score_of dense_weight keyword_weight k dense keyword id =
      gain keyword_weight k (first_rank id 1 (rank_retrieved_chunks scores keyword))
        (gain dense_weight k (first_rank id 1 (rank_retrieved_chunks scores dense)) none)

  -- A fused result: it has an identifier that is not empty, and the score of that.
  abbrev pub IsScored :
      F → F → ℕ → List (SearchRecord F) → List (SearchRecord F) → SearchRecord F → Type 0
  IsScored dense_weight keyword_weight k dense keyword r =
      (id : String) × (s : F) × (r.id ≡ some id)
      × (str_eq id "" ≡ false)
      × (r.score ≡ some (number s))
      × (score_of dense_weight keyword_weight k dense keyword id ≡ some s)

  module _ (dense_weight keyword_weight : F) (k : ℕ) (dense keyword : List (SearchRecord F)) where
    fuse_channels-score :
        (id : String)
        → score_in (lookup id (fuse_channels scores dense_weight keyword_weight k dense keyword))
          ≡ (if str_eq id "" || false
              then none
              else score_of dense_weight keyword_weight k dense keyword id)
    unfolding fuse_channels
    fuse_channels-score id =
        let ranked_dense = rank_retrieved_chunks scores dense in
        let ranked_keyword = rank_retrieved_chunks scores keyword in
        let first = fuse_channel-score dense_weight k 1 [] ranked_dense [] id in
        let second =
          fuse_channel-score keyword_weight k 1 [] ranked_keyword
            (fuse_channel scores dense_weight k 1 [] ranked_dense []) id in
        elim (Bool-cases (str_eq id "")) [
          | inl empty ↦ rw empty ((rw empty at second) ∙ (rw empty at first))
          | inr named ↦ rw named (
              (rw named at second)
              ∙ ap (gain keyword_weight k (first_rank id 1 ranked_keyword)) (rw named at first))
        ]

    fuse_channels-IsDistinct :
        IsDistinct (fuse_channels scores dense_weight keyword_weight k dense keyword)
    unfolding fuse_channels
    fuse_channels-IsDistinct =
        fuse_channel-IsDistinct keyword_weight k 1 [] (rank_retrieved_chunks scores keyword) _
          (fuse_channel-IsDistinct dense_weight k 1 [] (rank_retrieved_chunks scores dense) [] tt)

    entry-IsScored :
        (entry : String × Fused F)
        → In entry (fuse_channels scores dense_weight keyword_weight k dense keyword)
        → IsScored dense_weight keyword_weight k dense keyword (fused_record entry)
    entry-IsScored (id, e) m =
        let table = fuse_channels scores dense_weight keyword_weight k dense keyword in
        let found : some e.score ≡ score_in (lookup id table) =
          sym (ap score_in (IsDistinct-lookup id e table fuse_channels-IsDistinct m)) in
        let whole = found ∙ fuse_channels-score id in
        elim (Bool-cases (str_eq id "")) [
          | inl empty ↦ absurd (cc (rw empty at whole))
          | inr named ↦ (id, e.score, refl, named, refl, sym (rw named at whole))
        ]

    -- At most `limit` chunks are returned, each with an identifier, whose score is the sum of the weights
    -- of the channels that have it, each divided by k and its first rank there.
    pub reciprocal_rank_fusion-IsScored :
        (limit : ℕ)
        → All
            (IsScored dense_weight keyword_weight k dense keyword)
            (reciprocal_rank_fusion scores dense keyword limit k dense_weight keyword_weight)
          × (length
                (reciprocal_rank_fusion scores dense keyword limit k dense_weight keyword_weight)
              ≤ limit)
    unfolding reciprocal_rank_fusion
    reciprocal_rank_fusion-IsScored limit =
        let table = fuse_channels scores dense_weight keyword_weight k dense keyword in
        let P = λ (entry : String × Fused F).
          IsScored dense_weight keyword_weight k dense keyword (fused_record entry) in
        (
          mapped (take limit (sort_by (fused_before scores) table)) (
              All-take P limit (sort_by (fused_before scores) table)
                (sort_by-All (fused_before scores) P table (everywhere table entry-IsScored))),
          omega (
            arith,
            length-map fused_record (take limit (sort_by (fused_before scores) table)),
            length-take-le limit (sort_by (fused_before scores) table),
          ),
        )
      where
        everywhere :
            (entries : List (String × Fused F))
            → ((entry : String × Fused F)
                → In entry entries
                → IsScored dense_weight keyword_weight k dense keyword (fused_record entry))
            → All
                (λ (entry : String × Fused F).
                  IsScored dense_weight keyword_weight k dense keyword (fused_record entry))
                entries
        everywhere [] h = tt
        everywhere (x ∷ xs) h = (h x (inl refl), everywhere xs (λ y m. h y (inr m)))

        mapped :
            (entries : List (String × Fused F))
            → All
                (λ (entry : String × Fused F).
                  IsScored dense_weight keyword_weight k dense keyword (fused_record entry))
                entries
            → All (IsScored dense_weight keyword_weight k dense keyword) (map fused_record entries)
        mapped [] h = tt
        mapped (x ∷ xs) h = (h.0, mapped xs h.1)
