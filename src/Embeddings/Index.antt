-- ===== src/Embeddings/Index.antt =====
-- What the vector store holds for the inputs once a model has been used.
use showcase_host.Prelude.{
  All-In, suc, ◌≡◌, refl, sym, ap, ◌∙◌, inl, inr, ◌⊎◌, some, List, [], ◌∷◌, ◌++◌, length, All, In,
}
use showcase_host.Embeddings.{
  String, EmbeddingInput, EmbeddingModel, VectorRecord, VectorStore, Settings, written,
}
use showcase_host.Embeddings.Batches.{Matches}

pub In-append_left : {A : Type 0} (xs ys : List A) (a : A) → In a xs → In a (xs ++ ys)
In-append_left [] ys a m = absurd m
In-append_left (x ∷ xs) ys a (inl here) = inl here
In-append_left (x ∷ xs) ys a (inr later) = inr (In-append_left xs ys a later)

pub In-append_right : {A : Type 0} (xs ys : List A) (a : A) → In a ys → In a (xs ++ ys)
In-append_right [] ys a m = m
In-append_right (x ∷ xs) ys a m = inr (In-append_right xs ys a m)

pub append-In : {A : Type 0} (xs ys : List A) (a : A) → In a (xs ++ ys) → In a xs ⊎ In a ys
append-In [] ys a m = inr m
append-In (x ∷ xs) ys a (inl here) = inl (inl here)
append-In (x ∷ xs) ys a (inr later) = elim (append-In xs ys a later) [
  | inl left ↦ inl (inr left)
  | inr right ↦ inr right
]

-- Inputs with the same identifier are the same chunk, as the identifier is the primary key.
abbrev pub IsKeyed : List EmbeddingInput → Type 0
IsKeyed inputs =
    (a b : EmbeddingInput) → In a inputs → In b inputs → a.chunk_id ≡ b.chunk_id → a.text ≡ b.text

module _ {S V : Type 0} (store : VectorStore S V) (content_hash : String → String)
    (settings : Settings) where
  -- The store has a vector of the model for the item, made from the text that the item has now.
  abbrev pub IsIndexed : EmbeddingModel → S → EmbeddingInput → Type 0
  IsIndexed model s item =
      (r : VectorRecord V) × (store.record_at s model.id item.chunk_id ≡ some r)
      × (r.content_hash ≡ content_hash item.text)

  record_of :
      (batch : List EmbeddingInput) (records : List (VectorRecord V)) (item : EmbeddingInput)
      → Matches store content_hash settings batch records
      → In item batch
      → (r : VectorRecord V) × In r records × (r.id ≡ item.chunk_id)
  record_of [] records item h m = absurd m
  record_of (i ∷ batch) [] item h m = absurd h
  record_of (i ∷ batch) (r ∷ records) item h (inl here) =
      (r, inl refl, h.0 ∙ ap (λ (x : EmbeddingInput). x.chunk_id) (sym here))
  record_of (i ∷ batch) (r ∷ records) item h (inr later) =
      let (q, among, same) = record_of batch records item h.2 later in (q, inr among, same)

  item_of :
      (batch : List EmbeddingInput) (records : List (VectorRecord V)) (r : VectorRecord V)
      → Matches store content_hash settings batch records
      → In r records
      → (i : EmbeddingInput) × In i batch
        × (r.id ≡ i.chunk_id)
        × (r.content_hash ≡ content_hash i.text)
  item_of [] [] r h m = absurd m
  item_of [] (q ∷ records) r h m = absurd h
  item_of (i ∷ batch) [] r h m = absurd m
  item_of (i ∷ batch) (q ∷ records) r h (inl here) = (
    i,
    inl refl,
    ap (λ (x : VectorRecord V). x.id) here ∙ h.0,
    ap (λ (x : VectorRecord V). x.content_hash) here ∙ h.1,
  )
  item_of (i ∷ batch) (q ∷ records) r h (inr later) =
      let (j, among, same, hashed) = item_of batch records r h.2 later in
      (j, inr among, same, hashed)

  pub Matches-length :
      (batch : List EmbeddingInput) (records : List (VectorRecord V))
      → Matches store content_hash settings batch records
      → length records ≡ length batch
  Matches-length [] [] h = refl
  Matches-length [] (r ∷ records) h = absurd h
  Matches-length (i ∷ batch) [] h = absurd h
  Matches-length (i ∷ batch) (r ∷ records) h = ap suc (Matches-length batch records h.2)

  module _ (inputs : List EmbeddingInput) (keyed : IsKeyed inputs) (model : EmbeddingModel) where
    -- After an upsert of the records of some inputs, these are indexed, and all that were before.
    pub upsert-IsIndexed :
        (batch : List EmbeddingInput) (records : List (VectorRecord V)) (s s' : S)
        (item : EmbeddingInput)
        → ((i : EmbeddingInput) → In i batch → In i inputs)
        → Matches store content_hash settings batch records
        → store.upsert model records s ≡ written s'
        → In item inputs
        → IsIndexed model s item ⊎ In item batch
        → IsIndexed model s' item
    upsert-IsIndexed batch records s s' item within match_ e known before =
        elim (store.upsert_written model records s s' e item.chunk_id) [
          | inl (same, others) ↦ unchanged same others before
          | inr (r, among, same, found) ↦
              let (i, in_batch, r_id, hashed) = item_of batch records r match_ among in
              (
                r,
                found,
                hashed ∙ ap content_hash (keyed i item (within i in_batch) known (sym r_id ∙ same)),
              )
        ]
      where
        unchanged :
            store.record_at s' model.id item.chunk_id ≡ store.record_at s model.id item.chunk_id
            → All (λ (r : VectorRecord V). ¬ r.id ≡ item.chunk_id) records
            → IsIndexed model s item ⊎ In item batch
            → IsIndexed model s' item
        unchanged same others (inl (r, found, hashed)) = (r, same ∙ found, hashed)
        unchanged same others (inr in_batch) =
            let (r, among, r_id) = record_of batch records item match_ in_batch in
            absurd
              (All-In (λ (r : VectorRecord V). ¬ r.id ≡ item.chunk_id) r records others among r_id)
