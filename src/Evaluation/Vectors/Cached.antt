-- ===== src/Evaluation/Vectors/Cached.antt =====
-- What the caches of the vectors hold after any attempts, for a provider that embeds each text by itself.
use showcase_host.Prelude.{
  ℕ, zero, suc, ◌≤◌, ◌≡◌, refl, sym, ap, ◌∙◌, subst, String, Option, none, some, List, [], ◌∷◌, map,
  or_else, length, All, arith,
}
use showcase_host.Prelude.Results.{Result, ok, err}
use showcase_host.Embeddings.Calls.{Response}
use showcase_host.Evaluation.Vectors.{
  BatchSettings, first_size, VectorError, Corpus, new_corpus, Batch, no_vectors, with_vectors,
  batches_from, complete, embed_documents, keep, cached_or_new, cached_document_vectors,
  after_attempts,
}
use showcase_host.Evaluation.Vectors.Batches.{AreBatches, batches_from-AreBatches}
use showcase_host.Evaluation.Vectors.Writes.{
  IsEntry, All-flatten, missing-IsEntry, write_all, write_all-missing,
}
use showcase_host.Evaluation.Vectors.Runs.{
  IsFaithful, IsAnswering, run_batches-IsState, run_batches-all, complete-all, complete-ok,
  IsCached, HasVectors-AreVectors, IsSize-bounds, IsCorpus,
}

module _ {V : Type 0} where
  length-with_vectors :
      (inputs : List String) (vectors : List (Option V))
      → length (with_vectors inputs vectors) ≡ length inputs
  length-with_vectors [] vectors = refl
  length-with_vectors (value ∷ inputs) [] = ap suc (length-with_vectors inputs [])
  length-with_vectors (value ∷ inputs) (v ∷ vectors) = ap suc (length-with_vectors inputs vectors)

  cut_in_order :
      (max_chars fuel size : ℕ) (items : List (String × Option V))
      → 1 ≤ size
      → length items ≤ fuel
      → AreBatches max_chars size 0 items (batches_from max_chars fuel size 0 items)
  cut_in_order max_chars fuel zero items some_size enough = absurd (omega (arith, some_size))
  cut_in_order max_chars fuel (suc room) items some_size enough =
      batches_from-AreBatches max_chars fuel room 0 items enough

module _ {V : Type 0} (embed : String → V) (settings : BatchSettings) (inputs : List String)
    (some_size : 1 ≤ first_size settings) where
  abbrev cut_of : Corpus V → List Batch
  cut_of c =
      batches_from settings.batch_max_chars (length inputs)
        (or_else c.batch_size (first_size settings)) 0
        (with_vectors inputs (or_else c.vectors (no_vectors inputs)))

  cut_of-AreBatches :
      (c : Corpus V)
      → IsCorpus embed (first_size settings) inputs c
      → AreBatches settings.batch_max_chars
          (or_else c.batch_size (first_size settings))
          0
          (with_vectors inputs (or_else c.vectors (no_vectors inputs)))
          (cut_of c)
  cut_of-AreBatches c h =
      let known = or_else c.vectors (no_vectors inputs) in
      let bounds = IsSize-bounds embed (first_size settings) inputs c.batch_size some_size h.size in
      cut_in_order settings.batch_max_chars (length inputs)
        (or_else c.batch_size (first_size settings)) (with_vectors inputs known) bounds.0
        (omega (arith, length-with_vectors inputs known))

  embed_documents-IsCorpus :
      (answers : ℕ → List String → Response (List V)) (c : Corpus V)
      → IsFaithful embed answers
      → IsCorpus embed (first_size settings) inputs c
      → IsCorpus embed (first_size settings) inputs (embed_documents settings answers inputs c).1
        × ((vs : List V)
            → (embed_documents settings answers inputs c).0 ≡ ok vs
            → vs ≡ map embed inputs)
  unfolding embed_documents
  embed_documents-IsCorpus answers c faithful h =
      let known = or_else c.vectors (no_vectors inputs) in
      let size = or_else c.batch_size (first_size settings) in
      let are = HasVectors-AreVectors embed (first_size settings) inputs c.vectors h.vectors in
      let bounds = IsSize-bounds embed (first_size settings) inputs c.batch_size some_size h.size in
      let cut = cut_of-AreBatches c h in
      let entries = All-flatten (IsEntry inputs) (cut_of c) (
        subst (All (IsEntry inputs)) (sym cut.all_missing)
          (missing-IsEntry [] inputs known 0 refl)) in
      let after =
        run_batches-IsState embed (first_size settings) inputs answers size 0 (cut_of c)
          (known, c.batch_size) faithful some_size bounds.1 entries (are, h.size) in
      (
        record { cached = h.cached; vectors = after.0; size = after.1 },
        λ vs done. complete-ok embed (first_size settings) inputs _ _ vs after.0 done,
      )

  embed_documents-all :
      (answers : ℕ → List String → Response (List V)) (c : Corpus V)
      → IsAnswering embed (first_size settings) inputs settings.batch_max_chars answers
      → IsCorpus embed (first_size settings) inputs c
      → (embed_documents settings answers inputs c).0 ≡ ok (map embed inputs)
  unfolding embed_documents
  embed_documents-all answers c answering h =
      let known = or_else c.vectors (no_vectors inputs) in
      let are = HasVectors-AreVectors embed (first_size settings) inputs c.vectors h.vectors in
      let bounds = IsSize-bounds embed (first_size settings) inputs c.batch_size some_size h.size in
      let cut = cut_of-AreBatches c h in
      rw
        (run_batches-all embed (first_size settings) inputs settings.batch_max_chars answers
          (or_else c.batch_size (first_size settings)) 0 (cut_of c) known c.batch_size answering
          bounds.1 cut.within)
        (ap (λ l. complete l none)
            (ap (λ b. write_all embed b known) cut.all_missing
              ∙ write_all-missing embed [] inputs known 0 refl are)
          ∙ complete-all embed (first_size settings) inputs (map embed inputs))

  cached_document_vectors-IsCorpus :
      (answers : ℕ → List String → Response (List V)) (c : Corpus V)
      → IsFaithful embed answers
      → IsCorpus embed (first_size settings) inputs c
      → IsCorpus embed
          (first_size settings)
          inputs
          (cached_document_vectors settings answers inputs c).1
  unfolding cached_document_vectors
  cached_document_vectors-IsCorpus answers c faithful h = by_cached c.cached
    where
      kept :
          (r : Result VectorError (List V) × Corpus V)
          → IsCorpus embed (first_size settings) inputs r.1
          → ((vs : List V) → r.0 ≡ ok vs → vs ≡ map embed inputs)
          → IsCorpus embed (first_size settings) inputs (keep settings r).1
      kept (err e, after) is_corpus all = is_corpus
      kept (ok vs, after) is_corpus all = record { cached = all vs refl; vectors = tt; size = tt }

      by_cached :
          (o : Option (List V))
          → IsCorpus embed
              (first_size settings)
              inputs
              (cached_or_new settings answers inputs c o).1
      by_cached (some vs) = h
      by_cached none =
          let after = embed_documents-IsCorpus answers c faithful h in
          kept (embed_documents settings answers inputs c) after.0 after.1

  after_attempts-IsCorpus :
      (attempts : List (ℕ → List String → Response (List V))) (c : Corpus V)
      → All (IsFaithful embed) attempts
      → IsCorpus embed (first_size settings) inputs c
      → IsCorpus embed (first_size settings) inputs (after_attempts settings attempts inputs c)
  unfolding after_attempts
  after_attempts-IsCorpus [] c faithful h = h
  after_attempts-IsCorpus (answers ∷ attempts) c faithful h =
      after_attempts-IsCorpus attempts (cached_document_vectors settings answers inputs c).1
        faithful.1 (cached_document_vectors-IsCorpus answers c faithful.0 h)

  answered :
      (answers : ℕ → List String → Response (List V)) (c : Corpus V)
      → IsAnswering embed (first_size settings) inputs settings.batch_max_chars answers
      → IsCorpus embed (first_size settings) inputs c
      → (cached_document_vectors settings answers inputs c).0 ≡ ok (map embed inputs)
  unfolding cached_document_vectors
  answered answers c answering h = by_cached c.cached h.cached
    where
      kept :
          (r : Result VectorError (List V) × Corpus V)
          → r.0 ≡ ok (map embed inputs)
          → (keep settings r).0 ≡ ok (map embed inputs)
      kept (err e, after) done = done
      kept (ok vs, after) done = done

      by_cached :
          (o : Option (List V))
          → IsCached embed (first_size settings) inputs o
          → (cached_or_new settings answers inputs c o).0 ≡ ok (map embed inputs)
      by_cached (some vs) e = ap ok e
      by_cached none e =
          kept (embed_documents settings answers inputs c)
            (embed_documents-all answers c answering h)

  -- However earlier attempts for the same chunks ended, if the sizes of batches are positive, and the
  -- vectors that a request returned, when as many as its texts, were those of the texts, then an attempt in
  -- which the provider answers every batch within the limits returns the vectors of all inputs in their order,
  -- as if each was embedded by itself.
  pub cached_document_vectors-eq-map :
      (attempts : List (ℕ → List String → Response (List V)))
      (last : ℕ → List String → Response (List V))
      → All (IsFaithful embed) attempts
      → IsAnswering embed (first_size settings) inputs settings.batch_max_chars last
      → (cached_document_vectors settings last inputs
          (after_attempts settings attempts inputs new_corpus)).0
        ≡ ok (map embed inputs)
  cached_document_vectors-eq-map attempts last faithful answering =
      answered last (after_attempts settings attempts inputs new_corpus) answering (
        after_attempts-IsCorpus attempts new_corpus faithful
          (record { cached = tt; vectors = tt; size = tt }))
