-- ===== src/Chunking/Files/Reuse.antt =====
-- The files that `_find_reusable` returns.
use showcase_host.Prelude.{
  ℕ, String, true, Option, none, some, List, [], ◌∷◌, ◌≡◌, refl, subst, sym, map, filter, In,
  In-filter, inl, inr, Bool-cases, some_eq, str_eq, str_eq_iff, arith,
}
use showcase_host.Snapshots.{ManifestEntry}
use showcase_host.Retrieval.{lookup, put}
use showcase_host.Chunking.Files.{
  match_or, ChunkedFile, is_candidate, has_identity, last_match, add_found, collect_reusable,
  find_reusable, engine_version,
}

module _ {O : Type 0} (repository_id : ℕ) (profile_key : String) (entries : List ManifestEntry)
    (files : List (ChunkedFile O)) where
  -- A stored file with the path and the content of an entry, chunked for the repository with this profile and
  -- this version of the engine.
  pub record IsReusable (path : String) (file : ChunkedFile O) : Type 0 where
    pub stored : In file files
    pub same_repository : file.repository_id ≡ repository_id
    pub same_profile : file.profile_key ≡ profile_key
    pub same_engine : file.engine ≡ engine_version
    pub same_path : file.path ≡ path
    pub entry : ManifestEntry
    pub listed : In entry entries
    pub entry_path : entry.path ≡ path
    pub same_content : file.content_sha256 ≡ entry.sha256

  abbrev hashes : List String
  hashes = map (λ (e : ManifestEntry). e.sha256) entries

  abbrev candidates : List (ChunkedFile O)
  candidates = filter (is_candidate repository_id profile_key hashes) files

  match_or-In :
      (entry : ManifestEntry) (first : ChunkedFile O) (rest : List (ChunkedFile O))
      (file : ChunkedFile O) (later : Option (ChunkedFile O))
      → (later ≡ some file → In file rest × (has_identity entry file ≡ true))
      → match_or entry first later ≡ some file
      → In file (first ∷ rest) × (has_identity entry file ≡ true)
  match_or-In entry first rest file (some other) ih = λ h. (inr (ih h).0, (ih h).1)
  match_or-In entry first rest file none ih = elim (Bool-cases (has_identity entry first)) [
    | inl own ↦ rw own (λ h.
        subst (λ x. In x (first ∷ rest) × (has_identity entry x ≡ true)) (some_eq _ _ h)
          (inl refl, own))
    | inr other ↦ rw other (λ h. absurd (cc h))
  ]

  last_match-In :
      (entry : ManifestEntry) (found : List (ChunkedFile O)) (file : ChunkedFile O)
      → last_match entry found ≡ some file
      → In file found × (has_identity entry file ≡ true)
  last_match-In entry [] file h = absurd (cc h)
  last_match-In entry (first ∷ rest) file h =
      match_or-In entry first rest file (last_match entry rest)
        (λ e. last_match-In entry rest file e) h

  -- Every value of the dictionary is reusable for its key.
  abbrev AreReusable : List (String × ChunkedFile O) → Type 0
  AreReusable [] = Unit {0}
  AreReusable ((path, file) ∷ rest) = IsReusable path file × AreReusable rest

  put-AreReusable :
      (path : String) (file : ChunkedFile O) (table : List (String × ChunkedFile O))
      → IsReusable path file
      → AreReusable table
      → AreReusable (put path file table)
  put-AreReusable path file [] r h = (r, tt)
  put-AreReusable path file ((k, other) ∷ rest) r h = elim (Bool-cases (str_eq k path)) [
    | inl here ↦ rw here (subst (λ x. IsReusable x file) (sym ((str_eq_iff k path).0 here)) r, h.1)
    | inr later ↦ rw later (h.0, put-AreReusable path file rest r h.1)
  ]

  lookup-IsReusable :
      (path : String) (file : ChunkedFile O) (table : List (String × ChunkedFile O))
      → AreReusable table
      → lookup path table ≡ some file
      → IsReusable path file
  lookup-IsReusable path file [] h = λ e. absurd (cc e)
  lookup-IsReusable path file ((k, other) ∷ rest) h = elim (Bool-cases (str_eq k path)) [
    | inl here ↦ rw here (λ e.
        subst (λ x. IsReusable x file) ((str_eq_iff k path).0 here)
          (subst (λ x. IsReusable k x) (some_eq _ _ e) h.0))
    | inr later ↦ rw later (lookup-IsReusable path file rest h.1)
  ]

  found-IsReusable :
      (entry : ManifestEntry) (file : ChunkedFile O)
      → In entry entries
      → last_match entry candidates ≡ some file
      → IsReusable entry.path file
  unfolding is_candidate
  found-IsReusable entry file listed h =
      let (among, identity) = last_match-In entry candidates file h in
      let (stored, accepted) =
        In-filter (is_candidate repository_id profile_key hashes) file files among in
      record {
        stored = stored;
        same_repository = ground (arith, accepted);
        same_profile = (str_eq_iff _ _).0 (ground (arith, accepted));
        same_engine = (str_eq_iff _ _).0 (ground (arith, accepted));
        same_path = (str_eq_iff _ _).0 (ground (arith, identity));
        entry = entry;
        listed = listed;
        entry_path = refl;
        same_content = (str_eq_iff _ _).0 (ground (arith, identity));
      }

  add_found-AreReusable :
      (entry : ManifestEntry) (o : Option (ChunkedFile O)) (table : List (String × ChunkedFile O))
      → In entry entries
      → last_match entry candidates ≡ o
      → AreReusable table
      → AreReusable (add_found entry.path o table)
  add_found-AreReusable entry none table listed e h = h
  add_found-AreReusable entry (some file) table listed e h =
      put-AreReusable entry.path file table (found-IsReusable entry file listed e) h

  collect-AreReusable :
      (rest : List ManifestEntry) (table : List (String × ChunkedFile O))
      → ((e : ManifestEntry) → In e rest → In e entries)
      → AreReusable table
      → AreReusable (collect_reusable candidates rest table)
  collect-AreReusable [] table all h = h
  collect-AreReusable (entry ∷ rest) table all h =
      collect-AreReusable rest _ (λ e m. all e (inr m))
        (add_found-AreReusable entry _ table (all entry (inl refl)) refl h)

  -- A file that is found for a path is stored, has the path and the content of an entry, and was chunked
  -- for the repository with the profile and the current engine.
  pub find_reusable-IsReusable :
      (path : String) (file : ChunkedFile O)
      → lookup path (find_reusable repository_id profile_key entries files) ≡ some file
      → IsReusable path file
  unfolding find_reusable
  find_reusable-IsReusable path file =
      lookup-IsReusable path file _ (collect-AreReusable entries [] (λ e m. m) tt)
