-- ===== src/Ingestion/Retention.antt =====
-- What the retention of app/services/ingestion.py leaves of a repository's snapshots.
use mathlib.Core.Option
use showcase_host.Prelude.{
  subst, sym, ◌<◌, ltb, Bool-cases, length-sort, String, ap, ◌∙◌, ◌⊎◌, inl, inr, In, In-All, All-In,
  All-filter, sort_by-All, Option, none, some, All-imp, All, ℕ, zero, suc, ◌≤◌, Bool, true, not,
  List, [], ◌∷◌, ◌≡◌, refl, ==_iff, if◌then◌else◌, filter, length, sum_by, sum_by-sort, sort_by,
  arith,
}
use showcase_host.Embeddings.Calls.{drop}
use showcase_host.Snapshots.{Limits, SnapshotError}
use showcase_host.Snapshots as Snapshots
use showcase_host.Snapshots.Keys.{resolve_key}
use showcase_host.Snapshots.Store.{Storage, delete, unlink_file, unlink_next}
use showcase_host.Jobs.{Job, get_job}
use showcase_host.Jobs.Table.{KeepsId, get_job-map}
use showcase_host.Ingestion.Endings.{HasRefused, IsForgotten}
use showcase_host.Ingestion.Tables.{
  IngestionColumns, forget_snapshot, delete_files, end_retention, SourceSnapshot, World,
  is_of_repository, by_newest, outdated, is_among, delete_snapshots, enforce_retention,
}

-- How many snapshots of a list pass a test.
abbrev tally : (SourceSnapshot → Bool) → List SourceSnapshot → ℕ
tally p xs = sum_by (λ s. if p s then 1 else 0) xs

tally-filter :
    (p : SourceSnapshot → Bool) (xs : List SourceSnapshot) → length (filter p xs) ≡ tally p xs
tally-filter p [] = refl
tally-filter p (x ∷ xs) = ground (arith, tally-filter p xs)

-- What is among the dropped ones is not counted.
tally-drop :
    (n : ℕ) (old xs : List SourceSnapshot)
    → All (λ (s : SourceSnapshot). is_among old s.id ≡ true) (drop n xs)
    → tally (λ s. not (is_among old s.id)) xs ≤ n
tally-drop zero old [] h = omega arith
tally-drop zero old (x ∷ xs) h = ground (arith, h.0, tally-drop zero old xs h.1)
tally-drop (suc n) old [] h = omega arith
tally-drop (suc n) old (x ∷ xs) h = ground (arith, tally-drop n old xs h)

is_among-more :
    (s : SourceSnapshot) (old : List SourceSnapshot) (id : ℕ)
    → is_among old id ≡ true
    → is_among (s ∷ old) id ≡ true
is_among-more s old id h = ground (arith, h)

All-among : (xs : List SourceSnapshot) → All (λ (s : SourceSnapshot). is_among xs s.id ≡ true) xs
All-among [] = tt
All-among (x ∷ xs) = (
  rw ((==_iff x.id x.id).1 refl) refl,
  All-imp _ _ (λ s. is_among-more x xs s.id) xs (All-among xs),
)

filter-and :
    (p q : SourceSnapshot → Bool) (xs : List SourceSnapshot)
    → length (filter p (filter q xs)) ≡ tally q (filter p xs)
filter-and p q [] = refl
filter-and p q (x ∷ xs) = ground (arith, filter-and p q xs)

deleted-le :
    (count repository_id : ℕ) (w : World)
    → length (
        filter
          (is_of_repository repository_id)
          (delete_snapshots (outdated count repository_id w.snapshots) w).snapshots)
      ≤ count
unfolding delete_snapshots outdated
deleted-le count repository_id w =
    let own = filter (is_of_repository repository_id) w.snapshots in
    let old = drop count (sort_by by_newest own) in
    omega (
      arith,
      filter-and (is_of_repository repository_id) (λ s. not (is_among old s.id)) w.snapshots,
      sum_by-sort by_newest (λ (s : SourceSnapshot). if not (is_among old s.id) then 1 else 0) own,
      tally-drop count old (sort_by by_newest own) (All-among old),
    )

All-drop : {A : Type 0} (P : A → Type 0) (n : ℕ) (xs : List A) → All P xs → All P (drop n xs)
All-drop P zero [] h = h
All-drop P zero (x ∷ xs) h = h
All-drop P (suc n) [] h = h
All-drop P (suc n) (x ∷ xs) h = All-drop P n xs h.1

outdated-In :
    (count repository_id : ℕ) (snapshots : List SourceSnapshot) (s : SourceSnapshot)
    → In s (outdated count repository_id snapshots)
    → In s snapshots
unfolding outdated
outdated-In count repository_id snapshots s m =
    All-In (λ (x : SourceSnapshot). In x snapshots) s _
      (All-drop _ count _ (
        sort_by-All by_newest _ (filter (is_of_repository repository_id) snapshots)
          (All-filter _ (is_of_repository repository_id) snapshots (In-All snapshots (λ x n. n)))))
      m

unlink-refused :
    (archive manifest : Snapshots.Result String) (storage : Storage) (e : SnapshotError)
    → (unlink_next manifest (unlink_file archive storage)).0 ≡ some e
    → (archive ≡ Snapshots.err e) ⊎ (manifest ≡ Snapshots.err e)
unlink-refused (Snapshots.err e') manifest storage e h = inl (cc h)
unlink-refused (Snapshots.ok path) (Snapshots.err e') storage e h = inr (cc h)
unlink-refused (Snapshots.ok path) (Snapshots.ok other) storage e h = absurd (cc h)

delete_files-stops :
    (limits : Limits) (old : List SourceSnapshot) (e : SnapshotError) (storage : Storage)
    → delete_files limits old (some e, storage) ≡ (some e, storage)
unfolding delete_files
delete_files-stops limits [] e storage = refl
delete_files-stops limits (s ∷ old) e storage = refl

-- The deletion of the files ends with an error only if a key is refused.
delete_files-refused :
    (limits : Limits) (old : List SourceSnapshot) (storage : Storage) (e : SnapshotError)
    → (delete_files limits old (none, storage)).0 ≡ some e
    → HasRefused limits old
unfolding delete_files delete
delete_files-refused limits [] storage e h = absurd (cc h)
delete_files-refused limits (s ∷ old) storage e h = after (delete_files-refused limits old) _ refl h
  where
    after :
        ((files : Storage) (e : SnapshotError)
          → (delete_files limits old (none, files)).0 ≡ some e
          → HasRefused limits old)
        → (r : Option SnapshotError × Storage)
        → unlink_next
            (resolve_key limits s.manifest_key)
            (unlink_file (resolve_key limits s.archive_key) storage)
          ≡ r
        → (delete_files limits old r).0 ≡ some e
        → HasRefused limits (s ∷ old)
    after later (none, files) same k = let (t, m, refused) = later files e k in (t, inr m, refused)
    after later (some e', files) same k = (
      s,
      inl refl,
      (
        e',
        unlink-refused (resolve_key limits s.archive_key) (resolve_key limits s.manifest_key)
            storage e' (ap (λ (x : Option SnapshotError × Storage). x.0) same),
      ),
    )

-- The retention leaves a repository no more snapshots than the setting says, unless a key is refused.
pub enforce_retention-le :
    (limits : Limits) (count repository_id : ℕ) (w : World)
    → (length (
          filter
            (is_of_repository repository_id)
            (enforce_retention limits count repository_id w).snapshots)
        ≤ count)
      ⊎ HasRefused limits w.snapshots
unfolding enforce_retention
enforce_retention-le limits count repository_id w =
    ended (delete_files limits (outdated count repository_id w.snapshots) (none, w.storage)) refl
  where
    ended :
        (r : Option SnapshotError × Storage)
        → delete_files limits (outdated count repository_id w.snapshots) (none, w.storage) ≡ r
        → (length (
              filter
                (is_of_repository repository_id)
                (end_retention (outdated count repository_id w.snapshots) w r).snapshots)
            ≤ count)
          ⊎ HasRefused limits w.snapshots
    ended (none, files) same = inl (deleted-le count repository_id w)
    ended (some e, files) same =
        let (s, m, refused) =
          delete_files-refused limits (outdated count repository_id w.snapshots) w.storage e
            (ap (λ (x : Option SnapshotError × Storage). x.0) same) in
        inr (s, outdated-In count repository_id w.snapshots s m, refused)

drop-all : {A : Type 0} (n : ℕ) (xs : List A) → length xs ≤ n → drop n xs ≡ []
drop-all zero [] h = refl
drop-all zero (x ∷ xs) h = absurd (omega (arith, h))
drop-all (suc n) [] h = refl
drop-all (suc n) (x ∷ xs) h = drop-all n xs (omega (arith, h))

none_among :
    (snapshots : List SourceSnapshot)
    → filter (λ (s : SourceSnapshot). not (is_among [] s.id)) snapshots ≡ snapshots
none_among [] = refl
none_among (s ∷ snapshots) = ap (λ l. s ∷ l) (none_among snapshots)

nothing_outdated :
    (limits : Limits) (old : List SourceSnapshot) (w : World)
    → [] ≡ old
    → (end_retention old w (delete_files limits old (none, w.storage))).snapshots ≡ w.snapshots
unfolding delete_files delete_snapshots
nothing_outdated limits old w e =
    subst
      (λ l. (end_retention l w (delete_files limits l (none, w.storage))).snapshots ≡ w.snapshots) e
      (none_among w.snapshots)

-- Without more snapshots of the repository than the setting says, every snapshot stays.
pub enforce_retention-spares :
    (limits : Limits) (count repository_id : ℕ) (w : World)
    → (count < length (filter (is_of_repository repository_id) w.snapshots))
      ⊎ ((enforce_retention limits count repository_id w).snapshots ≡ w.snapshots)
unfolding enforce_retention outdated
enforce_retention-spares limits count repository_id w =
    let own = filter (is_of_repository repository_id) w.snapshots in
    elim (Bool-cases (ltb count (length own))) [
      | inl many ↦ inl (ground (arith, many))
      | inr few ↦ inr (
          nothing_outdated limits (outdated count repository_id w.snapshots) w (
            sym (
              drop-all count (sort_by by_newest own)
                (ground (arith, few, length-sort by_newest own)))))
    ]

forget_snapshot-KeepsId : (old : List SourceSnapshot) → KeepsId (forget_snapshot old)
forget_snapshot-KeepsId old j = ground arith

forget_snapshot-eq :
    (old : List SourceSnapshot) (j : Job IngestionColumns)
    → (snapshot_id : Option ℕ) × (forget_snapshot old j
        ≡ record j { details = record j.details { snapshot_id = snapshot_id } })
forget_snapshot-eq old j = ((forget_snapshot old j).details.snapshot_id, ground arith)

-- Of the rows of jobs, the retention changes at most the snapshot.
pub enforce_retention-IsForgotten :
    (limits : Limits) (count repository_id : ℕ) (w : World) (k : ℕ)
    → IsForgotten
        (get_job k w.jobs)
        (get_job k (enforce_retention limits count repository_id w).jobs)
unfolding enforce_retention delete_snapshots
enforce_retention-IsForgotten limits count repository_id w k =
    ended (delete_files limits (outdated count repository_id w.snapshots) (none, w.storage))
  where
    kept :
        (o after : Option (Job IngestionColumns))
        → after ≡ Option.map (forget_snapshot (outdated count repository_id w.snapshots)) o
        → IsForgotten o after
    kept none after e = e
    kept (some j) after e =
        let (snapshot_id, same) = forget_snapshot-eq (outdated count repository_id w.snapshots) j in
        (snapshot_id, e ∙ ap some same)

    unchanged : (o : Option (Job IngestionColumns)) → IsForgotten o o
    unchanged none = refl
    unchanged (some j) = (j.details.snapshot_id, refl)

    ended :
        (r : Option SnapshotError × Storage)
        → IsForgotten
            (get_job k w.jobs)
            (get_job k (end_retention (outdated count repository_id w.snapshots) w r).jobs)
    ended (some e, files) = unchanged (get_job k w.jobs)
    ended (none, files) = kept (get_job k w.jobs) _ (
        get_job-map k _ w.jobs (forget_snapshot-KeepsId (outdated count repository_id w.snapshots)))
