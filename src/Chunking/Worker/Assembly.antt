-- ===== src/Chunking/Worker/Assembly.antt =====
-- The file events put together what the chunk events brought: no chunk is lost, invented, moved to
-- another file or out of its place.
use showcase_host.Prelude.{
  subst, ◌≡◌, refl, ap, sym, ◌∙◌, inl, inr, String, Bool, true, false, not, ◌||◌, Option, none,
  some, List, [], ◌∷◌, ◌++◌, append-nil, append_assoc, ◌==◌, if◌then◌else◌, str_eq, str_eq_iff,
  Bool-cases, arith,
}
use showcase_host.Chunking.Worker.{
  Client, after_request, request_chunks, incomplete_files, protocol_version, engine_version, Event,
  fatal, complete, chunk, file, unknown, Line, message, invalid_json, too_long, FileEvent, Step,
  continues, yields, finishes, raises, Outcome, finished, chunks_at, without, add_chunk,
  has_succeeded, is_empty, on_file, on_event, on_line, after_step, read_events,
}

differs : (p q path : String) → str_eq p q ≡ false → str_eq p path ≡ true → str_eq q path ≡ false
differs p q path differ here = ground (arith, str_eq_iff p q, str_eq_iff p path, str_eq_iff q path)

module _ {C : Type 0} where
  -- The chunks that an event brings for a file.
  abbrev brought_by : String → Event C → List C
  brought_by path fatal = []
  brought_by path (complete version) = []
  brought_by path (chunk p none) = []
  brought_by path (chunk none (some c)) = []
  brought_by path (chunk (some p) (some c)) = if str_eq p path then c ∷ [] else []
  brought_by path (file p status) = []
  brought_by path unknown = []

  abbrev is_complete : Event C → Bool
  is_complete (complete version) = true
  is_complete fatal = false
  is_complete (chunk p c) = false
  is_complete (file p status) = false
  is_complete unknown = false

  -- The chunks that the worker sent for a file before it was complete.
  unfoldable pub sent : String → List (Line C) → List C
  sent path [] = []
  sent path (invalid_json ∷ lines) = sent path lines
  sent path (too_long ∷ lines) = sent path lines
  sent path (message m ∷ lines) =
      let rest = sent path lines in
      if is_complete m.event then [] else brought_by path m.event ++ rest

  -- The chunks in the events that were yielded for a file.
  unfoldable pub yielded : String → List (FileEvent C) → List C
  yielded path [] = []
  yielded path (e ∷ events) =
      let rest = yielded path events in if str_eq e.path path then e.chunks ++ rest else rest

  add_chunk-chunks_at :
      (path q : String) (c : C) (pending : List (String × List C))
      → chunks_at path (add_chunk q c pending)
        ≡ chunks_at path pending ++ brought_by path (chunk (some q) (some c))
  add_chunk-chunks_at path q c [] = refl
  add_chunk-chunks_at path q c ((p, chunks) ∷ rest) = elim (Bool-cases (str_eq p q)) [
    | inl same ↦
        let along = ap (λ x. str_eq x path) ((str_eq_iff p q).0 same) in
        elim (Bool-cases (str_eq p path)) [
          | inl here ↦ rw (same, here) (rw (sym along ∙ here) refl)
          | inr away ↦
              rw (same, away) (rw (sym along ∙ away) (sym (append-nil (chunks_at path rest))))
        ]
    | inr differ ↦ elim (Bool-cases (str_eq p path)) [
      | inl here ↦ rw (differ, here) (rw (differs p q path differ here) (sym (append-nil chunks)))
      | inr away ↦ rw (differ, away) (add_chunk-chunks_at path q c rest)
    ]
  ]

  without_self :
      (path : String) (pending : List (String × List C))
      → chunks_at path (without path pending) ≡ []
  without_self path [] = refl
  without_self path ((p, chunks) ∷ rest) = ground (arith, without_self path rest)

  without_other :
      (path q : String) (pending : List (String × List C))
      → str_eq q path ≡ false
      → chunks_at path (without q pending) ≡ chunks_at path pending
  without_other path q [] other = refl
  without_other path q ((p, chunks) ∷ rest) other = elim (Bool-cases (str_eq p q)) [
    | inl same ↦
        rw (same, ap (λ x. str_eq x path) ((str_eq_iff p q).0 same) ∙ other)
          (without_other path q rest other)
    | inr differ ↦
        rw differ (ap (λ r. if str_eq p path then chunks else r) (without_other path q rest other))
  ]

  -- What a step keeps of the chunks that are still to be yielded: `whole` before the step, and after it
  -- the pending ones and `later`.
  abbrev Keeps : String → List C → List C → Step C → Type 0
  Keeps path whole later (continues pending) = whole ≡ chunks_at path pending ++ later
  Keeps path whole later (yields e pending) = whole ≡ (
      if str_eq e.path path
      then e.chunks ++ (chunks_at path pending ++ later)
      else chunks_at path pending ++ later)
  Keeps path whole later finishes = whole ≡ []
  Keeps path whole later (raises e) = Unit {0}

  taken :
      (path q : String) (pending : List (String × List C)) (later : List C)
      → chunks_at path pending ++ later ≡ (
          if str_eq q path
          then chunks_at q pending ++ (chunks_at path (without q pending) ++ later)
          else chunks_at path (without q pending) ++ later)
  taken path q pending later = elim (Bool-cases (str_eq q path)) [
    | inl same ↦ rw (same, (str_eq_iff q path).0 same, without_self path pending) refl
    | inr other ↦ rw (other, without_other path q pending other) refl
  ]

  nothing : (cs : List C) → is_empty cs ≡ true → cs ≡ []
  nothing [] e = refl
  nothing (c ∷ cs) e = absurd (cc e)

  on_complete-Keeps :
      (path : String) (pending : List (String × List C)) (later : List C)
      → Keeps path
          (chunks_at path pending ++ [])
          later
          (if is_empty pending then finishes else raises incomplete_files)
  on_complete-Keeps path [] later = refl
  on_complete-Keeps path (x ∷ pending) later = tt

  on_file-Keeps :
      (path q : String) (status : Option String) (pending : List (String × List C)) (later : List C)
      → Keeps path
          (chunks_at path pending ++ later)
          later
          (on_file q status (chunks_at q pending) (without q pending))
  unfolding on_file
  on_file-Keeps path q status pending later = elim (Bool-cases (has_succeeded status)) [
    | inl succeeded ↦ rw succeeded (taken path q pending later)
    | inr other ↦ elim (Bool-cases (is_empty (chunks_at q pending))) [
      | inl empty ↦
          rw (other, empty)
            (subst
              (λ (cs : List C). chunks_at path pending ++ later ≡ (
                if str_eq q path
                then cs ++ (chunks_at path (without q pending) ++ later)
                else chunks_at path (without q pending) ++ later))
              (nothing (chunks_at q pending) empty) (taken path q pending later))
      | inr some_left ↦ rw (other, some_left) tt
    ]
  ]

  on_event-Keeps :
      (path : String) (pending : List (String × List C)) (event : Event C) (later : List C)
      → Keeps path
          (chunks_at path pending
            ++ (if is_complete event then [] else brought_by path event ++ later))
          later
          (on_event pending event)
  unfolding on_event
  on_event-Keeps path pending fatal later = tt
  on_event-Keeps path pending (complete version) later =
      elim (Bool-cases (str_eq version engine_version)) [
        | inl same ↦ rw same (on_complete-Keeps path pending later)
        | inr differ ↦ rw differ tt
      ]
  on_event-Keeps path pending (chunk none c) later = tt
  on_event-Keeps path pending (chunk (some q) none) later = tt
  on_event-Keeps path pending (chunk (some q) (some c)) later =
      sym (append_assoc (chunks_at path pending) (brought_by path (chunk (some q) (some c))) later)
      ∙ ap (λ cs. cs ++ later) (sym (add_chunk-chunks_at path q c pending))
  on_event-Keeps path pending (file none status) later = tt
  on_event-Keeps path pending (file (some q) status) later =
      on_file-Keeps path q status pending later
  on_event-Keeps path pending unknown later = tt

  on_line-Keeps :
      (path request_id : String) (pending : List (String × List C)) (line : Line C)
      (lines : List (Line C))
      → Keeps path
          (chunks_at path pending ++ sent path (line ∷ lines))
          (sent path lines)
          (on_line request_id pending line)
  unfolding on_line sent
  on_line-Keeps path request_id pending invalid_json lines = tt
  on_line-Keeps path request_id pending too_long lines = tt
  on_line-Keeps path request_id pending (message m) lines =
      elim (Bool-cases
        (not (m.version == protocol_version) || not (str_eq m.request_id request_id))) [
          | inl mismatch ↦ rw mismatch tt
          | inr ours ↦ rw ours (on_event-Keeps path pending m.event (sent path lines))
        ]

  after_step-yielded :
      (path : String) (whole later : List C)
      (read : List (String × List C) → List (FileEvent C) × Outcome) (step : Step C)
      (events : List (FileEvent C))
      → ((pending : List (String × List C)) (rest : List (FileEvent C))
          → read pending ≡ (rest, finished)
          → chunks_at path pending ++ later ≡ yielded path rest)
      → Keeps path whole later step
      → after_step read step ≡ (events, finished)
      → whole ≡ yielded path events
  unfolding after_step yielded
  after_step-yielded path whole later read (continues pending) events next keeps e =
      keeps ∙ next pending events e
  after_step-yielded path whole later read (yields event pending) events next keeps e =
      rw (← ap (λ x. x.0) e) (
        keeps
        ∙ ap (λ r. if str_eq event.path path then event.chunks ++ r else r)
            (next pending (read pending).0 (ap (λ o. ((read pending).0, o)) (ap (λ x. x.1) e))))
  after_step-yielded path whole later read finishes events next keeps e =
      rw (← ap (λ x. x.0) e) keeps
  after_step-yielded path whole later read (raises code) events next keeps e =
      absurd (cc (ap (λ x. x.1) e))

  read_events-yielded :
      (path request_id : String) (lines : List (Line C)) (pending : List (String × List C))
      (events : List (FileEvent C))
      → read_events request_id pending lines ≡ (events, finished)
      → chunks_at path pending ++ sent path lines ≡ yielded path events
  unfolding read_events
  read_events-yielded path request_id [] pending events e = absurd (cc (ap (λ x. x.1) e))
  read_events-yielded path request_id (line ∷ lines) pending events e =
      after_step-yielded path (chunks_at path pending ++ sent path (line ∷ lines)) (sent path lines)
        (λ rest. read_events request_id rest lines) (on_line request_id pending line) events
        (λ rest more. read_events-yielded path request_id lines rest more)
        (on_line-Keeps path request_id pending line lines) e

-- If a request finishes, the process is kept, and for each file the chunks of the yielded events are
-- exactly the chunks that the worker sent for it before it was complete, in their order.
pub request_chunks-yielded :
    {C : Type 0} (path request_id : String) (lines : List (Line C)) (client client' : Client)
    (events : List (FileEvent C))
    → request_chunks request_id lines client ≡ (events, finished, client')
    → (sent path lines ≡ yielded path events)
      × (client' ≡ record { has_process = true; restart_count = client.restart_count })
unfolding request_chunks after_request
request_chunks-yielded path request_id lines client client' events e = (
  read_events-yielded path request_id lines [] events (ap (λ x. (x.0, x.1)) e),
  sym (ap (λ x. x.2) e) ∙ ap (after_request client) (ap (λ x. x.1) e),
)
