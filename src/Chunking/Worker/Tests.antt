-- ===== src/Chunking/Worker/Tests.antt =====
-- A request of two files whose chunk events are interleaved.
use showcase_host.Prelude.{ℕ, ◌≡◌, refl, true, false, some, List, [], ◌∷◌}
use showcase_host.Chunking.Worker.{
  Event, complete, chunk, file, Line, message, FileEvent, finished, raised, on_file, on_event,
  on_line, after_step, read_events, Client, after_request, discard_process, request_chunks,
  engine_version, incomplete_files,
}
use showcase_host.Chunking.Worker.Assembly.{sent, yielded, request_chunks-yielded}

abbrev line : Event ℕ → Line ℕ
line event = message (record { version = 3; request_id = "r"; event = event })

abbrev lines : List (Line ℕ)
lines =
    line (chunk (some "a") (some 1))
    ∷ line (chunk (some "b") (some 2))
    ∷ line (chunk (some "a") (some 3))
    ∷ line (file (some "a") (some "succeeded"))
    ∷ line (file (some "c") (some "failed"))
    ∷ line (file (some "b") (some "succeeded"))
    ∷ line (complete engine_version)
    ∷ []

abbrev events : List (FileEvent ℕ)
events =
    record { path = "a"; status = some "succeeded"; chunks = 1 ∷ 3 ∷ [] }
    ∷ record { path = "c"; status = some "failed"; chunks = [] }
    ∷ record { path = "b"; status = some "succeeded"; chunks = 2 ∷ [] }
    ∷ []

abbrev idle : Client
idle = record { has_process = false; restart_count = 0 }

abbrev ready : Client
ready = record { has_process = true; restart_count = 0 }

request_chunks_runs : request_chunks "r" lines idle ≡ (events, finished, ready)
unfolding request_chunks after_request read_events after_step on_line on_event on_file
request_chunks_runs = refl

incomplete_runs :
    request_chunks "r"
      (line (chunk (some "a") (some 1)) ∷ line (complete engine_version) ∷ [])
      ready
    ≡ ([], raised incomplete_files, record { has_process = false; restart_count = 1 })
unfolding request_chunks after_request discard_process read_events after_step on_line on_event
    on_file
incomplete_runs = refl

request_chunks-yielded_example : (sent "a" lines ≡ yielded "a" events) × (ready ≡ ready)
request_chunks-yielded_example =
    request_chunks-yielded "a" "r" lines idle ready events request_chunks_runs
