-- ===== src/Prompt/Tests.antt =====
-- Runs of `bounded_history` and `build_messages`, and their theorems at concrete inputs.
use showcase_host.Prelude.{ℕ, ◌+◌, ◌≤◌, ◌≡◌, refl, String, List, [], ◌∷◌, sum_by, str_of, arith}
use showcase_host.Prompt.{
  Role, user, assistant, ChatMessage, ChatSource, PreparedChat, Turn, complete_turns, select_turns,
  bounded_history, rules, header, footer, message_chars, available_chars, include_sources,
  context_of, build_messages, messages_of,
}
use showcase_host.Prompt.History.{Newest, bounded_history-Newest}
use showcase_host.Prompt.Sources.{Quotes, include_sources-Quotes, footer_chars, prompt-le}
use showcase_host.Prompt.Sources.Overrun.{prompt_overrun}

abbrev says : Role → String → ChatMessage
says role content = record { role = role; content = content }

-- The history of test_chat_service.py.
abbrev history : List ChatMessage
history =
    says user "old question"
    ∷ says assistant "old answer"
    ∷ says user "new question"
    ∷ says assistant "new answer"
    ∷ says user "incomplete"
    ∷ []

bounded_history_runs :
    (bounded_history history 2 100 ≡ says user "new question" ∷ says assistant "new answer" ∷ [])
    × (bounded_history history 12 5 ≡ [])
unfolding bounded_history complete_turns select_turns
bounded_history_runs = (refl, refl)

bounded_history-Newest_example :
    (kept : List Turn) × Newest 2 100 (complete_turns history) kept
    × (bounded_history history 2 100 ≡ messages_of kept)
bounded_history-Newest_example = bounded_history-Newest history 2 100

abbrev source : ChatSource
source = record {
  number = 1;
  chunk_id = "chunk";
  path = "src/app.py";
  language = "python";
  start_line = 3;
  end_line = 8;
  snapshot_sha = "a";
  text = "print('hi')";
}

header_runs : header source ≡ "\n[SOURCE 1] src/app.py:3-8 (python)\n"
unfolding header str_of
header_runs = refl

include_sources-Quotes_example :
    Quotes 40
      (source ∷ source ∷ [])
      (include_sources 40 (source ∷ source ∷ [])).0
      (include_sources 40 (source ∷ source ∷ [])).1
include_sources-Quotes_example = include_sources-Quotes 40 (source ∷ source ∷ [])

abbrev chat : ℕ → PreparedChat
chat prompt_max_chars =
    build_messages "octocat/hello" "What runs?" [] (source ∷ []) 12 prompt_max_chars

chat_runs :
    (sum_by message_chars (chat 1000).messages ≡ 583)
    × ((chat 529).sources ≡ [])
    × (sum_by message_chars (chat 533).messages ≡ 576)
unfolding build_messages bounded_history complete_turns select_turns available_chars include_sources
    rules header footer context_of str_of
chat_runs = (refl, refl, refl)

prompt-le_example :
    sum_by message_chars (chat 1000).messages ≤ 1000 + 31 + sum_by footer_chars (chat 1000).sources
unfolding build_messages bounded_history complete_turns select_turns available_chars include_sources
    rules header footer context_of str_of
prompt-le_example = prompt-le "octocat/hello" "What runs?" [] (source ∷ []) 12 1000 (λ e. cc)

prompt_overrun_example :
    ((chat 533).sources ≡ source ∷ [])
    × (sum_by message_chars (chat 533).messages ≡ 533 + 31 + footer_chars source)
unfolding bounded_history complete_turns select_turns available_chars rules header str_of
prompt_overrun_example =
    prompt_overrun "octocat/hello" "What runs?" [] source [] 12 533 (omega arith) (omega arith)
