-- ===== src/Tests/SinkWitnesses.antt =====
-- The theorems on the receiver of pushes at concrete inputs.
use managed_agent_web_slack.Common.{◌≡◌, refl, none, some, List, [], ◌∷◌, ℕ, true, All}
use managed_agent_web_slack.Threads.{ThreadDb, get_thread}
use managed_agent_web_slack.Threads.Sends.{
  get_task_binding, record_logical_send, bind_task_id, unbound_row, upsert_send,
}
use managed_agent_web_slack.Threads.Contexts.{
  claim_context_initialization, initializable, bind_context, claimed_row,
}
use managed_agent_web_slack.Threads.Moves.Defs
use managed_agent_web_slack.Threads.Moves.Defs.{thread_move, thread_moves}
use managed_agent_web_slack.Threads.Creation.{create_thread, insert_thread}
use managed_agent_web_slack.Sink.Texts.{is_space}
use managed_agent_web_slack.Sink.Bodies.{read_body}
use managed_agent_web_slack.Sink.Receive.{
  Envelope, Host, Request, media_type, is_push, is_malformed, is_identity, identified, correlate,
  receive, received,
}
use managed_agent_web_slack.Sink.Correlated.{Correlated, receive-Correlated, receive-chunks}
use managed_agent_web_slack.Tests.ThreadWitnesses.{no_threads}

-- A thread of the agent 6 whose send 8 made the task 9 of the context 70.
abbrev bound_send : ThreadDb
bound_send =
    thread_moves
      (Defs.create_thread 20 5 6 none
        ∷ Defs.record_logical_send 50 20 6 8
        ∷ Defs.claim_context_initialization 40 20 30
        ∷ Defs.bind_context 20 40 70
        ∷ Defs.bind_task_id 20 8 9
        ∷ [])
      no_threads

abbrev first_code : List ℕ → ℕ
first_code [] = 0
first_code (c ∷ cs) = c

abbrev host : Host
host = record {
  parse = λ body. some (Envelope.task (record { task_id = 9 ∷ 65 ∷ []; context_id = 70 ∷ [] }) 0);
  state_name = λ n. some [];
  sha256 = λ body. body;
  key_of = first_code;
  agents = 6 ∷ [];
  publishes = true;
  between = λ db. db;
}

abbrev push : Request
push = record { content_type = media_type; delivery_id = []; chunks = (123 ∷ 125 ∷ []) ∷ [] }

receives : (receive host 6 push bound_send).0 ≡ received
unfolding receive is_push is_malformed is_identity is_space identified correlate read_body
    get_thread get_task_binding thread_moves thread_move create_thread insert_thread
    record_logical_send claim_context_initialization initializable bind_context claimed_row
    bind_task_id unbound_row upsert_send
receives = refl

receive-Correlated_example : All (Correlated host 6 bound_send) (receive host 6 push bound_send).1
receive-Correlated_example = receive-Correlated host 6 push bound_send

receive-chunks_example :
    receive host 6 (record push { chunks = (123 ∷ []) ∷ (125 ∷ []) ∷ [] }) bound_send
    ≡ receive host 6 push bound_send
receive-chunks_example = receive-chunks host 6 push ((123 ∷ []) ∷ (125 ∷ []) ∷ []) bound_send refl
