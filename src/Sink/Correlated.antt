-- ===== src/Sink/Correlated.antt =====
-- What is published names the thread and context of the task, and does not depend on the chunks.
use managed_agent_web_slack.Common.{
  ℕ, ◌≡◌, refl, ◌==◌, equals, Option, none, some, List, [], not, ◌||◌, All, Option-cases,
  Bool-cases, inl, inr, arith,
}
use managed_agent_web_slack.Store.{Key}
use managed_agent_web_slack.Threads.{Thread, LogicalSend, ThreadDb, get_thread}
use managed_agent_web_slack.Threads.Sends.{get_task_binding}
use managed_agent_web_slack.Sink.Bodies.{read_body, read_body-whole, joined, max_body_bytes}
use managed_agent_web_slack.Sink.Receive.{
  Identity, EventKind, Envelope, Request, Update, Answer, Host, bound_thread, publish_to,
  identified, correlate, parsed, receive,
}

-- The update names the agent, and the thread of the send that the task is bound to: a thread of this
-- agent and of the update's context.
abbrev pub Correlated : Host → Key → ThreadDb → Update → Type 0
Correlated h a db u =
    (u.agent_id ≡ a)
    × (s : LogicalSend) × (get_task_binding a (h.key_of u.task_id) db ≡ some s)
    × (t : Thread) × (get_thread s.thread_id (h.between db) ≡ some t)
    × (u.thread_id ≡ t.thread_id)
    × (t.agent_id ≡ a)
    × (t.context_id ≡ some (h.key_of u.context_id))

module _ (h : Host) (a : Key) (db : ThreadDb) where
  abbrev Sound : Answer × List Update → Type 0
  Sound result = All (Correlated h a db) result.1

  publish_to-Sound :
      (delivery_id body : List ℕ) (kind : EventKind) (id : Identity) (state : Option ℕ)
      (b : Option LogicalSend)
      → get_task_binding a (h.key_of id.task_id) db ≡ b
      → Sound (publish_to h a delivery_id body kind id state (bound_thread h a db b))
  publish_to-Sound delivery_id body kind id state none found = tt
  publish_to-Sound delivery_id body kind id state (some s) found =
      elim (Option-cases (get_thread s.thread_id (h.between db))) [
        | inl missing ↦ rw (missing, Sound) tt
        | inr (t, there) ↦
            elim (Bool-cases
              (not (t.agent_id == a) || not (equals t.context_id (h.key_of id.context_id)))) [
                | inl other ↦ rw (there, other, Sound) tt
                | inr same ↦
                    rw (there, same, Sound)
                      (
                        (
                          refl,
                          s,
                          found,
                          t,
                          there,
                          refl,
                          ground (arith, same),
                          ground (arith, same),
                        ),
                        tt,
                      )
              ]
      ]

  identified-Sound :
      (delivery_id body : List ℕ) (kind : EventKind) (id : Identity) (state : Option ℕ)
      → Sound (identified h a delivery_id body db kind id state)
  unfolding identified
  identified-Sound delivery_id body kind id state =
      ground (arith, publish_to-Sound delivery_id body kind id state _ refl)

  correlate-Sound :
      (delivery_id body : List ℕ) (e : Envelope) → Sound (correlate h a delivery_id body db e)
  unfolding correlate
  correlate-Sound delivery_id body (Envelope.task id state) =
      identified-Sound delivery_id body EventKind.task id (some state)
  correlate-Sound delivery_id body (Envelope.message id) =
      identified-Sound delivery_id body EventKind.message id none
  correlate-Sound delivery_id body (Envelope.status_update id state) =
      identified-Sound delivery_id body EventKind.status_update id (some state)
  correlate-Sound delivery_id body (Envelope.artifact_update id) =
      identified-Sound delivery_id body EventKind.artifact_update id none
  correlate-Sound delivery_id body Envelope.no_payload = tt

  parsed-Sound : (delivery_id body : List ℕ) → Sound (parsed h a delivery_id body db)
  parsed-Sound delivery_id body = elim (Option-cases (h.parse body)) [
    | inl malformed ↦ rw (malformed, Sound, parsed) tt
    | inr (e, known) ↦ rw (known, Sound, parsed) (correlate-Sound delivery_id body e)
  ]

-- Whatever a push says, and whatever others commit between the receiver's reads: an update that is
-- handed to the bus names the receiver's agent and the thread of the logical send that its task is
-- bound to, and that thread is one of this agent and of the update's context.
pub receive-Correlated :
    (h : Host) (a : Key) (r : Request) (db : ThreadDb)
    → All (Correlated h a db) (receive h a r db).1
unfolding receive
receive-Correlated h a r db = elim (Option-cases (read_body max_body_bytes [] r.chunks)) [
  | inl long ↦ rw long (ground arith)
  | inr (body, whole) ↦ rw whole (ground (arith, parsed-Sound h a db r.delivery_id body))
]

-- A push is answered, and published, in the same way however its body is cut into chunks.
pub receive-chunks :
    (h : Host) (a : Key) (r : Request) (chunks : List (List ℕ)) (db : ThreadDb)
    → joined chunks ≡ joined r.chunks
    → receive h a (record r { chunks = chunks }) db ≡ receive h a r db
unfolding receive
receive-chunks h a r chunks db same =
    rw (read_body-whole max_body_bytes chunks, read_body-whole max_body_bytes r.chunks, same) refl
