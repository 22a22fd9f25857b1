-- ===== src/Turns/Outcomes.antt =====
-- A turn that is sent leaves its logical send bound to the task, and its thread to the context.
use managed_agent_web_slack.Common.{
  ℕ, ◌≡◌, refl, ◌==◌, equals, Option, none, some, List, Bool, true, false, ◌&&◌, ◌||◌,
  if◌then◌else◌, find_row, any_row-found, find_row-All, Bool-cases, Option-cases, inl, inr, arith,
}
use managed_agent_web_slack.Store.{Key}
use managed_agent_web_slack.Threads.{
  Thread, LogicalSend, ThreadDb, Outcome, ok, err, is_ready, get_thread,
}
use managed_agent_web_slack.Threads.Sends.{record_logical_send, bind_task_id}
use managed_agent_web_slack.Threads.Contexts.{bind_context}
use managed_agent_web_slack.Threads.Moves.Defs.{ThreadMove, thread_move}
use managed_agent_web_slack.Threads.Moves.Kept.{thread_move-Kept}
use managed_agent_web_slack.Threads.Moves.Stable.{thread_moves-Kept}
use managed_agent_web_slack.Threads.Moves.Checks.{
  IsValid, context_ok, thread_move-IsValid, thread_moves-IsValid,
}
use managed_agent_web_slack.Sink.Texts.{strip, is_empty}
use managed_agent_web_slack.Turns.Send.{
  Host, Turn, no_card, sent, push_setup, Start, holds, knows, gave_up, failed, Reply, accepted,
  seen, start, set_up_push, bind_task, after_bind, first_turn, later_turn, started, recorded,
  with_thread, send_turn,
}
use managed_agent_web_slack.Turns.Bound.{
  Sent, Ready, Ready-Kept, Knows, bind_context-Ready, bind_task_id-Sent, claim_context-Knows,
}

-- The turn's tables, when it is sent or only its push configuration failed.
abbrev pub Settles : Key → Key → Turn × ThreadDb → Type 0
Settles id m (sent k c, db) = Sent id m k db × Ready id c db
Settles id m (push_setup k c, db) = Sent id m k db × Ready id c db
Settles id m (turn, db) = Unit

module _ (h : Host) (id m : Key) where
  either-Settles :
      (b : Bool) (x y : Turn × ThreadDb)
      → Settles id m x
      → Settles id m y
      → Settles id m (if b then x else y)
  either-Settles true x y h k = h
  either-Settles false x y h k = k

  set_up-Settles :
      (k c : Key) (x : Outcome LogicalSend × ThreadDb)
      → ((s : LogicalSend) → x.0 ≡ ok s → Sent id m k x.1)
      → Ready id c x.1
      → Settles id m (set_up_push h k c x)
  set_up-Settles k c (err e, db) made ready = tt
  set_up-Settles k c (ok s, db) made ready = ground (arith, made s refl, ready)

  bind_task-Settles :
      (k c : Key) (db : ThreadDb) → Ready id c db → Settles id m (bind_task h id m k c db)
  unfolding thread_move
  bind_task-Settles k c db ready =
      let now = seen h 13 db in
      let later = Ready-Kept id c db now (thread_moves-Kept (h.others 13) db) ready in
      set_up-Settles k c (bind_task_id id m k now) (λ s done. bind_task_id-Sent id m k now done)
        (Ready-Kept id c now (bind_task_id id m k now).1
          (thread_move-Kept (ThreadMove.bind_task_id id m k) now) later)

  after_bind-Settles :
      (k c : Key) (x : Outcome Thread × ThreadDb)
      → ((t : Thread) → x.0 ≡ ok t → Ready id c x.1)
      → Settles id m (after_bind h id m k c x)
  after_bind-Settles k c (err e, db) made = tt
  after_bind-Settles k c (ok t, db) made = bind_task-Settles k c db (made t refl)

  first-Settles :
      (claim : Key) (r : Reply) (db : ThreadDb) → Settles id m (first_turn h id m claim r db)
  first-Settles claim Reply.refused db = tt
  first-Settles claim Reply.lost db = tt
  first-Settles claim (accepted k c) db =
      after_bind-Settles k c (bind_context id claim c (seen h 12 db))
        (λ t done. bind_context-Ready id claim c (seen h 12 db) done)

  later-Settles :
      (c : Key) (r : Reply) (db : ThreadDb)
      → Ready id c db
      → Settles id m (later_turn h id m c r db)
  later-Settles c Reply.refused db ready = tt
  later-Settles c Reply.lost db ready = tt
  later-Settles c (accepted k d) db ready = elim (Bool-cases (d == c)) [
    | inl same ↦
        let equal : d ≡ c = ground (arith, same) in
        rw (same, Settles) (bind_task-Settles k d db (rw equal ready))
    | inr other ↦ rw (other, Settles) tt
  ]

  started-Settles : (x : Start × ThreadDb) → Knows id x → Settles id m (started h id m x)
  started-Settles (failed e, db) known = tt
  started-Settles (gave_up, db) known = tt
  started-Settles (holds k, db) known = first-Settles k (h.reply 0) db
  started-Settles (knows c, db) known = elim (Bool-cases (c == 0)) [
    | inl empty ↦ rw (empty, Settles) tt
    | inr full ↦ rw (full, Settles) (later-Settles c (h.reply c) db known)
  ]

  -- A context that the thread has already.
  start-Knows :
      (c : Option Key) (db : ThreadDb)
      → IsValid db
      → ((known : Key) → c ≡ some known → Ready id known db)
      → Knows id (start h id c db)
  start-Knows none db v had = claim_context-Knows 11 h id db v
  start-Knows (some c) db v had = elim (Bool-cases (c == 0)) [
    | inl empty ↦ rw (empty, Knows) (claim_context-Knows 11 h id db v)
    | inr full ↦ rw (full, Knows) (had c refl)
  ]

  recorded-Settles :
      (t : Thread) (x : Outcome LogicalSend × ThreadDb)
      → IsValid x.1
      → ((known : Key) → t.context_id ≡ some known → Ready id known x.1)
      → Settles id m (recorded h id m t x)
  recorded-Settles t (err e, db) v had = tt
  recorded-Settles t (ok s, db) v had =
      started-Settles (start h id t.context_id db) (start-Knows t.context_id db v had)

  -- What the first read saw still holds after the send is recorded.
  read-Ready :
      (a : Key) (db : ThreadDb) (t : Thread)
      → IsValid db
      → find_row (λ (x : Thread). x.thread_id == id) db.threads ≡ some t
      → (known : Key) → t.context_id ≡ some known
      → Ready id known (record_logical_send h.send_id id a m (seen h 0 db)).1
  unfolding thread_move context_ok
  read-Ready a db t v found known had =
      let valid =
        find_row-All (λ x. context_ok x ≡ true) (λ x. x.thread_id == id) db.threads v.contexts
          found in
      let there : Ready id known db =
        any_row-found (λ x. x.thread_id == id)
          (λ x. is_ready x.context_state && equals x.context_id known) db.threads found
          (ground (arith, valid, had)) in
      let now = seen h 0 db in
      Ready-Kept id known now (record_logical_send h.send_id id a m now).1
        (thread_move-Kept (ThreadMove.record_logical_send h.send_id id a m) now)
        (Ready-Kept id known db now (thread_moves-Kept (h.others 0) db) there)

  thread-Settles :
      (db : ThreadDb) (t : Thread)
      → IsValid db
      → find_row (λ (x : Thread). x.thread_id == id) db.threads ≡ some t
      → Settles id m (with_thread h id m db (some t))
  unfolding thread_move
  thread-Settles db t v found =
      either-Settles h.card _ (no_card, db)
        (recorded-Settles t (record_logical_send h.send_id id t.agent_id m (seen h 0 db))
          (thread_move-IsValid (ThreadMove.record_logical_send h.send_id id t.agent_id m)
            (seen h 0 db) (thread_moves-IsValid (h.others 0) db v))
          (read-Ready t.agent_id db t v found))
        tt

-- When a turn's task is sent, also when only its push configuration failed, and whatever other
-- callers commit between its transactions: the logical send of the thread and message is bound to
-- that task, and the thread is ready with that task's context.
pub send_turn-Settles :
    (h : Host) (id m : Key) (text : List ℕ) (db : ThreadDb)
    → IsValid db
    → Settles id m (send_turn h id m text db)
unfolding send_turn get_thread
send_turn-Settles h id m text db v = elim (Bool-cases (is_empty (strip text) || m == 0)) [
  | inl invalid ↦ rw (invalid, Settles) tt
  | inr valid ↦ elim (Option-cases (find_row (λ (t : Thread). t.thread_id == id) db.threads)) [
    | inl missing ↦ rw (valid, missing, Settles) tt
    | inr (t, found) ↦ rw (valid, found, Settles) (thread-Settles h id m db t v found)
  ]
]
