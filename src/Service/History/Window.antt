-- ===== src/Service/History/Window.antt =====
-- A task's history is made of the events of its own turn: from its input event on, up to and with its
-- terminal event.
use managed_agent_web_slack.Common.{
  ℕ, true, false, any_row, zero, suc, ◌-◌, ◌==◌, ◌≡◌, refl, ap, leb, length, Option, none, some,
  List, [], ◌∷◌, ◌++◌, if◌then◌else◌, Bool-cases, inl, inr, arith,
}
use managed_agent_web_slack.Store.{Task}
use managed_agent_web_slack.Service.History.{
  Entry, Message, drop, last_messages, messages_of, is_event, in_slice, slice, pending_message,
  full_history, history,
}

-- `messages` ends with `end`.
abbrev pub EndsWith : List Message → List Message → Type 0
EndsWith messages end = (before : List Message) × (messages ≡ before ++ end)

drop-EndsWith : (n : ℕ) (messages : List Message) → EndsWith messages (drop n messages)
drop-EndsWith zero messages = ([], refl)
drop-EndsWith (suc n) [] = ([], refl)
drop-EndsWith (suc n) (m ∷ messages) =
    (m ∷ (drop-EndsWith n messages).0, rw⁻¹ ((drop-EndsWith n messages).1) refl)

length-drop : (n : ℕ) (messages : List Message) → length (drop n messages) ≡ length messages - n
length-drop zero messages = omega arith
length-drop (suc n) [] = omega arith
length-drop (suc n) (m ∷ messages) = ground (arith, length-drop n messages)

append_nil : (messages : List Message) → messages ≡ messages ++ []
append_nil [] = refl
append_nil (m ∷ messages) = ap (λ (rest : List Message). m ∷ rest) (append_nil messages)

last-EndsWith :
    (n : Option ℕ) (messages : List Message) → EndsWith messages (last_messages n messages)
unfolding last_messages
last-EndsWith none messages = ([], refl)
last-EndsWith (some n) messages = elim (Bool-cases (n == 0)) [
  | inl empty ↦ rw (empty, EndsWith) (messages, append_nil messages)
  | inr some_left ↦ rw (some_left, EndsWith) (drop-EndsWith (length messages - n) messages)
]

length-last :
    (n : ℕ) (messages : List Message)
    → length (last_messages (some n) messages)
      ≡ (if leb n (length messages) then n else length messages)
unfolding last_messages
length-last n messages = ground (arith, length-drop (length messages - n) messages)

-- `Turn t window after`: among the events of a turn and those after it, the turn's are `window`. It ends
-- with the first terminal event of the task, or with the last of the events.
pub data Turn (t : Task) : List Entry → List Entry → Type 0 where
  unfinished : Turn t [] []
  terminal :
      {e : Entry} {after : List Entry}
      → is_event t.cma_terminal_event_id e ≡ true
      → Turn t (e ∷ []) after
  step :
      {e : Entry} {window after : List Entry}
      → is_event t.cma_terminal_event_id e ≡ false
      → Turn t window after
      → Turn t (e ∷ window) after

-- The messages of the events, one event after another.
abbrev pub messages_in : Task → List Entry → List Message
messages_in t [] = []
messages_in t (e ∷ events) = messages_of t e ++ messages_in t events

in_slice-Turn :
    (t : Task) {window after : List Entry}
    → Turn t window after
    → in_slice t (window ++ after) ≡ messages_in t window
in_slice-Turn t Turn.unfinished = refl
in_slice-Turn t (Turn.terminal h) = rw h refl
in_slice-Turn t (Turn.step h turn) = rw (h, in_slice-Turn t turn) refl

slice-Turn :
    (t : Task) (before : List Entry) (start : Entry) (rest after : List Entry)
    → any_row (is_event t.cma_input_event_id) before ≡ false
    → is_event t.cma_input_event_id start ≡ true
    → Turn t (start ∷ rest) after
    → slice t (before ++ (start ∷ rest ++ after)) ≡ messages_in t (start ∷ rest)
unfolding slice
slice-Turn t [] start rest after h k turn = rw k (in_slice-Turn t turn)
slice-Turn t (e ∷ before) start rest after h k turn =
    ground (arith, slice-Turn t before start rest after)

no_pending :
    (t : Task) (start : Entry) (pending : Option (List ℕ))
    → is_event t.cma_input_event_id start ≡ true
    → pending_message t pending ≡ []
no_pending t start none k = refl
no_pending t start (some text) k = ground arith

-- When a task's input event is among the provider's events, its history is made of its own turn and
-- of nothing else, whatever text is pending: the full history is the messages of the events from the
-- first occurrence of the input event on, up to and with the first terminal event of the task from
-- there on, or up to the last event when there is none. The answer is all of it when no length is
-- asked for, and otherwise its last messages, as many as are asked for, or all when there are fewer.
pub history-OfTurn :
    (t : Task) (before : List Entry) (start : Entry) (rest after : List Entry)
    (pending : Option (List ℕ)) (n : ℕ)
    → any_row (is_event t.cma_input_event_id) before ≡ false
    → is_event t.cma_input_event_id start ≡ true
    → Turn t (start ∷ rest) after
    → (history t (before ++ (start ∷ rest ++ after)) pending none ≡ messages_in t (start ∷ rest))
      × EndsWith
          (messages_in t (start ∷ rest))
          (history t (before ++ (start ∷ rest ++ after)) pending (some n))
      × (length (history t (before ++ (start ∷ rest ++ after)) pending (some n)) ≡ (
          if leb n (length (messages_in t (start ∷ rest)))
          then n
          else length (messages_in t (start ∷ rest))))
unfolding history full_history last_messages
history-OfTurn t before start rest after pending n h k turn =
    let all = slice-Turn t before start rest after h k turn in
    rw (no_pending t start pending k, all)
      (
        refl,
        last-EndsWith (some n) (messages_in t (start ∷ rest)),
        length-last n (messages_in t (start ∷ rest)),
      )
