-- ===== src/Service/Orphans.antt =====
-- A stored input that no task refers to is deleted again.
use managed_agent_web_slack.Common.{
  ℕ, ◌==◌, ◌≡◌, refl, List, [], ◌∷◌, Bool, true, false, not, ◌||◌, if◌then◌else◌, select, any_row,
  Option-cases, inl, inr, arith,
}
use managed_agent_web_slack.Store.{Key, Context, Task}
use managed_agent_web_slack.Runtime.Transaction.{Result, ok, err, key_error}
use managed_agent_web_slack.Runtime.Admission.{Admission, admit}
use managed_agent_web_slack.Runtime.Admission.Created.{HasInput, Creates, admit-Creates}
use managed_agent_web_slack.Sink.Texts.{strip, is_empty}
use managed_agent_web_slack.Service.World.{
  World, StoredInput, Message, Env, Failure, Reply, viewed, failed, meanwhile, put, removed,
  delete_then, wake_then,
}
use managed_agent_web_slack.Service.Send.{
  body_of, requested, admitted, after_admission, admit_stored, store_and_admit, is_none_given, send,
}

abbrev pub is_stored : Key → World → Bool
is_stored key w = any_row (λ o. o.key == key) w.inputs

-- When the object is stored, a task of the tables has it as its input.
abbrev pub NotOrphan : Key → World → Type 0
NotOrphan key w = is_stored key w ≡ true → HasInput key w.db

not_stored :
    (key : Key) (rows : List StoredInput)
    → any_row (λ o. o.key == key) (select (λ o. not (o.key == key)) rows) ≡ false
not_stored key [] = refl
not_stored key (o ∷ rows) = ground (arith, not_stored key rows)

module _ (e : Env) (working : e.deletes ≡ true) where
  removed-NotOrphan : (w : World) → NotOrphan e.object_key (removed e.object_key w)
  removed-NotOrphan w stored = absurd (ground (arith, stored, not_stored e.object_key w.inputs))

  deleted-NotOrphan :
      (r : Reply) (w : World) → NotOrphan e.object_key (delete_then e e.object_key (r, w)).1
  deleted-NotOrphan r w = ground (arith, working, removed-NotOrphan w)

  wake-NotOrphan :
      (key id : Key) (r : Reply) (w : World)
      → NotOrphan key w
      → NotOrphan key (wake_then e id r w).1
  wake-NotOrphan key id r w h = ground (arith, h)

  admitted-NotOrphan :
      (key : Key) (c : Context) (t : Task) (w : World)
      → NotOrphan key w
      → NotOrphan key (admitted e c t w).1
  admitted-NotOrphan key c t w h =
      ground (arith, h, wake-NotOrphan key c.context_id (viewed t.task_id) w h)

  after-NotOrphan :
      (r : Result Admission) (w : World)
      → Creates e.object_key (r, w.db)
      → NotOrphan e.object_key (after_admission e e.object_key r w).1
  after-NotOrphan (err key_error) w h = deleted-NotOrphan (failed Failure.invalid_params) w
  after-NotOrphan (err x) w h = deleted-NotOrphan (failed (Failure.raised x)) w
  after-NotOrphan (ok (c, t, true)) w h = admitted-NotOrphan e.object_key c t w (λ stored. h)
  after-NotOrphan (ok (c, t, false)) w h = ground (
    arith,
    working,
    admitted-NotOrphan e.object_key c t (removed e.object_key w) (removed-NotOrphan w),
  )

  stored-NotOrphan : (m : Message) (w : World) → NotOrphan e.object_key (admit_stored e m w).1
  unfolding admit_stored
  stored-NotOrphan m w =
      after-NotOrphan _
        (record w {
          db =
              (admit e.proposed_context_id (requested m.context_id) m.message_id e.proposed_task_id
                e.object_key w.db).1;
        })
        (admit-Creates e.object_key e.proposed_context_id (requested m.context_id) m.message_id
          e.proposed_task_id w.db)

  unstored-NotOrphan : (key : Key) (w : World) → is_stored key w ≡ false → NotOrphan key w
  unstored-NotOrphan key w fresh stored = absurd (ground (arith, fresh, stored))

  either-NotOrphan :
      (key : Key) (b : Bool) (x y : Reply × World)
      → NotOrphan key x.1
      → NotOrphan key y.1
      → NotOrphan key (if b then x else y).1
  either-NotOrphan key true x y h k = h
  either-NotOrphan key false x y h k = k

  second-NotOrphan :
      (key : Key) (b : Bool) (x y : Reply × World)
      → b ≡ false
      → NotOrphan key y.1
      → NotOrphan key (if b then x else y).1
  second-NotOrphan key true x y miss h = absurd (ground (arith, miss))
  second-NotOrphan key false x y miss h = h

  admission-NotOrphan :
      (m : Message) (body : List ℕ) (w : World)
      → e.puts ≡ true
      → is_stored e.object_key w ≡ false
      → NotOrphan e.object_key (store_and_admit e m body w).1
  unfolding store_and_admit
  admission-NotOrphan m body w accepting fresh =
      either-NotOrphan e.object_key (is_empty (strip body)) _ _
        (unstored-NotOrphan e.object_key w fresh)
        (ground (arith, accepting, stored-NotOrphan m (meanwhile e 0 (put e e.object_key body w))))

  new-NotOrphan :
      (m : Message) (w : World)
      → e.puts ≡ true
      → is_stored e.object_key w ≡ false
      → m.task_id ≡ 0
      → NotOrphan e.object_key (send e m w).1
  unfolding send
  new-NotOrphan m w accepting fresh first =
      let kept = unstored-NotOrphan e.object_key w fresh in
      either-NotOrphan e.object_key (not m.from_user || m.message_id == 0) _ _ kept (
        second-NotOrphan e.object_key (not (m.task_id == 0)) _ _ (ground (arith, first)) (
          either-NotOrphan e.object_key (not (is_none_given m.extensions) || is_none_given m.parts)
            _ _ kept
            (elim (Option-cases (body_of m.parts)) [
              | inl other ↦ rw other kept
              | inr (body, texts) ↦ rw texts (admission-NotOrphan m body w accepting fresh)
            ])))

-- A new message, whatever happens to its admission and whatever others commit: when the store
-- accepts the text and deletes what it is told to, an object that is left under the call's fresh key
-- is the input of a task of the tables.
pub send-NotOrphan :
    (e : Env) (m : Message) (w : World)
    → e.deletes ≡ true
    → e.puts ≡ true
    → is_stored e.object_key w ≡ false
    → m.task_id ≡ 0
    → is_stored e.object_key (send e m w).1 ≡ true
    → HasInput e.object_key (send e m w).1.db
send-NotOrphan e m w working accepting fresh first stored =
    new-NotOrphan e working m w accepting fresh first stored
