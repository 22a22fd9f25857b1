-- ===== src/Threads/Creation/Idempotent.antt =====
-- A repeated creation request gives the thread that the first one made.
use managed_agent_web_slack.Common.{
  ℕ, ◌≡◌, Option, none, some, List, [], ◌∷◌, ◌++◌, Bool, true, find_row, Option-cases, inl, inr,
  arith,
}
use managed_agent_web_slack.Store.{Key}
use managed_agent_web_slack.Threads.{Thread, ThreadDb, ok}
use managed_agent_web_slack.Threads.Creation.{
  new_thread, requested_by, insert_thread, create_thread_idempotent,
}

find_row-last :
    {A : Type 0} (p : A → Bool) (rows : List A) (r : A)
    → find_row p rows ≡ none
    → p r ≡ true
    → find_row p (rows ++ r ∷ []) ≡ some r
find_row-last p [] r h hit = ground (arith, hit)
find_row-last p (x ∷ rows) r h hit = ground (arith, find_row-last p rows r)

-- When a creation request returned a thread, the same request of the same principal for the same
-- agent, whatever its fresh id and title, returns that thread and changes nothing.
pub create_thread_idempotent-again :
    (fresh other principal_id agent_id request_id : Key) (title title' : Option (List ℕ))
    (db : ThreadDb) {t : Thread}
    → (create_thread_idempotent fresh principal_id agent_id request_id title db).0 ≡ ok t
    → create_thread_idempotent other principal_id agent_id request_id title'
        (create_thread_idempotent fresh principal_id agent_id request_id title db).1
      ≡ (ok t, (create_thread_idempotent fresh principal_id agent_id request_id title db).1)
unfolding create_thread_idempotent insert_thread
create_thread_idempotent-again fresh other p a r title title' db h =
    elim (Option-cases (find_row (requested_by p r) db.threads)) [
      | inl missing ↦
          let row = new_thread fresh p a (some r) title db.now in
          ground (arith, missing, find_row-last (requested_by p r) db.threads row)
      | inr (x, found) ↦ ground (arith, found)
    ]
