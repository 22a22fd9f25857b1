-- ===== src/Runtime/Moves/Accepted.antt =====
-- An accepted human ruling is the one that its request carries.
use managed_agent_web_slack.Common.{
  ◌==◌, ◌≡◌, refl, ◌∙◌, ap, All, some, List, [], ◌∷◌, Bool, true, false, find_row, update_where,
  Bool-cases, Option-cases, inl, inr, arith,
}
use managed_agent_web_slack.Store.{Key, Decision, Request, Db}
use managed_agent_web_slack.Runtime.Review.{
  record_human_ruling, open_for_ruling, ruled, same_decision,
}
use managed_agent_web_slack.Runtime.Moves.UniqueIds.{has_id, UniqueIds}

-- A row that an UPDATE writes and that its reading condition still finds.
find_row-update :
    {A : Type 0} (p q : A → Bool) (f : A → A) (rows : List A) {r : A}
    → find_row p rows ≡ some r
    → ((x : A) → p x ≡ true → (q x ≡ true) × (p (f x) ≡ true))
    → ((x : A) → p x ≡ false → p (f x) ≡ false)
    → find_row p (update_where q f rows) ≡ some (f r)
find_row-update p q f [] h hit miss = ground arith
find_row-update p q f (x ∷ rows) h hit miss = elim (Bool-cases (p x)) [
  | inl found ↦ ground (arith, hit x found)
  | inr other ↦ ground (arith, miss x other, find_row-update p q f rows (rw other at h) hit miss)
]

module _ (request_id task_id : Key) (d : Decision) (db : Db) where
  stored_row :
      (row : Request)
      → find_row (open_for_ruling request_id task_id db) db.requests ≡ some row
      → find_row
          (open_for_ruling request_id task_id db)
          (update_where (λ r. r.request_id == request_id) (ruled d db.now) db.requests)
        ≡ some (ruled d db.now row)
  unfolding open_for_ruling
  stored_row row h =
      find_row-update (open_for_ruling request_id task_id db) (λ r. r.request_id == request_id)
        (ruled d db.now) db.requests h (λ x yes'. ground arith) (λ x no'. ground arith)

  -- A second call at once changes nothing, and returns whether its ruling is the same.
  pub ruled_again :
      (again : Decision)
      → (record_human_ruling request_id task_id d db).0 ≡ true
      → record_human_ruling request_id task_id again (record_human_ruling request_id task_id d db).1
        ≡ (same_decision d again, (record_human_ruling request_id task_id d db).1)
  unfolding record_human_ruling open_for_ruling
  ruled_again again accepted =
      elim (Option-cases (find_row (open_for_ruling request_id task_id db) db.requests)) [
        | inl closed ↦ ground arith
        | inr (row, found) ↦ ground (arith, stored_row row found)
      ]

-- As long as a request has the id `k`, its ruling is `d`.
abbrev pub Carries : Key → Decision → Request → Type 0
Carries k d r = (r.request_id == k) ≡ true → r.human_ruling ≡ some d

absent-Carries :
    (k : Key) (d : Decision) (rows : List Request) → has_id k rows ≡ false → All (Carries k d) rows
absent-Carries k d [] h = tt
absent-Carries k d (r ∷ rows) h = (λ same. ground arith, absent-Carries k d rows (ground arith))

find_row-has_id :
    (k : Key) (p : Request → Bool) (rows : List Request) {r : Request}
    → ((x : Request) → p x ≡ true → (x.request_id == k) ≡ true)
    → find_row p rows ≡ some r
    → has_id k rows ≡ true
find_row-has_id k p [] named h = cc
find_row-has_id k p (x ∷ rows) named h = elim (Bool-cases (p x)) [
  | inl hit ↦ ground (arith, named x hit)
  | inr miss ↦ ground (arith, find_row-has_id k p rows named (rw miss at h))
]

-- The id is the primary key: the row that was read is the only one of its id.
found-Carries :
    (k : Key) (d : Decision) (p : Request → Bool) (rows : List Request) {r : Request}
    → ((x : Request) → p x ≡ true → (x.request_id == k) ≡ true)
    → UniqueIds rows
    → find_row p rows ≡ some r
    → r.human_ruling ≡ some d
    → All (Carries k d) rows
found-Carries k d p [] named u h e = tt
found-Carries k d p (x ∷ rows) {r = r} named u h e = elim (Bool-cases (p x)) [
  | inl hit ↦
      let same : x ≡ r = ground arith in
      let is_k = named x hit in
      (
        (λ again. ap (λ (y : Request). y.human_ruling) same ∙ e),
        absent-Carries k d rows (ground arith),
      )
  | inr miss ↦
      let rest = rw miss at h in
      let later = find_row-has_id k p rows named rest in
      (λ same. ground arith, found-Carries k d p rows named u.1 rest e)
]

stored-Carries :
    (k : Key) (d : Decision) (db : Db) (rows : List Request)
    → All (Carries k d) (update_where (λ r. r.request_id == k) (ruled d db.now) rows)
stored-Carries k d db [] = tt
stored-Carries k d db (r ∷ rows) = elim (Bool-cases (r.request_id == k)) [
  | inl hit ↦ rw hit ((λ same. refl), stored-Carries k d db rows)
  | inr miss ↦ rw miss ((λ same. ground arith), stored-Carries k d db rows)
]

-- An accepted ruling is in the table.
pub accepted-Carries :
    (k t : Key) (d : Decision) (db : Db)
    → UniqueIds db.requests
    → (record_human_ruling k t d db).0 ≡ true
    → All (Carries k d) (record_human_ruling k t d db).1.requests
unfolding record_human_ruling open_for_ruling
accepted-Carries k t d db u accepted =
    elim (Option-cases (find_row (open_for_ruling k t db) db.requests)) [
      | inl closed ↦ ground arith
      | inr (row, found) ↦ ground (
        arith,
        stored-Carries k d db db.requests,
        found-Carries k d (open_for_ruling k t db) db.requests {r = row} (λ x h. ground arith) u
            found,
      )
    ]
