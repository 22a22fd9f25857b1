-- ===== src/Runtime/Tasks/Order.antt =====
-- Turns of a context run in the order of their sequence numbers.
use managed_agent_web_slack.Common.{
  ◌==◌, ◌≤◌, ◌≡◌, refl, some, none, List, [], ◌∷◌, Bool, true, ◌&&◌, select, All, subst, sym,
  Bool-cases, inl, inr, Option, arith,
}
use managed_agent_web_slack.Store.{Key, Task, Db, is_queued}
use managed_agent_web_slack.Runtime.Requests.{sorted, insert_sorted}
use managed_agent_web_slack.Runtime.Tasks.{by_sequence, next_queued}

module _ {A : Type 0} where
  pub All-weaken :
      {P Q : A → Type 0} (rows : List A) → ((x : A) → P x → Q x) → All P rows → All Q rows
  All-weaken [] step h = tt
  All-weaken (x ∷ rows) step h = (step x h.0, All-weaken rows step h.1)

  select-All :
      (P : A → Type 0) (p : A → Bool) (rows : List A)
      → All P (select p rows)
      → All (λ x. p x ≡ true → P x) rows
  select-All P p [] h = tt
  select-All P p (x ∷ rows) h = elim (Bool-cases (p x)) [
    | inl hit ↦
        let h' : All P (x ∷ select p rows) = rw hit at h in ((λ g. h'.0), select-All P p rows h'.1)
    | inr miss ↦
        let h' : All P (select p rows) = rw miss at h in
        ((λ g. absurd (ground (arith, g, miss))), select-All P p rows h')
  ]

  pub selected : (p : A → Bool) (rows : List A) → All (λ x. p x ≡ true) (select p rows)
  selected p [] = tt
  selected p (x ∷ rows) = elim (Bool-cases (p x)) [
    | inl hit ↦ rw hit (hit, selected p rows)
    | inr miss ↦ rw miss (selected p rows)
  ]

pub insert_sorted-All :
    (P : Task → Type 0) (x : Task) (rows : List Task)
    → P x
    → All P rows
    → All P (insert_sorted by_sequence x rows)
unfolding insert_sorted
insert_sorted-All P x [] hx h = (hx, tt)
insert_sorted-All P x (y ∷ rows) hx h = elim (Bool-cases (by_sequence y x)) [
  | inl less ↦ rw less (h.0, insert_sorted-All P x rows hx h.1)
  | inr more ↦ rw more (hx, h)
]

pub sorted-All :
    (P : Task → Type 0) (rows : List Task) → All P rows → All P (sorted by_sequence rows)
unfolding sorted
sorted-All P [] h = tt
sorted-All P (x ∷ rows) h =
    insert_sorted-All P x (sorted by_sequence rows) h.0 (sorted-All P rows h.1)

-- The head of the first list is least in the second, which is empty when the first is.
abbrev IsLeast : List Task → List Task → Type 0
IsLeast [] rows = rows ≡ []
IsLeast (t ∷ ts) rows = All (λ x. t.sequence ≤ x.sequence) rows

insert_sorted-IsLeast :
    (x : Task) (ys rows : List Task)
    → IsLeast ys rows
    → IsLeast (insert_sorted by_sequence x ys) (x ∷ rows)
unfolding insert_sorted
insert_sorted-IsLeast x [] rows h =
    (omega arith, subst (λ (xs : List Task). All (λ z. x.sequence ≤ z.sequence) xs) (sym h) tt)
insert_sorted-IsLeast x (y ∷ ys) rows h = elim (Bool-cases (by_sequence y x)) [
  | inl less ↦ rw less (ground (arith, less), h)
  | inr more ↦ rw more (omega arith, All-weaken rows (λ z g. ground (arith, more, g)) h)
]

sorted-IsLeast : (rows : List Task) → IsLeast (sorted by_sequence rows) rows
unfolding sorted
sorted-IsLeast [] = refl
sorted-IsLeast (x ∷ rows) =
    insert_sorted-IsLeast x (sorted by_sequence rows) rows (sorted-IsLeast rows)

abbrev pub waits : Key → Task → Bool
waits context_id t = t.context_id == context_id && is_queued t.internal_state

-- What a call for the next queued task of a context may answer.
abbrev pub IsNext : Key → List Task → Option Task → Type 0
IsNext context_id rows none = All (λ x. waits context_id x ≡ true → ⊥) rows
IsNext context_id rows (some t) =
    (waits context_id t ≡ true)
    × All (λ x. waits context_id x ≡ true → t.sequence ≤ x.sequence) rows

head-IsNext :
    (context_id : Key) (rows ts : List Task)
    → IsLeast ts (select (waits context_id) rows)
    → All (λ x. waits context_id x ≡ true) ts
    → IsNext context_id rows (elim ts [ [] ↦ none | t ∷ _ ↦ some t ])
head-IsNext context_id rows [] least h =
    select-All (λ x. ⊥) (waits context_id) rows
      (subst (λ (xs : List Task). All (λ x. ⊥) xs) (sym least) tt)
head-IsNext context_id rows (t ∷ ts) least h =
    (h.0, select-All (λ x. t.sequence ≤ x.sequence) (waits context_id) rows least)

-- The next queued task of a context is queued in it, and no queued task of the context has a
-- smaller sequence number; when there is none, no task of the context is queued.
pub next_queued-IsNext :
    (context_id : Key) (db : Db) → IsNext context_id db.tasks (next_queued context_id db)
unfolding next_queued
next_queued-IsNext context_id db =
    let p = waits context_id in
    head-IsNext context_id db.tasks (sorted by_sequence (select p db.tasks))
      (sorted-IsLeast (select p db.tasks))
      (sorted-All (λ x. p x ≡ true) (select p db.tasks) (selected p db.tasks))
