-- ===== src/Service/Pages/Sorting.antt =====
-- A stable sort by sequence commutes with a WHERE clause.
use managed_agent_web_slack.Common.{
  ◌==◌, ◌≡◌, ◌≤◌, ◌<◌, refl, List, [], ◌∷◌, Bool, true, false, select, All, Bool-cases, inl, inr,
  arith,
}
use managed_agent_web_slack.Store.{Task}
use managed_agent_web_slack.Runtime.Requests.{sorted, insert_sorted}
use managed_agent_web_slack.Runtime.Tasks.{by_sequence}
use managed_agent_web_slack.Runtime.Tasks.Order.{All-weaken, insert_sorted-All, sorted-All}

abbrev pub Increasing : List Task → Type 0
Increasing [] = Unit
Increasing (x ∷ xs) = All (λ y. x.sequence ≤ y.sequence) xs × Increasing xs

abbrev pub Strict : List Task → Type 0
Strict [] = Unit
Strict (x ∷ xs) = All (λ y. x.sequence < y.sequence) xs × Strict xs

-- `UNIQUE (context_id, sequence)`, for the rows of one context.
abbrev pub Distinct : List Task → Type 0
Distinct [] = Unit
Distinct (x ∷ xs) = All (λ y. (x.sequence == y.sequence) ≡ false) xs × Distinct xs

insert_sorted-Increasing :
    (x : Task) (ys : List Task) → Increasing ys → Increasing (insert_sorted by_sequence x ys)
unfolding insert_sorted
insert_sorted-Increasing x [] h = (tt, tt)
insert_sorted-Increasing x (y ∷ ys) h = elim (Bool-cases (by_sequence y x)) [
  | inl less ↦ rw less (
    insert_sorted-All (λ z. y.sequence ≤ z.sequence) x ys (ground (arith, less)) h.0,
    insert_sorted-Increasing x ys h.1,
  )
  | inr more ↦
      rw more ((ground (arith, more), All-weaken ys (λ z g. ground (arith, more, g)) h.0), h)
]

sorted-Increasing : (xs : List Task) → Increasing (sorted by_sequence xs)
unfolding sorted
sorted-Increasing [] = tt
sorted-Increasing (x ∷ xs) =
    insert_sorted-Increasing x (sorted by_sequence xs) (sorted-Increasing xs)

insert_sorted-Strict :
    (x : Task) (ys : List Task)
    → All (λ y. (x.sequence == y.sequence) ≡ false) ys
    → Strict ys
    → Strict (insert_sorted by_sequence x ys)
unfolding insert_sorted
insert_sorted-Strict x [] d h = (tt, tt)
insert_sorted-Strict x (y ∷ ys) d h = elim (Bool-cases (by_sequence y x)) [
  | inl less ↦ rw less (
    insert_sorted-All (λ z. y.sequence < z.sequence) x ys (ground (arith, less)) h.0,
    insert_sorted-Strict x ys d.1 h.1,
  )
  | inr more ↦
      let first : x.sequence < y.sequence = ground (arith, more, d.0) in
      rw more ((first, All-weaken ys (λ z g. ground (arith, first, g)) h.0), h)
]

pub sorted-Strict : (xs : List Task) → Distinct xs → Strict (sorted by_sequence xs)
unfolding sorted
sorted-Strict [] d = tt
sorted-Strict (x ∷ xs) d =
    insert_sorted-Strict x (sorted by_sequence xs)
      (sorted-All (λ y. (x.sequence == y.sequence) ≡ false) xs d.0) (sorted-Strict xs d.1)

-- A row that precedes all others goes first.
insert_sorted-first :
    (x : Task) (ys : List Task)
    → All (λ y. x.sequence ≤ y.sequence) ys
    → insert_sorted by_sequence x ys ≡ x ∷ ys
unfolding insert_sorted
insert_sorted-first x [] h = refl
insert_sorted-first x (y ∷ ys) h = ground (arith, h.0)

module _ (q : Task → Bool) where
  pub select-All : (P : Task → Type 0) (ys : List Task) → All P ys → All P (select q ys)
  select-All P [] h = tt
  select-All P (y ∷ ys) h = elim (Bool-cases (q y)) [
    | inl hit ↦ rw hit (h.0, select-All P ys h.1)
    | inr miss ↦ rw miss (select-All P ys h.1)
  ]

  insert-select :
      (x : Task) (ys : List Task)
      → q x ≡ true
      → Increasing ys
      → select q (insert_sorted by_sequence x ys) ≡ insert_sorted by_sequence x (select q ys)
  unfolding insert_sorted
  insert-select x [] hit h = ground (arith, hit)
  insert-select x (y ∷ ys) hit h = elim (Bool-cases (by_sequence y x)) [
    | inl less ↦ let rest = insert-select x ys hit h.1 in ground (arith, less, rest)
    | inr more ↦
        let ahead : All (λ (z : Task). x.sequence ≤ z.sequence) (y ∷ ys) =
          (ground (arith, more), All-weaken ys (λ z g. ground (arith, more, g)) h.0) in
        let first =
          insert_sorted-first x (select q (y ∷ ys))
            (select-All (λ z. x.sequence ≤ z.sequence) (y ∷ ys) ahead) in
        ground (arith, more, hit, first)
  ]

  insert-dropped :
      (x : Task) (ys : List Task)
      → q x ≡ false
      → select q (insert_sorted by_sequence x ys) ≡ select q ys
  unfolding insert_sorted
  insert-dropped x [] miss = ground (arith, miss)
  insert-dropped x (y ∷ ys) miss = ground (arith, miss, insert-dropped x ys miss)

  pub sorted-select :
      (xs : List Task) → sorted by_sequence (select q xs) ≡ select q (sorted by_sequence xs)
  unfolding sorted
  sorted-select [] = refl
  sorted-select (x ∷ xs) = elim (Bool-cases (q x)) [
    | inl hit ↦
        let rest = insert-select x (sorted by_sequence xs) hit (sorted-Increasing xs) in
        rw (hit, rest, sorted-select xs) refl
    | inr miss ↦
        let rest = insert-dropped x (sorted by_sequence xs) miss in
        rw (miss, rest, sorted-select xs) refl
  ]

  pub select-Strict : (ys : List Task) → Strict ys → Strict (select q ys)
  select-Strict [] h = tt
  select-Strict (y ∷ ys) h = elim (Bool-cases (q y)) [
    | inl hit ↦ rw hit (select-All (λ z. y.sequence < z.sequence) ys h.0, select-Strict ys h.1)
    | inr miss ↦ rw miss (select-Strict ys h.1)
  ]
