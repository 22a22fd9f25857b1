-- ===== src/Common/Rows.antt =====
-- Tables as lists of rows in the order of insertion: SELECT, UPDATE and counts, and how a table
-- may change while no row is deleted.
use Prim.Native.Nat.{ℕ, suc}
use mathlib.Core.Path.{◌≡◌, subst}
use mathlib.Core.Bool.{Bool, true}
use mathlib.Core.Logic.{inl, inr}
use mathlib.Core.Option.{Option, none, some}
use mathlib.Core.List.{List, [], ◌∷◌, ◌++◌}
use native.Mathlib.Omega.{arith}
use managed_agent_web_slack.Common.Tests.{if◌then◌else◌, is_some, Bool-cases}

module _ {ℓ} {A : Type ℓ} where
  abbrev pub length : List A → ℕ
  length [] = 0
  length (x ∷ xs) = suc (length xs)

  -- The first row that satisfies a condition.
  abbrev pub find_row : (A → Bool) → List A → Option A
  find_row p [] = none
  find_row p (r ∷ rows) = if p r then some r else find_row p rows

  -- The rows that satisfy a condition.
  abbrev pub select : (A → Bool) → List A → List A
  select p [] = []
  select p (r ∷ rows) = let rest = select p rows in if p r then r ∷ rest else rest

  -- `EXISTS`
  abbrev pub any_row : (A → Bool) → List A → Bool
  any_row p rows = is_some (find_row p rows)

  -- `UPDATE … SET f WHERE p`
  abbrev pub update_where : (A → Bool) → (A → A) → List A → List A
  update_where p f [] = []
  update_where p f (r ∷ rows) = (if p r then f r else r) ∷ update_where p f rows

  abbrev pub count_rows : (A → Bool) → List A → ℕ
  count_rows p [] = 0
  count_rows p (r ∷ rows) = let rest = count_rows p rows in if p r then suc rest else rest

-- `P` holds of every row.
abbrev pub All {ℓ κ} : {A : Type ℓ} → (A → Type κ) → List A → Type κ
All P [] = Unit
All P (x ∷ xs) = P x × All P xs

-- Every old row is still there, at its place, and has moved along `R`; new rows follow.
abbrev pub Evolves {ℓ} : {A : Type ℓ} → (A → A → Type 0) → List A → List A → Type 0
Evolves R [] new = Unit
Evolves R (x ∷ old) [] = ⊥
Evolves R (x ∷ old) (y ∷ new) = R x y × Evolves R old new

module _ {ℓ} {A : Type ℓ} (P : A → Type 0) where
  pub All-update_where :
      (p : A → Bool) (f : A → A) (rows : List A)
      → ((r : A) → P r → p r ≡ true → P (f r))
      → All P rows
      → All P (update_where p f rows)
  All-update_where p f [] keep h = tt
  All-update_where p f (r ∷ rows) keep h = elim (Bool-cases (p r)) [
    | inl yes' ↦ rw yes' (keep r h.0 yes', All-update_where p f rows keep h.1)
    | inr no' ↦ rw no' (h.0, All-update_where p f rows keep h.1)
  ]

  pub All-append : (xs ys : List A) → All P xs → All P ys → All P (xs ++ ys)
  All-append [] ys hx hy = hy
  All-append (x ∷ xs) ys hx hy = (hx.0, All-append xs ys hx.1 hy)

  -- A row that was read satisfies what all rows do, and the condition of the query.
  pub find_row-All :
      (p : A → Bool) (rows : List A) {r : A}
      → All P rows
      → find_row p rows ≡ some r
      → P r × (p r ≡ true)
  find_row-All p [] h e = cc
  find_row-All p (x ∷ rows) {r = r} h e = elim (Bool-cases (p x)) [
    | inl hit ↦
        let same : x ≡ r = ground arith in subst (λ (y : A). P y × (p y ≡ true)) same (h.0, hit)
    | inr miss ↦ find_row-All p rows h.1 (rw miss at e)
  ]

module _ {ℓ} {A : Type ℓ} (R : A → A → Type 0) (same : (r : A) → R r r) where
  pub Evolves-refl : (rows : List A) → Evolves R rows rows
  Evolves-refl [] = tt
  Evolves-refl (r ∷ rows) = (same r, Evolves-refl rows)

  pub Evolves-update_where :
      (p : A → Bool) (f : A → A) (rows : List A)
      → ((r : A) → p r ≡ true → R r (f r))
      → Evolves R rows (update_where p f rows)
  Evolves-update_where p f [] move = tt
  Evolves-update_where p f (r ∷ rows) move = elim (Bool-cases (p r)) [
    | inl yes' ↦ rw yes' (move r yes', Evolves-update_where p f rows move)
    | inr no' ↦ rw no' (same r, Evolves-update_where p f rows move)
  ]

  pub Evolves-append : (rows new : List A) → Evolves R rows (rows ++ new)
  Evolves-append [] new = tt
  Evolves-append (r ∷ rows) new = (same r, Evolves-append rows new)

pub Evolves-trans {ℓ} :
    {A : Type ℓ} (R : A → A → Type 0)
    → ((x y z : A) → R x y → R y z → R x z)
    → (xs ys zs : List A) → Evolves R xs ys
    → Evolves R ys zs
    → Evolves R xs zs
Evolves-trans R comp [] ys zs h k = tt
Evolves-trans R comp (x ∷ xs) [] zs h k = absurd h
Evolves-trans R comp (x ∷ xs) (y ∷ ys) [] h k = absurd k
Evolves-trans R comp (x ∷ xs) (y ∷ ys) (z ∷ zs) h k =
    (comp x y z h.0 k.0, Evolves-trans R comp xs ys zs h.1 k.1)
