-- ===== src/Common/Lone.antt =====
-- A row that is alone with its key, and rows that keep what a query asks for.
use Prim.Native.Nat.{◌≤◌}
use mathlib.Core.Path.{◌≡◌, refl}
use mathlib.Core.Bool.{Bool, true, false, ◌&&◌}
use mathlib.Core.Logic.{inl, inr}
use mathlib.Core.Option.{some}
use mathlib.Core.List.{List, [], ◌∷◌}
use native.Mathlib.Omega.{arith}
use managed_agent_web_slack.Common.Tests.{Bool-cases}
use managed_agent_web_slack.Common.Rows.{find_row, any_row, update_where, count_rows, All, Evolves}

module _ {ℓ} {A : Type ℓ} where
  pub any_row-Evolves :
      (R : A → A → Type 0) (p : A → Bool)
      → ((x y : A) → R x y → p x ≡ true → p y ≡ true)
      → (xs ys : List A) → Evolves R xs ys
      → any_row p xs ≡ true
      → any_row p ys ≡ true
  any_row-Evolves R p keep [] ys h found = cc
  any_row-Evolves R p keep (x ∷ xs) [] h found = absurd h
  any_row-Evolves R p keep (x ∷ xs) (y ∷ ys) h found = elim (Bool-cases (p x)) [
    | inl hit ↦ rw (keep x y h.0 hit) refl
    | inr miss ↦
        let rest = any_row-Evolves R p keep xs ys h.1 (rw miss at found) in ground (arith, rest)
  ]

  -- No row has the key when none is counted.
  any_row-none :
      (p q : A → Bool) (rows : List A)
      → count_rows p rows ≡ 0
      → any_row (λ r. p r && q r) rows ≡ false
  any_row-none p q [] none_counted = refl
  any_row-none p q (r ∷ rows) none_counted =
      let rest = any_row-none p q rows in ground (arith, rest)

  All-none :
      (p q : A → Bool) (rows : List A)
      → count_rows p rows ≡ 0
      → All (λ r. p r ≡ true → q r ≡ true) rows
  All-none p q [] none_counted = tt
  All-none p q (r ∷ rows) none_counted = let rest = All-none p q rows in ground (arith, rest)

  -- When at most one row has the key and one with the key satisfies the condition, all do.
  pub All-lone :
      (p q : A → Bool) (rows : List A)
      → count_rows p rows ≤ 1
      → any_row (λ r. p r && q r) rows ≡ true
      → All (λ r. p r ≡ true → q r ≡ true) rows
  All-lone p q [] lone found = tt
  All-lone p q (r ∷ rows) lone found =
      let rest = All-lone p q rows in ground (arith, rest, All-none p q rows, any_row-none p q rows)

  pub All-updated :
      (P : A → Type 0) (p q : A → Bool) (f : A → A)
      → ((r : A) → P (f r))
      → ((r : A) → p r ≡ false → P r)
      → (rows : List A) → All (λ r. p r ≡ true → q r ≡ true) rows
      → All P (update_where (λ r. p r && q r) f rows)
  All-updated P p q f made other [] h = tt
  All-updated P p q f made other (r ∷ rows) h = elim (Bool-cases (p r)) [
    | inl hit ↦ rw (hit, h.0 hit) (made r, All-updated P p q f made other rows h.1)
    | inr miss ↦ rw miss (other r miss, All-updated P p q f made other rows h.1)
  ]

  pub any_row-weaken :
      (p q : A → Bool) (rows : List A)
      → any_row (λ r. p r && q r) rows ≡ true
      → any_row p rows ≡ true
  any_row-weaken p q [] found = cc
  any_row-weaken p q (r ∷ rows) found = let rest = any_row-weaken p q rows in ground (arith, rest)

  pub any_row-update_where :
      (p q : A → Bool) (f : A → A)
      → ((r : A) → p r ≡ true → q (f r) ≡ true)
      → (rows : List A) → any_row p rows ≡ true
      → any_row q (update_where p f rows) ≡ true
  any_row-update_where p q f made [] found = cc
  any_row-update_where p q f made (r ∷ rows) found = elim (Bool-cases (p r)) [
    | inl hit ↦ rw (hit, made r hit) refl
    | inr miss ↦
        let rest = any_row-update_where p q f made rows (rw miss at found) in
        ground (arith, miss, rest)
  ]

  -- The first row with the key satisfies the condition.
  pub any_row-found :
      (p q : A → Bool) (rows : List A) {r : A}
      → find_row p rows ≡ some r
      → q r ≡ true
      → any_row (λ x. p x && q x) rows ≡ true
  any_row-found p q [] found good = cc
  any_row-found p q (x ∷ rows) found good = elim (Bool-cases (p x)) [
    | inl hit ↦ ground (arith, hit, found, good)
    | inr miss ↦
        let rest = any_row-found p q rows (rw miss at found) good in ground (arith, miss, rest)
  ]

  -- An update that takes every row out of its own condition.
  pub any_row-cleared :
      (p : A → Bool) (f : A → A)
      → ((r : A) → p r ≡ true → p (f r) ≡ false)
      → (rows : List A) → any_row p (update_where p f rows) ≡ false
  any_row-cleared p f out [] = refl
  any_row-cleared p f out (r ∷ rows) = elim (Bool-cases (p r)) [
    | inl hit ↦ rw (hit, out r hit) (any_row-cleared p f out rows)
    | inr miss ↦ ground (arith, miss, any_row-cleared p f out rows)
  ]
