-- ===== src/Runtime/Moves/Attempts.antt =====
-- Counting the requests of a provider event whose confirmation was attempted: the count never
-- falls, and a successful mark on a request that was seen before raises it.
use managed_agent_web_slack.Common.{
  ℕ, ◌≤◌, ◌+◌, ◌≡◌, ◌==◌, ◌⊎◌, inl, inr, List, [], ◌∷◌, Bool, true, false, ◌&&◌, is_some, any_row,
  count_rows, update_where, Evolves, arith,
}
use managed_agent_web_slack.Store.{Key, Request}
use managed_agent_web_slack.Runtime.Moves.Progress.{Progress, Progress-trans, rank}
use managed_agent_web_slack.Runtime.Moves.UniqueIds.{UniqueIds, has_id}

abbrev pub was_attempted : Key → Request → Bool
was_attempted e r = r.cma_event_id == e && is_some r.confirmation_attempted_at

unfoldable pub attempted : Key → List Request → ℕ
attempted e rows = count_rows (was_attempted e) rows

-- Some row of the table continues the row `r`, which was read before.
abbrev pub Seen : Request → List Request → Type 0
Seen r [] = ⊥
Seen r (s ∷ rows) = Progress r s ⊎ Seen r rows

pub attempted-Evolves :
    (e : Key) (rows new : List Request)
    → Evolves Progress rows new
    → attempted e rows ≤ attempted e new
unfolding attempted
attempted-Evolves e [] new h = omega arith
attempted-Evolves e (r ∷ rows) [] h = absurd h
attempted-Evolves e (r ∷ rows) (s ∷ new) h = ground (arith, h.0, attempted-Evolves e rows new h.1)

pub Seen-Evolves :
    (r : Request) (rows new : List Request) → Evolves Progress rows new → Seen r rows → Seen r new
Seen-Evolves r [] new h s = absurd s
Seen-Evolves r (x ∷ rows) [] h s = absurd h
Seen-Evolves r (x ∷ rows) (y ∷ new) h (inl p) = inl (Progress-trans r x y p h.0)
Seen-Evolves r (x ∷ rows) (y ∷ new) h (inr t) = inr (Seen-Evolves r rows new h.1 t)

-- A settled row keeps its id, so it is found under it.
has_id-Seen :
    (r : Request) (rows : List Request)
    → 1 ≤ rank r.status
    → Seen r rows
    → has_id r.request_id rows ≡ true
has_id-Seen r [] h s = absurd s
has_id-Seen r (x ∷ rows) h (inl p) = ground (arith, p.named h)
has_id-Seen r (x ∷ rows) h (inr t) = ground (arith, has_id-Seen r rows h t)

module _ (r : Request) (p : Request → Bool) (f : Request → Request) (settled : 1 ≤ rank r.status)
    (named : (x : Request)
      → p x ≡ true
      → (x.request_id ≡ r.request_id) × (is_some x.confirmation_attempted_at ≡ false))
    (marks : (x : Request)
      → (is_some (f x).confirmation_attempted_at ≡ true)
        × ((f x).cma_event_id ≡ x.cma_event_id)) where
  -- A hit has the id of `r`.
  has_id-hit : (rows : List Request) → any_row p rows ≡ true → has_id r.request_id rows ≡ true
  has_id-hit [] h = cc
  has_id-hit (x ∷ rows) h = ground (arith, named x, has_id-hit rows)

  attempted-mark_le :
      (e : Key) (rows : List Request) → attempted e rows ≤ attempted e (update_where p f rows)
  unfolding attempted
  attempted-mark_le e [] = omega arith
  attempted-mark_le e (x ∷ rows) = ground (arith, named x, marks x, attempted-mark_le e rows)

  pub attempted-mark :
      (rows : List Request)
      → UniqueIds rows
      → Seen r rows
      → any_row p rows ≡ true
      → attempted r.cma_event_id rows + 1 ≤ attempted r.cma_event_id (update_where p f rows)
  unfolding attempted
  attempted-mark [] u s h = absurd s
  attempted-mark (x ∷ rows) u (inl q) h = ground (
    arith,
    q.named settled,
    q.same_event,
    named x,
    marks x,
    has_id-hit rows,
    attempted-mark_le r.cma_event_id rows,
  )
  attempted-mark (x ∷ rows) u (inr t) h =
      ground (arith, named x, marks x, has_id-Seen r rows settled t, attempted-mark rows u.1 t)
