-- ===== src/Service/Pages/Cut.antt =====
-- Where a page of an increasing list of rows ends, the next one begins.
use managed_agent_web_slack.Common.{
  ℕ, zero, suc, ◌≡◌, subst, ◌≤◌, ◌<◌, refl, ltb, length, some, List, [], ◌∷◌, ◌++◌, true, false,
  select, All, arith,
}
use managed_agent_web_slack.Store.{Task}
use managed_agent_web_slack.Runtime.Tasks.{take}
use managed_agent_web_slack.Service.Pages.{last_sequence}
use managed_agent_web_slack.Service.Pages.Sorting.{Strict}

abbrev pub drop : ℕ → List Task → List Task
drop zero rows = rows
drop (suc n) [] = []
drop (suc n) (t ∷ rows) = drop n rows

-- The rows behind a sequence number.
abbrev pub behind : ℕ → List Task → List Task
behind l rows = select (λ t. ltb l t.sequence) rows

pub take-drop : (n : ℕ) (rows : List Task) → take n rows ++ drop n rows ≡ rows
take-drop zero rows = refl
take-drop (suc n) [] = refl
take-drop (suc n) (t ∷ rows) = rw (take-drop n rows) refl

pub take-take : (n : ℕ) (rows : List Task) → take n (take (suc n) rows) ≡ take n rows
take-take zero rows = refl
take-take (suc n) [] = refl
take-take (suc n) (t ∷ rows) = rw (take-take n rows) refl

-- One row more than a page is read exactly when there is one.
pub length-take :
    (n : ℕ) (rows : List Task) → ltb n (length (take (suc n) rows)) ≡ ltb n (length rows)
length-take zero [] = refl
length-take zero (t ∷ rows) = ground arith
length-take (suc n) [] = refl
length-take (suc n) (t ∷ rows) = ground (arith, length-take n rows)

pub take-short : (n : ℕ) (rows : List Task) → ltb n (length rows) ≡ false → take n rows ≡ rows
take-short zero [] short = refl
take-short zero (t ∷ rows) short = ground (arith, short)
take-short (suc n) [] short = refl
take-short (suc n) (t ∷ rows) short = ground (arith, short, take-short n rows)

pub length-drop :
    (n : ℕ) (rows : List Task)
    → ltb n (length rows) ≡ true
    → length (drop (suc n) rows) < length rows
length-drop zero [] more = ground (arith, more)
length-drop zero (t ∷ rows) more = ground arith
length-drop (suc n) [] more = ground (arith, more)
length-drop (suc n) (t ∷ rows) more = ground (arith, more, length-drop n rows)

take-All : (P : Task → Type 0) (n : ℕ) (rows : List Task) → All P rows → All P (take n rows)
take-All P zero rows h = tt
take-All P (suc n) [] h = tt
take-All P (suc n) (t ∷ rows) h = (h.0, take-All P n rows h.1)

last-above :
    (a : ℕ) (rows : List Task) {l : ℕ}
    → All (λ t. a < t.sequence) rows
    → last_sequence rows ≡ some l
    → a < l
last-above a [] h last = cc
last-above a (t ∷ []) h last = ground (arith, h.0, last)
last-above a (t ∷ u ∷ rows) h last = last-above a (u ∷ rows) h.1 last

-- The last row of a page is behind every bound of the list's rows.
pub page-above :
    (a n : ℕ) (rows : List Task) {l : ℕ}
    → All (λ t. a < t.sequence) rows
    → last_sequence (take n rows) ≡ some l
    → a < l
page-above a n rows h last =
    last-above a (take n rows) (take-All (λ t. a < t.sequence) n rows h) last

pub page_last :
    (n : ℕ) (rows : List Task)
    → ltb n (length rows) ≡ true
    → (l : ℕ) × (last_sequence (take (suc n) rows) ≡ some l)
page_last n [] more = absurd (ground (arith, more))
page_last zero (t ∷ rows) more = (t.sequence, refl)
page_last (suc n) (t ∷ []) more = absurd (ground (arith, more))
page_last (suc n) (t ∷ u ∷ rows) more = page_last n (u ∷ rows) (ground (arith, more))

behind-all : (l : ℕ) (rows : List Task) → All (λ t. l < t.sequence) rows → behind l rows ≡ rows
behind-all l [] h = refl
behind-all l (t ∷ rows) h = ground (arith, h.0, behind-all l rows h.1)

pub behind-page :
    (n : ℕ) (rows : List Task) {l : ℕ}
    → Strict rows
    → last_sequence (take (suc n) rows) ≡ some l
    → behind l rows ≡ drop (suc n) rows
behind-page n [] h last = cc
behind-page zero (t ∷ rows) {l = l} h last =
    let same : t.sequence ≡ l = ground (arith, last) in
    let above = subst (λ (x : ℕ). All (λ (u : Task). x < u.sequence) rows) same h.0 in
    ground (arith, same, behind-all l rows above)
behind-page (suc n) (t ∷ []) h last = ground (arith, last)
behind-page (suc n) (t ∷ u ∷ rows) {l = l} h last =
    let rest = behind-page n (u ∷ rows) h.1 last in
    let above = page-above t.sequence (suc n) (u ∷ rows) h.0 last in ground (arith, rest, above)

-- Rows behind a later bound are behind an earlier one.
pub behind-behind : (a l : ℕ) (rows : List Task) → a ≤ l → behind l (behind a rows) ≡ behind l rows
behind-behind a l [] h = refl
behind-behind a l (t ∷ rows) h = ground (arith, h, behind-behind a l rows h)
