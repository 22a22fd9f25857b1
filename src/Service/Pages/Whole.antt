-- ===== src/Service/Pages/Whole.antt =====
-- The pages of a context, one behind the other, are its tasks.
use managed_agent_web_slack.Common.{
  ℕ, zero, suc, ◌+◌, ◌==◌, ◌≡◌, ◌≤◌, ◌<◌, refl, sym, ap, ◌∙◌, ltb, leb, length, Option, none, some,
  List, [], ◌∷◌, Bool, true, false, ◌&&◌, select, All, Bool-cases, inl, inr, arith, coalesce,
}
use managed_agent_web_slack.Store.{Key, Task, Db}
use managed_agent_web_slack.Runtime.Requests.{sorted}
use managed_agent_web_slack.Runtime.Tasks.{take, by_sequence, list_tasks, count_tasks}
use managed_agent_web_slack.Service.Pages.{
  last_sequence, page_of, list_page, on_list_tasks, all_pages,
}
use managed_agent_web_slack.Service.Pages.Sorting.{
  Strict, Distinct, sorted-Strict, sorted-select, select-Strict,
}
use managed_agent_web_slack.Service.Pages.Cut.{
  drop, behind, take-drop, take-take, length-take, take-short, length-drop, page-above, page_last,
  behind-page, behind-behind,
}

-- The tasks of a context in the order of their sequence.
unfoldable pub tasks_of : Key → Db → List Task
unfolding sorted
tasks_of context_id db = sorted by_sequence (select (λ t. t.context_id == context_id) db.tasks)

select-and :
    (p q : Task → Bool) (rows : List Task)
    → select (λ t. p t && q t) rows ≡ select q (select p rows)
select-and p q [] = refl
select-and p q (t ∷ rows) = ground (arith, select-and p q rows)

list_tasks-behind :
    (context_id : Key) (a limit : ℕ) (db : Db)
    → list_tasks context_id a limit db ≡ take limit (behind a (tasks_of context_id db))
unfolding list_tasks tasks_of
list_tasks-behind context_id a limit db =
    rw (select-and (λ t. t.context_id == context_id) (λ t. ltb a t.sequence) db.tasks) (
      rw (sorted-select (λ t. ltb a t.sequence) (select (λ t. t.context_id == context_id) db.tasks))
        refl)

above_bound : (a : ℕ) (rows : List Task) → All (λ t. a < t.sequence) (behind a rows)
above_bound a [] = tt
above_bound a (t ∷ rows) = ground (arith, above_bound a rows)

module _ (context_id : Key) (p : ℕ) (db : Db) (size : (suc p ≤ 100))
    (named : (context_id == 0) ≡ false) where
  -- The page of `suc p` rows behind a sequence number.
  page_behind :
      (a : ℕ) (token : Option ℕ)
      → coalesce token 0 ≡ a
      → (total : ℕ) × (on_list_tasks context_id (suc p) token db
          ≡ some (page_of (take (suc (suc p)) (behind a (tasks_of context_id db))) (suc p) total))
  unfolding on_list_tasks list_page
  page_behind a token at =
      let rows = behind a (tasks_of context_id db) in
      let read = list_tasks-behind context_id a (suc p + 1) db in
      let positive : (suc p == 0) ≡ false = ground arith in
      let fits : (leb 1 (suc p) && leb (suc p) 100) ≡ true = ground (arith, size) in
      let one : suc p + 1 ≡ suc (suc p) = omega arith in
      (count_tasks context_id db, rw (named, at, positive, fits, read, one) refl)

  -- A page that is not the last, and what the loop gets behind it.
  pages_joined :
      (n a l : ℕ) (token : Option ℕ)
      → coalesce token 0 ≡ a
      → ltb (suc p) (length (behind a (tasks_of context_id db))) ≡ true
      → last_sequence (take (suc p) (behind a (tasks_of context_id db))) ≡ some l
      → all_pages n context_id (suc p) (some l) db
        ≡ some (drop (suc p) (behind a (tasks_of context_id db)))
      → all_pages (suc n) context_id (suc p) token db ≡ some (behind a (tasks_of context_id db))
  unfolding all_pages
  pages_joined n a l token at more last rest =
      let rows = behind a (tasks_of context_id db) in
      rw
        (
          (page_behind a token at).1,
          length-take (suc p) rows,
          more,
          take-take (suc p) rows,
          last,
          rest,
          take-drop (suc p) rows,
        )
        refl

  -- The last page.
  pages_last :
      (n a : ℕ) (token : Option ℕ)
      → coalesce token 0 ≡ a
      → ltb (suc p) (length (behind a (tasks_of context_id db))) ≡ false
      → all_pages (suc n) context_id (suc p) token db ≡ some (behind a (tasks_of context_id db))
  unfolding all_pages
  pages_last n a token at short =
      let rows = behind a (tasks_of context_id db) in
      rw
        (
          (page_behind a token at).1,
          length-take (suc p) rows,
          short,
          take-take (suc p) rows,
          take-short (suc p) rows short,
        )
        refl

  pages_behind :
      (n a : ℕ) (token : Option ℕ)
      → coalesce token 0 ≡ a
      → Strict (tasks_of context_id db)
      → length (behind a (tasks_of context_id db)) < n
      → all_pages n context_id (suc p) token db ≡ some (behind a (tasks_of context_id db))
  pages_behind zero a token at ordered enough = absurd (ground (arith, enough))
  pages_behind (suc n) a token at ordered enough =
      let rows = behind a (tasks_of context_id db) in
      elim (Bool-cases (ltb (suc p) (length rows))) [
        | inl more ↦
            let some_more : ltb p (length rows) ≡ true = ground (arith, more) in
            let last = (page_last p rows some_more).1 in
            let l = (page_last p rows some_more).0 in
            let after : a < l =
              page-above a (suc p) rows (above_bound a (tasks_of context_id db)) last in
            let next : behind l (tasks_of context_id db) ≡ drop (suc p) rows =
              sym (behind-behind a l (tasks_of context_id db) (ground (arith, after)))
              ∙ behind-page p rows
                  (select-Strict (λ t. ltb a t.sequence) (tasks_of context_id db) ordered) last in
            let shorter : length (behind l (tasks_of context_id db)) < n =
              rw next (ground (arith, enough, length-drop p rows some_more)) in
            pages_joined n a l token at more last
              (pages_behind n l (some l) refl ordered shorter ∙ ap some next)
        | inr short ↦ pages_last n a token at short
      ]

-- For a page size from 1 to 100, and more rounds than the context has tasks: following the page
-- tokens from the first page, the loop ends, and its tasks are all of the context's tasks whose
-- sequence is positive, each once, in the order of their sequence. The context's sequences are
-- distinct, and no task is admitted meanwhile.
pub all_pages-whole :
    (context_id : Key) (p : ℕ) (db : Db) (rounds : ℕ)
    → suc p ≤ 100
    → (context_id == 0) ≡ false
    → Distinct (select (λ t. t.context_id == context_id) db.tasks)
    → length (behind 0 (tasks_of context_id db)) < rounds
    → all_pages rounds context_id (suc p) none db ≡ some (behind 0 (tasks_of context_id db))
unfolding tasks_of
all_pages-whole context_id p db rounds size named distinct enough =
    pages_behind context_id p db size named rounds 0 none refl
      (sorted-Strict (select (λ t. t.context_id == context_id) db.tasks) distinct) enough
