-- ===== src/Service/Pages.antt =====
-- The pages of a context's tasks: `ControllerService.list_tasks`, `on_list_tasks` of
-- cma_controller/request_handler.py, and the loop of `ThreadAgentService.list_tasks` of
-- agent_control_plane/service.py. A task of a page is given by its row, and a page token by the number
-- that it writes, the empty text by `none`.
pub mod Cut
pub mod Sorting
pub mod Whole
use managed_agent_web_slack.Common.{
  ℕ, zero, suc, ◌+◌, ◌==◌, ltb, leb, length, Option, none, some, List, [], ◌∷◌, ◌++◌, Bool, true,
  ◌&&◌, ◌||◌, not, if◌then◌else◌, coalesce,
}
use managed_agent_web_slack.Store.{Key, Task, Db}
use managed_agent_web_slack.Runtime.Tasks.{take, list_tasks, count_tasks}

pub record Page : Type 0 where
  pub tasks : List Task
  pub next_page_token : Option ℕ
  pub total_size : ℕ

-- `selected[-1]["sequence"]`, when there is one.
abbrev pub last_sequence : List Task → Option ℕ
last_sequence [] = none
last_sequence (t ∷ []) = some t.sequence
last_sequence (t ∷ u ∷ rows) = last_sequence (u ∷ rows)

abbrev pub page_of : List Task → ℕ → ℕ → Page
page_of rows page_size total = record {
  tasks = take page_size rows;
  next_page_token =
      if ltb page_size (length rows) then last_sequence (take page_size rows) else none;
  total_size = total;
}

-- `none` is InvalidParamsError.
unfoldable pub list_page : Key → ℕ → ℕ → Db → Option Page
list_page context_id after_sequence page_size db =
    if context_id == 0
    then none
    else (if not (leb 1 page_size && leb page_size 100)
        then none
        else some (
            page_of (list_tasks context_id after_sequence (page_size + 1) db) page_size
              (count_tasks context_id db)))

-- `int(params.page_token or "0")` and `params.page_size or 50`
unfoldable pub on_list_tasks : Key → ℕ → Option ℕ → Db → Option Page
unfolding list_page
on_list_tasks context_id page_size page_token db =
    list_page context_id (coalesce page_token 0) (if page_size == 0 then 50 else page_size) db

abbrev pub join_pages : List Task → Option (List Task) → Option (List Task)
join_pages tasks none = none
join_pages tasks (some rest) = some (tasks ++ rest)

abbrev pub next_pages : Page → (ℕ → Option (List Task)) → Option (List Task)
next_pages page again = elim page.next_page_token [
  | none ↦ some page.tasks
  | some token ↦ join_pages page.tasks (again token)
]

abbrev pub after_page : Option Page → (ℕ → Option (List Task)) → Option (List Task)
after_page none again = none
after_page (some page) again = next_pages page again

-- `while True`, for at most so many pages; `none` is an error, or a loop that is not over.
unfoldable pub all_pages : ℕ → Key → ℕ → Option ℕ → Db → Option (List Task)
all_pages zero context_id page_size token db = none
all_pages (suc n) context_id page_size token db =
    after_page (on_list_tasks context_id page_size token db)
      (λ next. all_pages n context_id page_size (some next) db)
