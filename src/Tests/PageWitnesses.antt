-- ===== src/Tests/PageWitnesses.antt =====
-- The pages of a task list at a concrete context.
use managed_agent_web_slack.Common.{◌≡◌, refl, none, some, [], ◌∷◌, arith}
use managed_agent_web_slack.Store.{Db}
use managed_agent_web_slack.Runtime.Requests.{sorted, insert_sorted}
use managed_agent_web_slack.Runtime.Tasks.{list_tasks}
use managed_agent_web_slack.Service.Pages.{all_pages, on_list_tasks, list_page}
use managed_agent_web_slack.Service.Pages.Cut.{behind}
use managed_agent_web_slack.Service.Pages.Whole.{tasks_of, all_pages-whole}
use managed_agent_web_slack.Tests.Fixtures.{task, tables}

abbrev three_tasks : Db
three_tasks = record tables {
  tasks =
      record task { task_id = 23; sequence = 3 }
      ∷ record task { task_id = 21; sequence = 1 }
      ∷ record task { task_id = 22; sequence = 2 }
      ∷ [];
}

two_pages :
    all_pages 4 10 2 none three_tasks
    ≡ some (
        record task { task_id = 21; sequence = 1 }
        ∷ record task { task_id = 22; sequence = 2 }
        ∷ record task { task_id = 23; sequence = 3 }
        ∷ [])
unfolding all_pages on_list_tasks list_page list_tasks sorted insert_sorted
two_pages = refl

all_pages-whole_example :
    all_pages 4 10 2 none three_tasks ≡ some (behind 0 (tasks_of 10 three_tasks))
unfolding tasks_of sorted insert_sorted
all_pages-whole_example =
    all_pages-whole 10 1 three_tasks 4 (omega arith) refl
      ((refl, (refl, tt)), ((refl, tt), (tt, tt))) (omega arith)
