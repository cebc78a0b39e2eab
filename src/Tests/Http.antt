-- ===== src/Tests/Http.antt =====
-- Requests over HTTP, and lists of tasks page by page.
use Prim.Native.String.{String}
use text.Mathlib.Text.{◌==◌ as str_eq}
use devops_manager.Prelude.{
  ℕ, ◌≡◌, refl, ◌+◌, ◌*◌, ◌/◌, pos, true, false, Option, none, some, [], ◌∷◌, ◌&&◌, count_where,
  arith, Time, String, ltb, if◌then◌else◌,
}
use devops_manager.Models.Task.{Task, TaskStatus}
use devops_manager.Db.{Error, Session, quiet, ok, belongs_to}
use devops_manager.TaskService.Progress.Loaded.{loaded_rows}
use devops_manager.TaskService.Queries.{get_task}
use devops_manager.TaskService.Queries.Loading.{get_task-rows}
use devops_manager.Http.Params.{PageQuery, page_size}
use devops_manager.Http.Tasks.{CreateTaskRequest, bound, create_task_handler, get_task_handler}
use devops_manager.Http.Tasks.Lists.{
  get_tasks_handler, get_tasks_by_host_handler, get_tasks_by_status_handler,
  get_tasks_by_date_range_handler,
}
use devops_manager.TaskCache.{Redis, task_list, same_key, get_text}
use devops_manager.TaskCache.Store.{ListData, get_cached_task_list, get_cached_host_tasks}
use devops_manager.TaskCache.Fresh.{untroubled}
use devops_manager.Http.Effects.{serve, status, IsOutcome, serve-IsOutcome}
use devops_manager.Http.Paging.{IsSmallReply, lists-small}
use devops_manager.Http.Created.{with_kept, create-get}
use devops_manager.Tests.Pages.{three, any_name, latest_first}
use devops_manager.Tests.Samples.{task, busy, waiting, statuses}

abbrev text_of : Error → String
text_of e = "failed"

abbrev row_id : ℕ → ℕ
row_id id = id + 1

-- The text of a time, and what a column keeps of it.
abbrev shown : Time → String
shown t = if ltb t 1000000000 then "1970-01-01T00:00:00Z" else "later"

abbrev kept : Time → Time
kept t = (t + 500000) / 1000000 * 1000000

-- The second statement of the request fails.
abbrev shaken : Session
shaken = record (quiet waiting true statuses []) { faults = false ∷ true ∷ [] }

serve-IsOutcome_example : IsOutcome 404 shaken (
    serve text_of
      (λ i. i + 100)
      60
      row_id
      shown
      (λ n t. t)
      {Text = ℕ}
      (λ n. none)
      (untroubled [])
      (status (some 1))
      shaken)
serve-IsOutcome_example =
    serve-IsOutcome text_of (λ i. i + 100) 60 row_id shown (λ n t. t) (λ n. none) (untroubled [])
      (status (some 1)) shaken

get_task-rows_example :
    (loaded : Task) × ((get_task 1 (quiet busy false statuses [])).0 ≡ ok loaded)
    × (count_where (λ ch. true) (loaded_rows loaded.commands)
        ≡ count_where (λ ch. belongs_to 1 busy.commands ch && true) busy.command_hosts)
get_task-rows_example =
    get_task-rows busy false statuses [] 1 (task 1 TaskStatus.running 2) (λ ch. true) refl
      (refl, (refl, tt)) (refl, (refl, tt))

abbrev first_page : PageQuery
first_page = record { page = none; size = some "500" }

-- A list of one task, cached for all tasks, and nothing cached for a host.
abbrev cache : Redis ℕ
cache = untroubled (record { key = task_list 7; data_of = 40; expires = 100 } ∷ [])

abbrev read_one : ℕ → Option (ListData Task)
read_one n = some (record { tasks = some (task 1 TaskStatus.running 2 ∷ []); total = some 1 })

lists-small_example :
    IsSmallReply
      (get_tasks_handler text_of str_eq any_name latest_first row_id shown read_one some
        (λ page size status name. 7)
        first_page
        "running"
        ""
        50
        cache
        (quiet three false statuses [])).0
    × IsSmallReply
        (get_tasks_by_host_handler text_of str_eq any_name latest_first row_id shown read_one some
          (λ page size status. 7)
          (some 5)
          first_page
          "running"
          50
          cache
          (quiet three false statuses [])).0
    × IsSmallReply (
        get_tasks_by_status_handler text_of str_eq any_name latest_first row_id shown "running"
          first_page
          (quiet three false statuses []))
    × IsSmallReply (
        get_tasks_by_date_range_handler text_of str_eq any_name latest_first row_id shown
          (λ s. some 0)
          "2024-01-01"
          "2024-01-02"
          first_page
          "running"
          (quiet three false statuses []))
unfolding get_cached_task_list get_cached_host_tasks get_text page_size same_key
lists-small_example =
    lists-small text_of row_id shown str_eq any_name latest_first read_one some first_page 50 cache
      (quiet three false statuses []) (λ s. some 0) "2024-01-01" "2024-01-02" "running" "" (some 5)
      (λ page size status name. 7) (λ page size status. 7) (omega arith) (λ id. omega arith)

abbrev request : CreateTaskRequest
request = record {
  name = "update";
  description = "";
  host_ids = 5 ∷ 6 ∷ [];
  command = "uptime";
  timeout = pos 30;
  parameters = "";
}

create-get_example :
    let posted =
      create_task_handler text_of row_id shown
        (λ i. i + 100)
        (bound request)
        60
        (quiet busy false statuses []) in
    let stored : Session = record posted.1 { db = with_kept kept posted.1.db } in
    (posted.0.code ≡ 200) × ((get_task_handler text_of row_id shown (some 100) stored).0 ≡ posted.0)
create-get_example =
    create-get text_of row_id shown (λ i. i + 100) 60 busy false statuses [] kept "update" "" 5
      (6 ∷ []) "uptime" (pos 30) "" refl refl refl refl
