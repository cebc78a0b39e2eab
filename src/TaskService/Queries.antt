-- ===== src/TaskService/Queries.antt =====
-- The methods of the task service that read tasks and commands and change no row: GetTask and the lists.
-- How the database compares a text and orders rows with one time is its own matter: `equals`, `like` and
-- the two orders stand for it. A page counts from 1. The goroutines that cache a list are
-- cache_task_list and cache_host_tasks of TaskCache.Store.
pub mod Order
pub mod Pages
pub mod Loading
use Prim.Native.String.{◌++◌}
use text.Mathlib.Text.{◌==◌ as str_eq}
use devops_manager.Prelude.{
  ℕ, String, Bool, true, false, not, Option, none, some, Time, List, [], ◌∷◌, ◌&&◌, ◌==◌, leb,
  if◌then◌else◌, select, first, length, page_of,
}
use devops_manager.Models.Command.{Command, CommandStatus}
use devops_manager.Models.Task.{Task, TaskStatus}
use devops_manager.Models.Task as Tasks
use devops_manager.Db.{
  Action, Error, Result, Session, Db, ok, read, require, return, ◌>>=◌, statement, find_task,
  commands_of, has_id, is_live_task, is_live_command, is_none,
}
use devops_manager.TaskCache as Cache
use devops_manager.TaskCache.{Redis}
use devops_manager.TaskCache.Store.{ListData, get_cached_task_list, get_cached_host_tasks}

-- The loop that loads the host rows of each command.
unfoldable pub load_hosts : List Command → Action (List Command)
unfolding statement
load_hosts [] = return []
load_hosts (c ∷ cs) = do
  rows ← read (λ db. select (λ ch. ch.command_id == c.command_id) db.command_hosts)
  rest ← load_hosts cs
  return (record c { command_hosts = rows } ∷ rest)

unfoldable pub get_task : ℕ → Action Task
unfolding statement load_hosts
get_task id = do
  found ← read (find_task id)
  task ← require Error.task_not_found found
  cs ← read (commands_of id)
  loaded ← load_hosts cs
  return (record task { commands = loaded })

unfoldable pub get_task_commands : ℕ → Action (List Command)
unfolding statement
get_task_commands id = do
  found ← read (find_task id)
  task ← require Error.task_not_found found
  read (commands_of id)

unfoldable pub is_pending : CommandStatus → Bool
is_pending CommandStatus.pending = true
is_pending _ = false

-- `status IN (?)` of GetFailedCommands
unfoldable pub is_failed : CommandStatus → Bool
is_failed CommandStatus.failed = true
is_failed CommandStatus.timeout = true
is_failed _ = false

unfoldable pub get_pending_commands :
    (oldest_first : List Command → List Command) → ℕ → Action (List Command)
unfolding statement is_pending
get_pending_commands oldest_first host_id = read λ db.
    oldest_first
      (select (λ c. c.host_id == host_id && is_pending c.status && is_live_command c) db.commands)

unfoldable pub get_running_tasks : Action (List Task)
unfolding statement Tasks.is_running
get_running_tasks = read (λ db. select (λ t. Tasks.is_running t.status && is_live_task t) db.tasks)

unfoldable pub status_text : TaskStatus → String
status_text TaskStatus.pending = "pending"
status_text TaskStatus.running = "running"
status_text TaskStatus.completed = "completed"
status_text TaskStatus.failed = "failed"
status_text TaskStatus.canceled = "canceled"

-- A condition that is left out for the empty text.
abbrev pub where_given : String → Bool → Bool
where_given text b = if str_eq text "" then true else b

-- `task_id IN (SELECT DISTINCT task_id FROM commands WHERE host_id = ?)`, soft-deleted commands
-- included.
unfoldable pub runs_on : ℕ → List Command → Task → Bool
runs_on host_id cs t =
    not (is_none (first (λ c. c.host_id == host_id && has_id t.task_id c.task_id) cs))

-- Count, and then one page of the rows, in the order in which this query returns them: `order_by` may be
-- another at the next query, where rows have one time.
abbrev pub list_page {ℓ} :
    {A : Type ℓ} (order_by : List A → List A) (rows : Db → List A) (page size : ℕ)
    → Action (List A × ℕ)
list_page order_by rows page size = do
  total ← read (λ db. length (rows db))
  found ← read (λ db. page_of page size (order_by (rows db)))
  return (found, total)

-- A host is optional.
abbrev pub where_host : Option ℕ → Command → Bool
where_host none c = true
where_host (some host_id) c = c.host_id == host_id

unfoldable pub get_failed_commands :
    (latest_first : List Command → List Command) (page size : ℕ)
    → Option ℕ
    → Action (List Command × ℕ)
unfolding statement is_failed page_of
get_failed_commands latest_first page size host =
    list_page latest_first
      (λ db. select (λ c. is_failed c.status && where_host host c && is_live_command c) db.commands)
      page size

-- A list that is not empty is a hit; else the tables are asked.
abbrev pub or_listed :
    {Text : Type 0}
    → Cache.Result (List Task × ℕ) × Redis Text
    → Action (List Task × ℕ)
    → Session
    → (Result (List Task × ℕ) × Session) × Redis Text
or_listed (Cache.ok (t ∷ ts, total), r) m s = ((ok (t ∷ ts, total), s), r)
or_listed (Cache.ok ([], total), r) m s = (m s, r)
or_listed (Cache.err e, r) m s = (m s, r)

module _ (equals : (column value : String) → Bool) where
  abbrev pub where_status : String → Task → Bool
  unfolding status_text
  where_status status t = where_given status (equals (status_text t.status) status)

module _ (like : (column pattern : String) → Bool) where
  abbrev pub where_name : String → Task → Bool
  where_name name t = where_given name (like t.name ("%" ++ name ++ "%"))

module _ (equals : (column value : String) → Bool) (like : (column pattern : String) → Bool)
    (latest_first : List Task → List Task) where
  -- The query of GetTasks, past the cache.
  unfoldable pub query_tasks : (page size : ℕ) (status name : String) → Action (List Task × ℕ)
  unfolding statement page_of status_text
  query_tasks page size status name =
      list_page latest_first
        (λ db.
          select (λ t. where_status equals status t && where_name like name t && is_live_task t)
            db.tasks)
        page size

  -- The query of GetTasksByHost, past the cache.
  unfoldable pub query_tasks_by_host : ℕ → (page size : ℕ) → String → Action (List Task × ℕ)
  unfolding statement page_of status_text runs_on
  query_tasks_by_host host_id page size status =
      list_page latest_first
        (λ db.
          select
            (λ t. runs_on host_id db.commands t && where_status equals status t && is_live_task t)
            db.tasks)
        page size

  unfoldable pub get_tasks_by_status : String → (page size : ℕ) → Action (List Task × ℕ)
  unfolding statement page_of status_text
  get_tasks_by_status status page size =
      list_page latest_first
        (λ db. select (λ t. equals (status_text t.status) status && is_live_task t) db.tasks) page
        size

  unfoldable pub get_tasks_by_date_range :
      (start_date end_date : Time) (page size : ℕ) → String → Action (List Task × ℕ)
  unfolding statement page_of status_text
  get_tasks_by_date_range start_date end_date page size status =
      list_page latest_first
        (λ db.
          select
            (λ t.
              leb start_date t.created_at
              && leb t.created_at end_date
              && where_status equals status t
              && is_live_task t)
            db.tasks)
        page size

  -- `cache_key` stands for the text that fmt.Sprintf makes of its arguments.
  module _ {Text Json : Type 0} (unmarshal_list : Text → Option (ListData Json))
      (task_of : Json → Option Task) where
    unfoldable pub get_tasks :
        (cache_key : (page size : ℕ) (status name : String) → ℕ)
        → (page size : ℕ) (status name : String) → Time
        → Redis Text
        → Session
        → (Result (List Task × ℕ) × Session) × Redis Text
    unfolding get_cached_task_list query_tasks
    get_tasks cache_key page size status name now r =
        or_listed
          (get_cached_task_list unmarshal_list task_of (cache_key page size status name) now r)
          (query_tasks page size status name)

    unfoldable pub get_tasks_by_host :
        (cache_key : (page size : ℕ) → String → ℕ)
        → ℕ
        → (page size : ℕ) → String
        → Time
        → Redis Text
        → Session
        → (Result (List Task × ℕ) × Session) × Redis Text
    unfolding get_cached_host_tasks query_tasks_by_host
    get_tasks_by_host cache_key host_id page size status now r =
        or_listed
          (get_cached_host_tasks unmarshal_list task_of host_id (cache_key page size status) now r)
          (query_tasks_by_host host_id page size status)
