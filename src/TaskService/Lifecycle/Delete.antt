-- ===== src/TaskService/Lifecycle/Delete.antt =====
-- What DeleteTask leaves in the tables, where no statement fails.
use devops_manager.Prelude.{
  ℕ, ◌≡◌, refl, Bool, false, not, ◌&&◌, ◌==◌, none, some, Time, List, [], ◌∷◌, select, first,
  update_where, count_where, All, arith, All-update_where, select-update_where, select_twice,
}
use devops_manager.Models.CommandHost.{CommandHost, CommandHostStatus}
use devops_manager.Models.Command.{Command}
use devops_manager.Models.Task.{Task, TaskStatus}
use devops_manager.Models.Task as Tasks
use devops_manager.Db.{
  Db, Message, Error, ok, err, quiet, find_task, belongs_to, has_id, is_live_command, is_live_task,
}
use devops_manager.TaskService.Lifecycle.{delete_task}

abbrev is_task_row : ℕ → Task → Bool
is_task_row id t = t.task_id == id && is_live_task t

abbrev is_command_of : ℕ → Command → Bool
is_command_of id c = has_id id c.task_id && is_live_command c

abbrev deleted_db : ℕ → Time → Db → Db
deleted_db id now db = record db {
  tasks = update_where (is_task_row id) (λ t. record t { deleted_at = some now }) db.tasks;
  commands = update_where (is_command_of id) (λ c. record c { deleted_at = some now }) db.commands;
  command_hosts = select (λ ch. not (belongs_to id db.commands ch)) db.command_hosts;
}

delete_task-quiet :
    (id : ℕ) (now : Time) (db : Db) (disp : Bool) (order : List CommandHostStatus)
    (out : List Message) (t : Task)
    → find_task id db ≡ some t
    → Tasks.is_running t.status ≡ false
    → delete_task id now (quiet db disp order out)
      ≡ (ok tt, quiet (deleted_db id now db) disp order out)
unfolding delete_task
delete_task-quiet id now db disp order out t found idle = rw (found, delete_task) (rw idle)

first-absent :
    (id : ℕ) (now : Time) (ts : List Task)
    → first
        (is_task_row id)
        (update_where (is_task_row id) (λ t. record t { deleted_at = some now }) ts)
      ≡ none
first-absent id now [] = refl
first-absent id now (t ∷ ts) = ground (arith, first-absent id now ts)

count-rejected :
    (p : CommandHost → Bool) (chs : List CommandHost)
    → count_where p (select (λ ch. not (p ch)) chs) ≡ 0
count-rejected p [] = refl
count-rejected p (ch ∷ chs) = ground (arith, count-rejected p chs)

-- Where no statement fails, DeleteTask on a task that does not run succeeds: the task is not found
-- any more, it has no live command and no host row, and the tasks with other identifiers, the
-- commands of other tasks and the host rows of their commands are as they were.
pub delete_task-removes :
    (id : ℕ) (now : Time) (db : Db) (disp : Bool) (order : List CommandHostStatus)
    (out : List Message) (t : Task)
    → find_task id db ≡ some t
    → Tasks.is_running t.status ≡ false
    → let r = delete_task id now (quiet db disp order out) in
      (r.0 ≡ ok tt)
      × (find_task id r.1.db ≡ none)
      × All (λ c. is_command_of id c ≡ false) r.1.db.commands
      × (count_where (belongs_to id db.commands) r.1.db.command_hosts ≡ 0)
      × (select (λ ch. not (belongs_to id db.commands ch)) r.1.db.command_hosts
          ≡ select (λ ch. not (belongs_to id db.commands ch)) db.command_hosts)
      × (select (λ u. not (u.task_id == id)) r.1.db.tasks
          ≡ select (λ u. not (u.task_id == id)) db.tasks)
      × (select (λ c. not (has_id id c.task_id)) r.1.db.commands
          ≡ select (λ c. not (has_id id c.task_id)) db.commands)
delete_task-removes id now db disp order out t found idle =
    rw (delete_task-quiet id now db disp order out t found idle) (
      refl,
      first-absent id now db.tasks,
      All-update_where (λ c. is_command_of id c ≡ false) (is_command_of id)
          (λ c. record c { deleted_at = some now }) db.commands (λ c. ground arith),
      count-rejected (belongs_to id db.commands) db.command_hosts,
      select_twice (λ ch. not (belongs_to id db.commands ch)) db.command_hosts,
      select-update_where (λ u. not (u.task_id == id)) (is_task_row id)
          (λ u. record u { deleted_at = some now }) db.tasks (λ u. refl) (λ u h. ground arith),
      select-update_where (λ c. not (has_id id c.task_id)) (is_command_of id)
          (λ c. record c { deleted_at = some now }) db.commands (λ c. refl) (λ c h. ground arith),
    )

-- Where no statement fails, DeleteTask refuses a task that runs, and nothing is written.
pub delete_task-running :
    (id : ℕ) (now : Time) (db : Db) (disp : Bool) (order : List CommandHostStatus)
    (out : List Message) (t : Task)
    → find_task id db ≡ some t
    → t.status ≡ TaskStatus.running
    → delete_task id now (quiet db disp order out)
      ≡ (err Error.task_running, quiet db disp order out)
unfolding delete_task
delete_task-running id now db disp order out t found runs = rw (found, delete_task) (rw runs)
