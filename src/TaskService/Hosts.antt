-- ===== src/TaskService/Hosts.antt =====
-- AddTaskHosts, RemoveTaskHost and GetTaskHosts.
pub mod Totals
use devops_manager.Prelude.{
  ℕ, suc, zero, ◌+◌, ◌-◌, Bool, not, Option, Time, List, ◌&&◌, ◌==◌, select, length, first,
}
use devops_manager.Models.CommandHost.{CommandHost}
use devops_manager.Models.Command.{Command}
use devops_manager.Models.Task as Tasks
use devops_manager.Db.{
  Action, Error, Db, read, write, require, check, return, ◌>>=◌, ◌>>◌, transaction, statement,
  find_task, update_task, update_commands, commands_of, has_id, belongs_to, is_live_command,
}
use devops_manager.TaskService.Lifecycle.{create_rows}

unfoldable pub add_rows : (uuid : ℕ → ℕ) → ℕ → Command → List ℕ → Time → Action (Unit {0})
unfolding statement create_rows
add_rows uuid task_id existing host_ids now = do
  create_rows uuid 0 task_id existing.command existing.parameters existing.timeout now host_ids
  write (
      update_task task_id
        (λ t. record t { total_hosts = t.total_hosts + length host_ids; updated_at = now }))

-- The command that is copied is the task's first live one; that there is none is an error.
unfoldable pub add_task_hosts : (uuid : ℕ → ℕ) → ℕ → List ℕ → Time → Action (Unit {0})
unfolding statement transaction add_rows Tasks.is_running
add_task_hosts uuid task_id host_ids now = do
  found ← read (find_task task_id)
  task ← require Error.task_not_found found
  check (not (Tasks.is_running task.status)) Error.task_running
  c ← read (λ db. first (λ c. has_id task_id c.task_id && is_live_command c) db.commands)
  existing ← require Error.command_not_found c
  transaction (add_rows uuid task_id existing host_ids now)

-- `GREATEST(total_hosts - 1, 0)` is the subtraction of ℕ.
unfoldable pub remove_rows : (task_id host_id : ℕ) → Time → Action (Unit {0})
unfolding statement
remove_rows task_id host_id now = do
  write (λ db. record db {
    command_hosts =
        select (λ ch. not (ch.host_id == host_id && belongs_to task_id db.commands ch))
          db.command_hosts;
  })
  write (
      update_commands (λ c. c.host_id == host_id && has_id task_id c.task_id)
        (λ c. record c { deleted_at = Option.some now }))
  write (update_task task_id (λ t. record t { total_hosts = t.total_hosts - 1; updated_at = now }))

unfoldable pub remove_task_host : (task_id host_id : ℕ) → Time → Action (Unit {0})
unfolding statement transaction remove_rows Tasks.is_running
remove_task_host task_id host_id now = do
  found ← read (find_task task_id)
  task ← require Error.task_not_found found
  check (not (Tasks.is_running task.status)) Error.task_running
  transaction (remove_rows task_id host_id now)

unfoldable pub get_task_hosts : ℕ → Action (List CommandHost)
unfolding statement
get_task_hosts task_id = do
  found ← read (find_task task_id)
  task ← require Error.task_not_found found
  read (λ db. select (belongs_to task_id db.commands) db.command_hosts)
