-- ===== src/TaskService/Lifecycle.antt =====
-- CreateTask, StartTask, StopTask, CancelTask and DeleteTask. The goroutines that write the audit
-- log and the cache after a method has done its work are left out. One clock reading `now` stands
-- for those that a method makes. `uuid i` is the i-th identifier that uuid.New returns.
pub mod Cancel
pub mod Create
pub mod Delete
pub mod Start
use devops_manager.Prelude.{
  ℕ, suc, ℤ, pos, String, Bool, true, false, not, Option, none, some, Time, List, [], ◌∷◌, ◌++◌,
  ◌&&◌, ◌==◌, select, length,
}
use devops_manager.Models.CommandHost.{CommandHost, CommandHostStatus}
use devops_manager.Models.Command.{Command, CommandStatus}
use devops_manager.Models.Task.{Task, TaskStatus}
use devops_manager.Models.CommandHost as Hosts
use devops_manager.Models.Command as Commands
use devops_manager.Models.Task as Tasks
use devops_manager.Db.{
  Action, Error, Db, Message, read, write, require, check, return, ◌>>=◌, ◌>>◌, transaction,
  go_send, attempt, when_dispatcher, statement, find_task, update_task, update_commands,
  update_hosts, commands_of, has_id, belongs_to, is_live_command, is_live_task,
}

-- What CreateTask and AddTaskHosts write for a host.
unfoldable pub new_command :
    (command_id task_id host_id : ℕ) → (command parameters : String) → ℤ → Time → Command
new_command command_id task_id host_id command parameters timeout now = record {
  command_id = command_id;
  task_id = some task_id;
  host_id = host_id;
  command = command;
  parameters = parameters;
  timeout = timeout;
  status = CommandStatus.pending;
  stdout = "";
  stderr = "";
  exit_code = none;
  started_at = none;
  finished_at = none;
  error_msg = "";
  created_at = now;
  updated_at = now;
  deleted_at = none;
  command_hosts = [];
}

unfoldable pub new_host : (command_id host_id : ℕ) → Time → CommandHost
new_host command_id host_id now = record {
  command_id = command_id;
  host_id = host_id;
  status = CommandHostStatus.pending;
  stdout = "";
  stderr = "";
  exit_code = pos 0;
  started_at = none;
  finished_at = none;
  error_message = "";
  execution_time = none;
  created_at = now;
  updated_at = now;
}

-- The loop over the hosts: a command and its host row for each.
unfoldable pub create_rows :
    (uuid : ℕ → ℕ) → ℕ → ℕ → (command parameters : String) → ℤ → Time → List ℕ → Action (Unit {0})
unfolding new_command new_host statement
create_rows uuid i task_id command parameters timeout now [] = return tt
create_rows uuid i task_id command parameters timeout now (host_id ∷ hosts) = do
  write (λ db. record db {
    commands =
        db.commands ++ new_command (uuid i) task_id host_id command parameters timeout now ∷ [];
  })
  write (λ db. record db { command_hosts = db.command_hosts ++ new_host (uuid i) host_id now ∷ [] })
  create_rows uuid (suc i) task_id command parameters timeout now hosts

unfoldable pub new_task : (task_id : ℕ) → (name description : String) → ℕ → String → Time → Task
new_task task_id name description total created_by now = record {
  task_id = task_id;
  name = name;
  description = description;
  status = TaskStatus.pending;
  total_hosts = total;
  completed_hosts = 0;
  failed_hosts = 0;
  created_by = created_by;
  started_at = none;
  finished_at = none;
  created_at = now;
  updated_at = now;
  deleted_at = none;
  commands = [];
}

-- The task's identifier is drawn first, then one for each host.
unfoldable pub create_body :
    (uuid : ℕ → ℕ) (name description : String) (host_ids : List ℕ) (command : String)
    → ℤ
    → (parameters created_by : String) → Time
    → Action Task
unfolding statement create_rows new_task
create_body uuid name description host_ids command timeout parameters created_by now =
    let task = new_task (uuid 0) name description (length host_ids) created_by now in
    do
      write (λ db. record db { tasks = db.tasks ++ task ∷ [] })
      create_rows uuid 1 (uuid 0) command parameters timeout now host_ids
      return task

unfoldable pub create_task :
    (uuid : ℕ → ℕ) (name description : String) (host_ids : List ℕ) (command : String)
    → ℤ
    → (parameters created_by : String) → Time
    → Action Task
unfolding transaction create_body
create_task uuid name description host_ids command timeout parameters created_by now =
    transaction
      (create_body uuid name description host_ids command timeout parameters created_by now)

-- The loop of StartTask over the task's commands.
unfoldable pub send_commands : Time → List Command → Action (Unit {0})
unfolding statement go_send
send_commands now [] = return tt
send_commands now (cmd ∷ cs) = do
  write (
      update_commands (λ c. c.command_id == cmd.command_id)
        (λ c. record c { status = CommandStatus.pending; updated_at = now }))
  write (
      update_hosts (λ ch. ch.command_id == cmd.command_id)
        (λ ch. record ch { status = CommandHostStatus.pending; updated_at = now }))
  go_send (Message.run cmd)
  send_commands now cs

unfoldable pub start_task_body : ℕ → Time → Action (Unit {0})
unfolding statement send_commands Tasks.is_pending
start_task_body task_id now = do
  found ← read (find_task task_id)
  task ← require Error.task_not_found found
  check (Tasks.is_pending task.status) Error.task_not_pending
  write (
      update_task task_id
        (λ t. record t { status = TaskStatus.running; started_at = some now; updated_at = now }))
  cs ← read (commands_of task_id)
  send_commands now cs

unfoldable pub start_task : ℕ → Time → Action (Unit {0})
unfolding transaction start_task_body
start_task task_id now = transaction (start_task_body task_id now)

-- StopTask is two statements, and no transaction.
unfoldable pub stop_task : ℕ → Time → Action (Unit {0})
unfolding statement Tasks.is_running
stop_task task_id now = do
  found ← read (find_task task_id)
  task ← require Error.task_not_found found
  check (Tasks.is_running task.status) Error.task_not_running
  write (
      update_task task_id
        (λ t. record t { status = TaskStatus.canceled; finished_at = some now; updated_at = now }))

unfoldable pub send_cancels : List Command → Action (Unit {0})
unfolding go_send
send_cancels [] = return tt
send_cancels (c ∷ cs) = do go_send (Message.cancel c.host_id c.command_id); send_cancels cs

-- An error of the query is logged, and no agent is notified.
abbrev pub notify : Option (List Command) → Action (Unit {0})
notify none = return tt
notify (some cs) = send_cancels cs

unfoldable pub is_canceled : CommandStatus → Bool
is_canceled CommandStatus.canceled = true
is_canceled _ = false

unfoldable pub cancel_task_body : ℕ → Time → Action (Unit {0})
unfolding statement Tasks.is_completed Commands.is_unfinished Hosts.is_unfinished send_cancels
    is_canceled
cancel_task_body task_id now = do
  found ← read (find_task task_id)
  task ← require Error.task_not_found found
  check (not (Tasks.is_completed task.status)) Error.task_completed
  write (
      update_task task_id
        (λ t. record t { status = TaskStatus.canceled; finished_at = some now; updated_at = now }))
  write (
      update_commands (λ c. has_id task_id c.task_id && Commands.is_unfinished c.status)
        (λ c. record c {
          status = CommandStatus.canceled;
          finished_at = some now;
          updated_at = now;
        }))
  write (λ db.
      update_hosts (λ ch. belongs_to task_id db.commands ch && Hosts.is_unfinished ch.status)
        (λ ch. record ch {
          status = CommandHostStatus.canceled;
          finished_at = some now;
          updated_at = now;
        })
        db)
  when_dispatcher do
    cs ← attempt (read (λ db. select (λ c. is_canceled c.status) (commands_of task_id db)))
    notify cs

unfoldable pub cancel_task : ℕ → Time → Action (Unit {0})
unfolding transaction cancel_task_body
cancel_task task_id now = transaction (cancel_task_body task_id now)

-- Rows of commands_hosts are deleted; commands and the task are marked.
unfoldable pub delete_rows : ℕ → Time → Action (Unit {0})
unfolding statement
delete_rows task_id now = do
  write (λ db. record db {
    command_hosts = select (λ ch. not (belongs_to task_id db.commands ch)) db.command_hosts;
  })
  write (update_commands (λ c. has_id task_id c.task_id) (λ c. record c { deleted_at = some now }))
  write (update_task task_id (λ t. record t { deleted_at = some now }))

unfoldable pub delete_task : ℕ → Time → Action (Unit {0})
unfolding statement transaction delete_rows Tasks.is_running
delete_task task_id now = do
  found ← read (find_task task_id)
  task ← require Error.task_not_found found
  check (not (Tasks.is_running task.status)) Error.task_running
  transaction (delete_rows task_id now)
