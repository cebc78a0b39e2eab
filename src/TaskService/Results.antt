-- ===== src/TaskService/Results.antt =====
-- HandleCommandResult and UpdateCommandStatus: what an agent reports is written to the command, to
-- its host row and to the table of results, and the task follows.
pub mod Upsert
pub mod Agreement
pub mod Reported
use devops_manager.Prelude.{
  ℕ, ℤ, Bool, true, false, Option, none, some, Time, List, [], ◌∷◌, ◌++◌, ◌&&◌, ◌==◌, first,
  update_where, if◌then◌else◌, is_zero,
}
use devops_manager.Models.CommandHost.{CommandHost, CommandHostStatus, execution_time}
use devops_manager.Models.CommandResult.{CommandResult}
use devops_manager.Models.Command.{Command, CommandStatus}
use devops_manager.Db.{
  Action, Error, Db, read, write, require, return, ◌>>=◌, ◌>>◌, transaction, statement,
  find_command, update_commands, update_hosts,
}
use devops_manager.TaskService.Progress.{update_task_progress}

-- The host status that a result sets, if it sets one.
unfoldable pub reported_host_status : CommandResult → CommandHostStatus → CommandHostStatus
reported_host_status r old = elim r.finished_at [
  | some f ↦
      if is_zero r.exit_code then CommandHostStatus.completed else CommandHostStatus.exec_failed
  | none ↦ elim r.started_at [ some s ↦ CommandHostStatus.running | none ↦ old ]
]

unfoldable pub reported_status : CommandResult → CommandStatus → CommandStatus
reported_status r old = elim r.finished_at [
  | some f ↦ if is_zero r.exit_code then CommandStatus.completed else CommandStatus.failed
  | none ↦ elim r.started_at [ some s ↦ CommandStatus.running | none ↦ old ]
]

-- `hostUpdates` and `cmdUpdates`. The times are written as they are, also where they are unset.
unfoldable pub host_reported : CommandResult → Time → CommandHost → CommandHost
unfolding reported_host_status
host_reported r now ch = record ch {
  stdout = r.stdout;
  stderr = r.stderr;
  exit_code = r.exit_code;
  started_at = r.started_at;
  finished_at = r.finished_at;
  error_message = r.error_message;
  execution_time = r.execution_time;
  updated_at = now;
  status = reported_host_status r ch.status;
}

unfoldable pub command_reported : CommandResult → Time → Command → Command
unfolding reported_status
command_reported r now c = record c {
  stdout = r.stdout;
  stderr = r.stderr;
  exit_code = some r.exit_code;
  started_at = r.started_at;
  finished_at = r.finished_at;
  error_msg = r.error_message;
  updated_at = now;
  status = reported_status r c.status;
}

abbrev pub is_result_of : CommandResult → CommandResult → Bool
is_result_of r x = x.command_id == r.command_id && x.host_id == r.host_id

-- `Updates` on the row that was found.
unfoldable pub result_rewritten : CommandResult → Time → CommandResult → CommandResult
result_rewritten r now x = record x {
  stdout = r.stdout;
  stderr = r.stderr;
  exit_code = r.exit_code;
  started_at = r.started_at;
  finished_at = r.finished_at;
  error_message = r.error_message;
  execution_time = r.execution_time;
  updated_at = now;
}

-- Rewrite the first row that meets a condition: the row that First returned.
unfoldable pub update_first {ℓ} : {A : Type ℓ} → (A → Bool) → (A → A) → List A → List A
update_first p f [] = []
update_first p f (x ∷ xs) = if p x then f x ∷ xs else x ∷ update_first p f xs

unfoldable pub stored :
    CommandResult → Time → Option CommandResult → List CommandResult → List CommandResult
unfolding result_rewritten update_first
stored r now none rs = rs ++ r ∷ []
stored r now (some old) rs = update_first (is_result_of r) (result_rewritten r now) rs

unfoldable pub store_result : CommandResult → Time → Option CommandResult → Db → Db
unfolding stored
store_result r now existing db = record db {
  command_results = stored r now existing db.command_results;
}

-- A missing command is an error only where it is looked up for its task.
abbrev pub follow_task : Option ℕ → Time → Action (Unit {0})
follow_task none now = return tt
follow_task (some task_id) now = update_task_progress task_id now

unfoldable pub record_result : CommandResult → Time → Action (Unit {0})
unfolding statement host_reported command_reported store_result update_task_progress
record_result r now = do
  write (
      update_hosts (λ ch. ch.command_id == r.command_id && ch.host_id == r.host_id)
        (host_reported r now))
  write (update_commands (λ c. c.command_id == r.command_id) (command_reported r now))
  existing ← read (λ db. first (is_result_of r) db.command_results)
  write (store_result (record r { created_at = now; updated_at = now }) now existing)
  found ← read (find_command r.command_id)
  command ← require Error.command_not_found found
  follow_task command.task_id now

unfoldable pub with_execution_time : CommandResult → CommandResult
unfolding execution_time
with_execution_time r = record r {
  execution_time = execution_time r.started_at r.finished_at r.execution_time;
}

unfoldable pub handle_command_result : CommandResult → Time → Action (Unit {0})
unfolding transaction record_result with_execution_time
handle_command_result r now = transaction (record_result (with_execution_time r) now)

-- The host status that UpdateCommandStatus writes for a command's.
unfoldable pub host_status_of : CommandStatus → CommandHostStatus
host_status_of CommandStatus.running = CommandHostStatus.running
host_status_of CommandStatus.completed = CommandHostStatus.completed
host_status_of CommandStatus.failed = CommandHostStatus.exec_failed
host_status_of CommandStatus.timeout = CommandHostStatus.timeout
host_status_of CommandStatus.canceled = CommandHostStatus.canceled
host_status_of CommandStatus.pending = CommandHostStatus.pending

-- A command that starts to run gets a start time.
unfoldable pub start_time_of : CommandStatus → Time → Option Time → Option Time
start_time_of CommandStatus.running now old = some now
start_time_of _ now old = old

-- Two statements, and no transaction.
unfoldable pub update_command_status : ℕ → CommandStatus → Time → Action (Unit {0})
unfolding statement host_status_of start_time_of
update_command_status command_id status now = do
  write (
      update_commands (λ c. c.command_id == command_id)
        (λ c. record c {
          status = status;
          updated_at = now;
          started_at = start_time_of status now c.started_at;
        }))
  write (
      update_hosts (λ ch. ch.command_id == command_id)
        (λ ch. record ch {
          status = host_status_of status;
          updated_at = now;
          started_at = start_time_of status now ch.started_at;
        }))
