-- ===== src/TaskService/Failures.antt =====
-- HandleHostConnectionChange, HandleAgentDisconnection, HandleCommandExecutionError,
-- updateCommandDispatchFailed and RetryFailedCommand.
pub mod Disconnect
pub mod Retry
use devops_manager.Prelude.{
  ℕ, ℤ, pos, String, Bool, true, false, Option, none, some, Time, List, [], ◌∷◌, ◌&&◌, ◌==◌, select,
  first, elem, if◌then◌else◌,
}
use devops_manager.Models.CommandHost.{CommandHost, CommandHostStatus}
use devops_manager.Models.Command.{Command, CommandStatus}
use devops_manager.Models.CommandHost as Hosts
use devops_manager.Models.Command as Commands
use devops_manager.Db.{
  Action, Error, Db, Message, read, write, require, return, ◌>>=◌, ◌>>◌, transaction, statement,
  go_send, attempt, when_dispatcher, find_command, update_commands, update_hosts, is_live_command,
}
use devops_manager.TaskService.Progress.{update_task_progress}
use devops_manager.TaskService.Results.{follow_task}

-- Two statements, and no transaction; a connection that comes up writes nothing.
unfoldable pub handle_host_connection_change : ℕ → Bool → Time → Action (Unit {0})
unfolding statement Hosts.is_running Commands.is_running
handle_host_connection_change host_id true now = return tt
handle_host_connection_change host_id false now = do
  write (
      update_hosts (λ ch. ch.host_id == host_id && Hosts.is_running ch.status)
        (λ ch. record ch {
          status = CommandHostStatus.failed;
          error_message = "Host connection lost";
          updated_at = now;
        }))
  write (
      update_commands (λ c. c.host_id == host_id && Commands.is_running c.status)
        (λ c. record c {
          status = CommandStatus.failed;
          error_msg = "Host connection lost";
          updated_at = now;
        }))

unfoldable pub is_failed : CommandStatus → Bool
is_failed CommandStatus.failed = true
is_failed _ = false

-- `SELECT DISTINCT task_id`. Every command that the service creates has a task; one with none is
-- passed over here.
unfoldable pub distinct_tasks : List ℕ → List Command → List ℕ
distinct_tasks seen [] = []
distinct_tasks seen (c ∷ cs) = elim c.task_id [
  | none ↦ distinct_tasks seen cs
  | some t ↦ elim (elem t seen) [
    | true ↦ distinct_tasks seen cs
    | false ↦ t ∷ distinct_tasks (t ∷ seen) cs
  ]
]

-- An error of one task's update is logged, and the loop goes on.
unfoldable pub follow_tasks : List ℕ → Time → Action (Unit {0})
unfolding update_task_progress
follow_tasks [] now = return tt
follow_tasks (t ∷ ts) now = do outcome ← attempt (update_task_progress t now); follow_tasks ts now

unfoldable pub disconnect_agent : ℕ → Time → Action (Unit {0})
unfolding statement Hosts.is_unfinished Commands.is_unfinished is_failed distinct_tasks follow_tasks
disconnect_agent host_id now = do
  write (
      update_commands (λ c. c.host_id == host_id && Commands.is_unfinished c.status)
        (λ c. record c {
          status = CommandStatus.failed;
          finished_at = some now;
          error_msg = "Agent disconnected";
          updated_at = now;
        }))
  write (
      update_hosts (λ ch. ch.host_id == host_id && Hosts.is_unfinished ch.status)
        (λ ch. record ch {
          status = CommandHostStatus.failed;
          finished_at = some now;
          error_message = "Agent disconnected";
          updated_at = now;
        }))
  affected ← read (λ db.
      distinct_tasks [] (
        select (λ c. (c.host_id == host_id && is_failed c.status) && is_live_command c)
          db.commands))
  follow_tasks affected now

unfoldable pub handle_agent_disconnection : ℕ → Time → Action (Unit {0})
unfolding transaction disconnect_agent
handle_agent_disconnection host_id now = transaction (disconnect_agent host_id now)

unfoldable pub record_error : (command_id host_id : ℕ) → String → Time → Action (Unit {0})
unfolding statement update_task_progress
record_error command_id host_id message now = do
  write (
      update_commands (λ c. c.command_id == command_id)
        (λ c. record c {
          status = CommandStatus.failed;
          finished_at = some now;
          error_msg = message;
          updated_at = now;
        }))
  write (
      update_hosts (λ ch. ch.command_id == command_id && ch.host_id == host_id)
        (λ ch. record ch {
          status = CommandHostStatus.exec_failed;
          finished_at = some now;
          error_message = message;
          updated_at = now;
        }))
  found ← read (find_command command_id)
  command ← require Error.command_not_found found
  follow_task command.task_id now

unfoldable pub handle_command_execution_error :
    (command_id host_id : ℕ) → String → Time → Action (Unit {0})
unfolding transaction record_error
handle_command_execution_error command_id host_id message now =
    transaction (record_error command_id host_id message now)

-- The errors of its two statements are dropped, each by itself.
unfoldable pub update_command_dispatch_failed : ℕ → String → Time → Action (Unit {0})
unfolding statement
update_command_dispatch_failed command_id message now = do
  first_outcome ← attempt (
      write (
        update_commands (λ c. c.command_id == command_id)
          (λ c. record c { status = CommandStatus.failed; error_msg = message; updated_at = now })))
  second_outcome ← attempt (
      write (
        update_hosts (λ ch. ch.command_id == command_id)
          (λ ch. record ch {
            status = CommandHostStatus.failed;
            error_message = message;
            updated_at = now;
          })))
  return tt

unfoldable pub command_reset : Time → Command → Command
command_reset now c = record c {
  status = CommandStatus.pending;
  started_at = none;
  finished_at = none;
  error_msg = "";
  stdout = "";
  stderr = "";
  exit_code = none;
  updated_at = now;
}

unfoldable pub host_reset : Time → CommandHost → CommandHost
host_reset now ch = record ch {
  status = CommandHostStatus.pending;
  started_at = none;
  finished_at = none;
  error_message = "";
  stdout = "";
  stderr = "";
  exit_code = pos 0;
  execution_time = none;
  updated_at = now;
}

-- With a dispatcher the command is read again, and sent as it then is.
unfoldable pub resend : ℕ → Action (Unit {0})
unfolding statement go_send
resend command_id = when_dispatcher do
  found ← read (find_command command_id)
  command ← require Error.command_not_found found
  go_send (Message.run command)

unfoldable pub retry : ℕ → Time → Action (Unit {0})
unfolding statement command_reset host_reset resend update_task_progress Commands.is_retryable
retry command_id now = do
  found ← read (λ db.
      first
        (λ c. (c.command_id == command_id && Commands.is_retryable c.status) && is_live_command c)
        db.commands)
  command ← require Error.command_not_found found
  write (update_commands (λ c. c.command_id == command_id) (command_reset now))
  write (update_hosts (λ ch. ch.command_id == command_id) (host_reset now))
  resend command_id
  follow_task command.task_id now

unfoldable pub retry_failed_command : ℕ → Time → Action (Unit {0})
unfolding transaction retry
retry_failed_command command_id now = transaction (retry command_id now)
