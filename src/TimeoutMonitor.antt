-- ===== src/TimeoutMonitor.antt =====
-- server/pkg/service/timeout_monitor.go: commands that run longer than their timeout. The monitor's
-- goroutine calls `check_timeouts` at each tick.
pub mod Decision
pub mod Settled
use devops_manager.Prelude.{
  ℕ, ◌+◌, ◌-◌, ◌*◌, ◌%◌, ℤ, pos, negsuc, Bool, true, false, Option, none, some, Time, sub,
  of_seconds, List, [], ◌∷◌, ◌&&◌, ◌==◌, select, first, if◌then◌else◌, is_positive, ltℤ, to_int64,
}
use devops_manager.Models.CommandHost.{CommandHost, CommandHostStatus}
use devops_manager.Models.Command.{Command, CommandStatus}
use devops_manager.Models.Command as Commands
use devops_manager.Db.{
  Action, Error, read, write, require, return, ◌>>=◌, ◌>>◌, transaction, statement, attempt,
  update_commands, update_hosts, is_live_command,
}
use devops_manager.TaskService.Results.{follow_task}
use devops_manager.TaskService.Progress.{update_task_progress}

unfoldable pub runs_over : Option Time → ℤ → Time → Bool
unfolding of_seconds sub to_int64
runs_over none timeout now = false
runs_over (some started) timeout now = ltℤ (of_seconds timeout) (sub now started)

unfoldable pub is_command_timeout : Command → Time → Bool
unfolding runs_over
is_command_timeout c now =
    if is_positive c.timeout then runs_over c.started_at c.timeout now else false

unfoldable pub time_out : Command → Time → Action (Unit {0})
unfolding statement update_task_progress
time_out c now = do
  write (
      update_commands (λ d. d.command_id == c.command_id)
        (λ d. record d {
          status = CommandStatus.timeout;
          finished_at = some now;
          error_msg = "Command execution timeout";
          updated_at = now;
        }))
  write (
      update_hosts (λ ch. ch.command_id == c.command_id)
        (λ ch. record ch {
          status = CommandHostStatus.timeout;
          finished_at = some now;
          error_message = "Command execution timeout";
          updated_at = now;
        }))
  follow_task c.task_id now

unfoldable pub handle_single_timeout_command : Command → Time → Action (Unit {0})
unfolding transaction time_out
handle_single_timeout_command c now = transaction (time_out c now)

-- An error of one command is logged, and the loop goes on.
unfoldable pub handle_timeout_commands : List Command → Time → Action (Unit {0})
unfolding handle_single_timeout_command
handle_timeout_commands [] now = return tt
handle_timeout_commands (c ∷ cs) now = do
  outcome ← attempt (handle_single_timeout_command c now)
  handle_timeout_commands cs now

-- An error of the query ends the round.
unfoldable pub check_timeouts : Time → Action (Unit {0})
unfolding statement is_command_timeout handle_timeout_commands Commands.is_running
check_timeouts now = do
  running ← read (λ db. select (λ c. Commands.is_running c.status && is_live_command c) db.commands)
  handle_timeout_commands (select (λ c. is_command_timeout c now) running) now

-- A command that is not running is no error.
abbrev pub time_out_found : Option Command → Time → Action (Unit {0})
time_out_found none now = return tt
time_out_found (some c) now =
    if is_command_timeout c now then handle_single_timeout_command c now else return tt

unfoldable pub check_command_timeout : ℕ → Time → Action (Unit {0})
unfolding statement is_command_timeout handle_single_timeout_command Commands.is_running
check_command_timeout command_id now = do
  found ← read (λ db.
      first (λ c. (c.command_id == command_id && Commands.is_running c.status) && is_live_command c)
        db.commands)
  time_out_found found now
