-- ===== src/TimeoutMonitor/Settled.antt =====
-- What the monitor writes for a command that has timed out, where no statement fails.
use devops_manager.Prelude.{
  ℕ, ◌≡◌, refl, ap, ◌∙◌, Bool, false, not, ◌==◌, ◌&&◌, some, Time, List, select, All, arith,
  All-update_where, select-update_where,
}
use devops_manager.Models.CommandHost.{CommandHost, CommandHostStatus}
use devops_manager.Models.Command.{Command, CommandStatus}
use devops_manager.Models.Task.{Task}
use devops_manager.Models.Command as Commands
use devops_manager.Db.{
  Db, Message, ok, quiet, find_task, is_live_command, update_commands, update_hosts,
}
use devops_manager.Db.Rollback.{transaction-ok}
use devops_manager.TaskService.Tally.{count_statuses, same}
use devops_manager.TaskService.Progress.{apply_counts}
use devops_manager.TaskService.Progress.Follow.{
  rows_of, followed, update_task_progress-quiet, find_task-followed,
}
use devops_manager.TaskService.Results.{follow_task}
use devops_manager.TimeoutMonitor.{handle_single_timeout_command, time_out}

abbrev command_timed_out : Time → Command → Command
command_timed_out now d = record d {
  status = CommandStatus.timeout;
  finished_at = some now;
  error_msg = "Command execution timeout";
  updated_at = now;
}

abbrev row_timed_out : Time → CommandHost → CommandHost
row_timed_out now ch = record ch {
  status = CommandHostStatus.timeout;
  finished_at = some now;
  error_message = "Command execution timeout";
  updated_at = now;
}

abbrev timed_out : ℕ → Time → Db → Db
timed_out id now db =
    update_hosts (λ ch. ch.command_id == id) (row_timed_out now)
      (update_commands (λ d. d.command_id == id) (command_timed_out now) db)

handle_single_timeout_command-quiet :
    (c : Command) (now : Time) (db : Db) (disp : Bool) (order : List CommandHostStatus)
    (out : List Message) (id : ℕ) (t : Task)
    → c.task_id ≡ some id
    → find_task id db ≡ some t
    → handle_single_timeout_command c now (quiet db disp order out)
      ≡ (ok tt, quiet (followed id now order t (timed_out c.command_id now db)) disp order out)
unfolding handle_single_timeout_command time_out
handle_single_timeout_command-quiet c now db disp order out id t of_task found =
    transaction-ok (time_out c now) db disp order out (
      ap (λ o. follow_task o now (quiet (timed_out c.command_id now db) disp order out)) of_task
      ∙ update_task_progress-quiet id now (timed_out c.command_id now db) disp order out t found)

-- A live command that still waits or runs.
abbrev pub is_open : ℕ → Command → Bool
is_open id d = (d.command_id == id && Commands.is_unfinished d.status) && is_live_command d

abbrev pub keeps_going : ℕ → CommandHost → Bool
keeps_going id ch = ch.command_id == id && not (same CommandHostStatus.timeout ch.status)

-- Where no statement fails, the monitor's handling of a command of a live task succeeds: the
-- command, if it is live, is not pending or running any more, its host rows have the status timeout, other commands and
-- their host rows are as they were, and the task gets the counts and the verdict of its rows.
pub handle_single_timeout_command-settles :
    (c : Command) (now : Time) (db : Db) (disp : Bool) (order : List CommandHostStatus)
    (out : List Message) (id : ℕ) (t : Task)
    → c.task_id ≡ some id
    → find_task id db ≡ some t
    → let r = handle_single_timeout_command c now (quiet db disp order out) in
      (r.0 ≡ ok tt)
      × All (λ d. is_open c.command_id d ≡ false) r.1.db.commands
      × All (λ ch. keeps_going c.command_id ch ≡ false) r.1.db.command_hosts
      × (select (λ d. not (d.command_id == c.command_id)) r.1.db.commands
          ≡ select (λ d. not (d.command_id == c.command_id)) db.commands)
      × (select (λ ch. not (ch.command_id == c.command_id)) r.1.db.command_hosts
          ≡ select (λ ch. not (ch.command_id == c.command_id)) db.command_hosts)
      × (find_task id r.1.db
          ≡ some (apply_counts now (count_statuses order (rows_of id r.1.db)) t t))
unfolding Commands.is_unfinished same
handle_single_timeout_command-settles c now db disp order out id t of_task found =
    rw (handle_single_timeout_command-quiet c now db disp order out id t of_task found) (
      refl,
      All-update_where (λ d. is_open c.command_id d ≡ false)
          (λ d. d.command_id == c.command_id && is_live_command d) (command_timed_out now)
          db.commands (λ d. ground arith),
      All-update_where (λ ch. keeps_going c.command_id ch ≡ false)
          (λ ch. ch.command_id == c.command_id) (row_timed_out now) db.command_hosts
          (λ ch. ground arith),
      select-update_where (λ d. not (d.command_id == c.command_id))
          (λ d. d.command_id == c.command_id && is_live_command d) (command_timed_out now)
          db.commands (λ d. refl) (λ d h. ground arith),
      select-update_where (λ ch. not (ch.command_id == c.command_id))
          (λ ch. ch.command_id == c.command_id) (row_timed_out now) db.command_hosts (λ ch. refl)
          (λ ch h. ground arith),
      find_task-followed id now order t (timed_out c.command_id now db) found,
    )
