-- ===== src/TaskService/Failures/Retry.antt =====
-- What RetryFailedCommand resets and sends, where no statement fails.
use devops_manager.Prelude.{
  ℕ, ◌≡◌, refl, ap, ◌∙◌, Bool, true, ◌==◌, ◌&&◌, some, Time, List, [], ◌∷◌, ◌++◌, first,
  update_where, arith, first-update_where, first-holds,
}
use devops_manager.Models.CommandHost.{CommandHostStatus}
use devops_manager.Models.Command.{Command, CommandStatus}
use devops_manager.Models.Task.{Task}
use devops_manager.Models.Command as Commands
use devops_manager.Db.{
  Db, Message, ok, quiet, find_task, find_command, is_live_command, update_commands, update_hosts,
}
use devops_manager.Db.Rollback.{transaction-ok}
use devops_manager.TaskService.Results.{follow_task}
use devops_manager.TaskService.Progress.Follow.{followed, update_task_progress-quiet}
use devops_manager.TaskService.Failures.{retry_failed_command, retry, command_reset, host_reset}

abbrev is_retryable_one : ℕ → Command → Bool
is_retryable_one id c = (c.command_id == id && Commands.is_retryable c.status) && is_live_command c

first-retryable :
    (id : ℕ) (cs : List Command) (c : Command)
    → first (λ d. d.command_id == id && is_live_command d) cs ≡ some c
    → Commands.is_retryable c.status ≡ true
    → first (is_retryable_one id) cs ≡ some c
first-retryable id [] c found h = cc
first-retryable id (d ∷ ds) c found h = ground (arith, first-retryable id ds c)

abbrev reset_db : ℕ → Time → Db → Db
reset_db id now db =
    update_hosts (λ ch. ch.command_id == id) (host_reset now)
      (update_commands (λ c. c.command_id == id) (command_reset now) db)

find_command-reset :
    (id : ℕ) (now : Time) (db : Db) (c : Command)
    → find_command id db ≡ some c
    → find_command id (reset_db id now db) ≡ some (command_reset now c)
unfolding command_reset
find_command-reset id now db c found =
    let is_it = λ (d : Command). d.command_id == id && is_live_command d in
    rw (
      first-update_where is_it is_it (command_reset now) db.commands (λ d. refl),
      found,
      first-holds is_it c db.commands found,
    )

retry_failed_command-quiet :
    (id : ℕ) (now : Time) (db : Db) (order : List CommandHostStatus) (out : List Message)
    (c : Command) (task_id : ℕ) (t : Task)
    → find_command id db ≡ some c
    → Commands.is_retryable c.status ≡ true
    → c.task_id ≡ some task_id
    → find_task task_id db ≡ some t
    → retry_failed_command id now (quiet db true order out) ≡ (
      ok tt,
      quiet
          (followed task_id now order t (reset_db id now db))
          true
          order
          (out ++ Message.run (command_reset now c) ∷ []),
    )
unfolding retry_failed_command
retry_failed_command-quiet id now db order out c task_id t found again of_task of_id =
    transaction-ok (retry id now) db true order out (
      rw (first-retryable id db.commands c found again, retry)
        (rw (find_command-reset id now db c found) (
          ap
            (λ o. follow_task o now (
              quiet (reset_db id now db) true order
                (out ++ Message.run (command_reset now c) ∷ [])))
            of_task
          ∙ update_task_progress-quiet task_id now (reset_db id now db) true order
              (out ++ Message.run (command_reset now c) ∷ []) t of_id)))

-- Where no statement fails and a dispatcher is set, RetryFailedCommand on a failed or timed out
-- command of a live task succeeds: the command and its host rows are as new, and the command is
-- sent as it then is.
pub retry_failed_command-resets :
    (id : ℕ) (now : Time) (db : Db) (order : List CommandHostStatus) (out : List Message)
    (c : Command) (task_id : ℕ) (t : Task)
    → find_command id db ≡ some c
    → Commands.is_retryable c.status ≡ true
    → c.task_id ≡ some task_id
    → find_task task_id db ≡ some t
    → let r = retry_failed_command id now (quiet db true order out) in
      (r.0 ≡ ok tt)
      × (find_command id r.1.db ≡ some (command_reset now c))
      × (r.1.db.command_hosts
          ≡ update_where (λ ch. ch.command_id == id) (host_reset now) db.command_hosts)
      × (r.1.goroutines ≡ out ++ Message.run (command_reset now c) ∷ [])
retry_failed_command-resets id now db order out c task_id t found again of_task of_id =
    rw (retry_failed_command-quiet id now db order out c task_id t found again of_task of_id)
      (refl, find_command-reset id now db c found, refl, refl)
