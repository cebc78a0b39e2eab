-- ===== src/Agent/Replies/Silent.antt =====
-- The agent's replies at the server: they have no times, so that no status follows from them.
use devops_manager.Prelude.{
  ℕ, ◌≡◌, refl, ap, Option, none, some, Time, List, map, ◌==◌, ◌&&◌, ◌||◌, first, map-update_where,
  Bool-cases, inl, inr,
}
use devops_manager.Models.CommandHost.{CommandHost, CommandHostStatus}
use devops_manager.Models.CommandResult.{CommandResult, from_protobuf, computed_time}
use devops_manager.Models.CommandContent.{CommandContent}
use devops_manager.Models.Command.{Command, CommandStatus}
use devops_manager.Models.Task.{Task}
use devops_manager.Db.{
  Db, Session, Action, Error, read, write, require, group_order, find_task, find_command,
  is_live_command, update_hosts, update_commands, update_task, ◌>>=◌,
}
use devops_manager.Db.Keeps.{Keeps, statement-Keeps, require-Keeps, bind-Keeps, transaction-Keeps}
use devops_manager.TaskService.Tally.{count_statuses}
use devops_manager.TaskService.Progress.{update_task_progress, apply_counts}
use devops_manager.TaskService.Progress.Follow.{rows_of}
use devops_manager.TaskService.Results.{
  record_result, handle_command_result, host_reported, command_reported, reported_host_status,
  reported_status, store_result, is_result_of, follow_task, with_execution_time,
}
use devops_manager.Dispatch.{handle_result, create_command_result_from_protobuf}
use devops_manager.Agent.Replies.{Executed, result, error, reply}

-- The statuses of all host rows and of all commands, in the order of the tables.
abbrev pub statuses : Db → List CommandHostStatus × List CommandStatus
statuses db = (map (λ ch. ch.status) db.command_hosts, map (λ c. c.status) db.commands)

update_task_progress-Keeps : (id : ℕ) (now : Time) → Keeps statuses (update_task_progress id now)
unfolding update_task_progress
update_task_progress-Keeps id now =
    let follow = λ (task : Task) (rows : List CommandHost) (order : List CommandHostStatus).
      write (update_task id (apply_counts now (count_statuses order rows) task)) in
    let count = λ (task : Task) (order : List CommandHostStatus).
      read (rows_of id) >>= (λ rows. follow task rows order) in
    bind-Keeps statuses (read (find_task id)) _
      (statement-Keeps statuses (λ db. (find_task id db, db)) (λ db. refl))
      (λ found.
        bind-Keeps statuses (require Error.task_not_found found)
          (λ task. do order ← group_order; count task order)
          (require-Keeps statuses Error.task_not_found found)
          (λ task.
            bind-Keeps statuses group_order (count task) (λ s. refl)
              (λ order.
                bind-Keeps statuses (read (rows_of id)) (λ rows. follow task rows order)
                  (statement-Keeps statuses (λ db. (rows_of id db, db)) (λ db. refl))
                  (λ rows.
                    statement-Keeps statuses
                      (λ db.
                        (tt, update_task id (apply_counts now (count_statuses order rows) task) db))
                      (λ db. refl)))))

follow_task-Keeps : (id : Option ℕ) (now : Time) → Keeps statuses (follow_task id now)
follow_task-Keeps none now s = refl
follow_task-Keeps (some id) now s = update_task_progress-Keeps id now s

-- A result with no times.
abbrev silent : CommandResult → CommandResult
silent r = record r { started_at = none; finished_at = none }

host_reported-status :
    (r : CommandResult) (now : Time) (ch : CommandHost)
    → (host_reported (silent r) now ch).status ≡ ch.status
unfolding host_reported reported_host_status
host_reported-status r now ch = refl

command_reported-status :
    (r : CommandResult) (now : Time) (c : Command)
    → (command_reported (silent r) now c).status ≡ c.status
unfolding command_reported reported_status
command_reported-status r now c = refl

look_up-Keeps :
    (id : ℕ) (now : Time)
    → Keeps statuses (do
      found ← read (find_command id)
      command ← require Error.command_not_found found
      follow_task command.task_id now)
look_up-Keeps id now =
    bind-Keeps statuses (read (find_command id))
      (λ found. do command ← require Error.command_not_found found; follow_task command.task_id now)
      (statement-Keeps statuses (λ db. (find_command id db, db)) (λ db. refl))
      (λ found.
        bind-Keeps statuses (require Error.command_not_found found)
          (λ command. follow_task command.task_id now)
          (require-Keeps statuses Error.command_not_found found)
          (λ command. follow_task-Keeps command.task_id now))

-- The statements from the lookup of the old result on.
abbrev saved : CommandResult → Time → Unit {0} → Action (Unit {0})
saved r now u = do
  existing ← read (λ db. first (is_result_of r) db.command_results)
  u' ← write (store_result (record r { created_at = now; updated_at = now }) now existing)
  found ← read (find_command r.command_id)
  command ← require Error.command_not_found found
  follow_task command.task_id now

saved-Keeps : (r : CommandResult) (now : Time) (u : Unit {0}) → Keeps statuses (saved r now u)
unfolding store_result
saved-Keeps r now u =
    let store = λ (old : Option CommandResult).
      store_result (record r { created_at = now; updated_at = now }) now old in
    let look_up = λ (u : Unit {0}). read (find_command r.command_id) >>= (λ found.
      require Error.command_not_found found >>= (λ command. follow_task command.task_id now)) in
    bind-Keeps statuses (read (λ db. first (is_result_of r) db.command_results))
      (λ existing. do u' ← write (store existing); look_up u')
      (statement-Keeps statuses (λ db. (first (is_result_of r) db.command_results, db))
        (λ db. refl))
      (λ existing.
        bind-Keeps statuses (write (store existing)) look_up
          (statement-Keeps statuses (λ db. (tt, store existing db)) (λ db. refl))
          (λ u'. look_up-Keeps r.command_id now))

record_result-Keeps :
    (r : CommandResult) (now : Time) → Keeps statuses (record_result (silent r) now)
unfolding record_result
record_result-Keeps r now =
    let at_host = λ (ch : CommandHost). ch.command_id == r.command_id && ch.host_id == r.host_id in
    let at_command = λ (c : Command). c.command_id == r.command_id in
    let save = saved (silent r) now in
    bind-Keeps statuses (write (update_hosts at_host (host_reported (silent r) now)))
      (λ u. do u' ← write (update_commands at_command (command_reported (silent r) now)); save u')
      (statement-Keeps statuses (λ db. (tt, update_hosts at_host (host_reported (silent r) now) db))
        (λ db.
          ap (λ x. (x, map (λ c. c.status) db.commands))
            (map-update_where (λ ch. ch.status) at_host (host_reported (silent r) now)
              db.command_hosts (host_reported-status r now))))
      (λ u.
        bind-Keeps statuses (write (update_commands at_command (command_reported (silent r) now)))
          save
          (statement-Keeps statuses
            (λ db. (tt, update_commands at_command (command_reported (silent r) now) db))
            (λ db.
              ap (λ x. (map (λ ch. ch.status) db.command_hosts, x))
                (map-update_where (λ c. c.status) (λ c. at_command c && is_live_command c)
                  (command_reported (silent r) now) db.commands (command_reported-status r now))))
          (saved-Keeps (silent r) now))

reply-Keeps :
    (cmd : CommandContent) (x : Executed) (now : Time)
    → Keeps statuses (handle_command_result (create_command_result_from_protobuf (reply cmd x)) now)
unfolding handle_command_result create_command_result_from_protobuf from_protobuf reply
    with_execution_time computed_time
reply-Keeps cmd (result r) now =
    transaction-Keeps statuses _
      (record_result-Keeps (create_command_result_from_protobuf (reply cmd (result r))) now)
reply-Keeps cmd (error text) now =
    transaction-Keeps statuses _
      (record_result-Keeps (create_command_result_from_protobuf (reply cmd (error text))) now)

-- A reply of the agent, whatever came of the command, leaves the status of every command and of every
-- host row as it is when the server handles it, whatever statements fail.
pub handle_result-no_status :
    (cmd : CommandContent) (x : Executed) (now : Time) (s : Session)
    → statuses (handle_result (reply cmd x) now s).db ≡ statuses s.db
unfolding handle_result handle_command_result
handle_result-no_status cmd x now s =
    let m = reply cmd x in
    elim (Bool-cases (m.command_id == 0 || m.host_id == 0)) [
      | inl e ↦ rw (e, handle_result) refl
      | inr e ↦ rw (e, handle_result) (reply-Keeps cmd x now s)
    ]
