-- ===== src/TaskService/Lifecycle/Cancel.antt =====
-- What CancelTask leaves in the tables, where no statement fails.
use mathlib.Core.List.{append-nil, append_assoc}
use devops_manager.Prelude.{
  ℕ, ◌≡◌, refl, ap, ◌∙◌, Bool, true, false, not, ◌&&◌, ◌||◌, ◌==◌, some, Time, List, [], ◌∷◌, ◌++◌,
  map, select, update_where, All, arith, All-update_where, select-update_where,
  count_where-update_where, elem, update_where-map, if◌then◌else◌,
}
use devops_manager.Models.CommandHost.{CommandHost, CommandHostStatus}
use devops_manager.Models.Command.{Command, CommandStatus}
use devops_manager.Models.Task.{Task, TaskStatus}
use devops_manager.Models.CommandHost as Hosts
use devops_manager.Models.Command as Commands
use devops_manager.Models.Task as Tasks
use devops_manager.Db.{
  Db, Message, ok, quiet, find_task, commands_of, belongs_to, has_id, is_live_command, is_live_task,
  command_ids_of,
}
use devops_manager.Db.Rollback.{transaction-ok}
use devops_manager.Db.Laws.{find_task-update, command_ids_of-update}
use devops_manager.TaskService.Tally.{same, count_of}
use devops_manager.TaskService.Lifecycle.{cancel_task, cancel_task_body, send_cancels, is_canceled}

abbrev cancels : List Command → List Message
cancels cs = map (λ c. Message.cancel c.host_id c.command_id) cs

send_cancels-quiet :
    (cs : List Command) (db : Db) (order : List CommandHostStatus) (out : List Message)
    → send_cancels cs (quiet db true order out) ≡ (ok tt, quiet db true order (out ++ cancels cs))
unfolding send_cancels
send_cancels-quiet [] db order out = rw append-nil
send_cancels-quiet (c ∷ cs) db order out =
    send_cancels-quiet cs db order (out ++ Message.cancel c.host_id c.command_id ∷ [])
    ∙ rw append_assoc

abbrev task_canceled : Time → Task → Task
task_canceled now t = record t {
  status = TaskStatus.canceled;
  finished_at = some now;
  updated_at = now;
}

abbrev command_canceled : Time → Command → Command
command_canceled now c = record c {
  status = CommandStatus.canceled;
  finished_at = some now;
  updated_at = now;
}

abbrev host_canceled : Time → CommandHost → CommandHost
host_canceled now ch = record ch {
  status = CommandHostStatus.canceled;
  finished_at = some now;
  updated_at = now;
}

-- Live commands, and host rows, of a task that are pending or running.
abbrev pub is_open_command : ℕ → Command → Bool
is_open_command id c = (has_id id c.task_id && Commands.is_unfinished c.status) && is_live_command c

abbrev pub is_open_host : ℕ → List Command → CommandHost → Bool
is_open_host id cs ch = belongs_to id cs ch && Hosts.is_unfinished ch.status

-- The tables after CancelTask.
abbrev canceled_db : ℕ → Time → Db → Db
canceled_db id now db =
    let cs = update_where (is_open_command id) (command_canceled now) db.commands in
    record db {
      tasks = update_where (λ t. t.task_id == id && is_live_task t) (task_canceled now) db.tasks;
      commands = cs;
      command_hosts = update_where (is_open_host id cs) (host_canceled now) db.command_hosts;
    }

abbrev notified : ℕ → Time → Bool → Db → List Message
notified id now true db =
    cancels (select (λ c. is_canceled c.status) (commands_of id (canceled_db id now db)))
notified id now false db = []

cancel_task-quiet :
    (id : ℕ) (now : Time) (db : Db) (disp : Bool) (order : List CommandHostStatus)
    (out : List Message) (t : Task)
    → find_task id db ≡ some t
    → Tasks.is_completed t.status ≡ false
    → cancel_task id now (quiet db disp order out)
      ≡ (ok tt, quiet (canceled_db id now db) disp order (out ++ notified id now disp db))
unfolding cancel_task
cancel_task-quiet id now db true order out t found unfinished =
    transaction-ok (cancel_task_body id now) db true order out (
      rw (found, cancel_task_body)
        (rw unfinished (send_cancels-quiet _ (canceled_db id now db) order out)))
cancel_task-quiet id now db false order out t found unfinished =
    transaction-ok (cancel_task_body id now) db false order out
      (rw (found, cancel_task_body) (rw (unfinished, append-nil)))

module _ (id : ℕ) (now : Time) (db : Db) where
  canceled_commands : All (λ c. is_open_command id c ≡ false) (canceled_db id now db).commands
  unfolding Commands.is_unfinished
  canceled_commands =
      All-update_where (λ c. is_open_command id c ≡ false) (is_open_command id)
        (command_canceled now) db.commands (λ c. ground arith)

  canceled_ids : command_ids_of id (canceled_db id now db).commands ≡ command_ids_of id db.commands
  canceled_ids =
      command_ids_of-update id (is_open_command id) (command_canceled now) db.commands (λ c. refl)
        (λ c. refl)

  canceled_rows :
      (canceled_db id now db).command_hosts
      ≡ update_where (is_open_host id db.commands) (host_canceled now) db.command_hosts
  canceled_rows =
      ap
        (λ ids.
          update_where (λ ch. elem ch.command_id ids && Hosts.is_unfinished ch.status)
            (host_canceled now) db.command_hosts)
        canceled_ids

  canceled_hosts :
      All (λ ch. is_open_host id db.commands ch ≡ false) (canceled_db id now db).command_hosts
  unfolding Hosts.is_unfinished
  canceled_hosts = rw canceled_rows (
      All-update_where (λ ch. is_open_host id db.commands ch ≡ false) (is_open_host id db.commands)
        (host_canceled now) db.command_hosts (λ ch. ground arith))

  -- Host rows of other tasks are the same, in the same order.
  other_hosts :
      select (λ ch. not (belongs_to id db.commands ch)) (canceled_db id now db).command_hosts
      ≡ select (λ ch. not (belongs_to id db.commands ch)) db.command_hosts
  other_hosts = rw canceled_rows (
      select-update_where (λ ch. not (belongs_to id db.commands ch)) (is_open_host id db.commands)
        (host_canceled now) db.command_hosts (λ ch. refl) (λ ch h. ground arith))

  -- A host that has finished keeps its status.
  finished_hosts :
      (k : CommandHostStatus)
      → Hosts.is_unfinished k || same k CommandHostStatus.canceled ≡ false
      → count_of k (canceled_db id now db).command_hosts ≡ count_of k db.command_hosts
  unfolding same Hosts.is_unfinished
  finished_hosts k h = rw canceled_rows (
      count_where-update_where (λ ch. same k ch.status) (is_open_host id db.commands)
        (host_canceled now) db.command_hosts (λ ch. ground arith))

-- Where no statement fails, CancelTask on a task that is not completed succeeds. The task is then
-- canceled at `now`, and the tasks with other identifiers are as they were. Each of its live
-- commands that was pending or running is canceled at `now`, every other command in the table is as
-- it was, and none of the task is left open; the same holds of the host rows. The host rows of other
-- tasks are as they were, and no status completed, failed, exec_failed or timeout of a host row is
-- lost or gained.
pub cancel_task-settles :
    (id : ℕ) (now : Time) (db : Db) (disp : Bool) (order : List CommandHostStatus)
    (out : List Message) (t : Task)
    → find_task id db ≡ some t
    → Tasks.is_completed t.status ≡ false
    → let r = cancel_task id now (quiet db disp order out) in
      (r.0 ≡ ok tt)
      × (find_task id r.1.db
          ≡ some
              (record t { status = TaskStatus.canceled; finished_at = some now; updated_at = now }))
      × (select (λ u. not (u.task_id == id)) r.1.db.tasks
          ≡ select (λ u. not (u.task_id == id)) db.tasks)
      × (r.1.db.commands
          ≡ map
              (λ c.
                if is_open_command id c
                then record c {
                  status = CommandStatus.canceled;
                  finished_at = some now;
                  updated_at = now;
                }
                else c)
              db.commands)
      × (r.1.db.command_hosts
          ≡ map
              (λ ch.
                if is_open_host id db.commands ch
                then record ch {
                  status = CommandHostStatus.canceled;
                  finished_at = some now;
                  updated_at = now;
                }
                else ch)
              db.command_hosts)
      × All (λ c. is_open_command id c ≡ false) r.1.db.commands
      × All (λ ch. is_open_host id db.commands ch ≡ false) r.1.db.command_hosts
      × (select (λ ch. not (belongs_to id db.commands ch)) r.1.db.command_hosts
          ≡ select (λ ch. not (belongs_to id db.commands ch)) db.command_hosts)
      × (count_of CommandHostStatus.completed r.1.db.command_hosts
          ≡ count_of CommandHostStatus.completed db.command_hosts)
      × (count_of CommandHostStatus.failed r.1.db.command_hosts
          ≡ count_of CommandHostStatus.failed db.command_hosts)
      × (count_of CommandHostStatus.exec_failed r.1.db.command_hosts
          ≡ count_of CommandHostStatus.exec_failed db.command_hosts)
      × (count_of CommandHostStatus.timeout r.1.db.command_hosts
          ≡ count_of CommandHostStatus.timeout db.command_hosts)
unfolding Hosts.is_unfinished same
cancel_task-settles id now db disp order out t found unfinished =
    rw (cancel_task-quiet id now db disp order out t found unfinished) (
      refl,
      find_task-update id (task_canceled now) db t (λ u. refl) (λ u. refl) found,
      select-update_where (λ u. not (u.task_id == id)) (λ u. u.task_id == id && is_live_task u)
          (task_canceled now) db.tasks (λ u. refl) (λ u h. ground arith),
      update_where-map (is_open_command id) (command_canceled now) db.commands,
      canceled_rows id now db
          ∙ update_where-map (is_open_host id db.commands) (host_canceled now) db.command_hosts,
      canceled_commands id now db,
      canceled_hosts id now db,
      other_hosts id now db,
      finished_hosts id now db CommandHostStatus.completed refl,
      finished_hosts id now db CommandHostStatus.failed refl,
      finished_hosts id now db CommandHostStatus.exec_failed refl,
      finished_hosts id now db CommandHostStatus.timeout refl,
    )
