-- ===== src/TaskService/Results/Reported.antt =====
-- What HandleCommandResult leaves in the tables, where no statement fails.
use devops_manager.Prelude.{
  ℕ, ◌≡◌, refl, ap, sym, subst, ◌∙◌, Bool, true, ◌==◌, ◌&&◌, some, Time, List, first, update_where,
  All, if◌then◌else◌, arith, length, is_zero, All-update_where, first-update_where, first-holds,
}
use devops_manager.Models.CommandHost.{CommandHost, CommandHostStatus}
use devops_manager.Models.CommandResult.{CommandResult}
use devops_manager.Models.Command.{Command}
use devops_manager.Models.Task.{Task}
use devops_manager.Db.{
  Db, Message, ok, quiet, find_task, find_command, is_live_command, update_commands, update_hosts,
}
use devops_manager.Db.Rollback.{transaction-ok}
use devops_manager.TaskService.Tally.{count_statuses, count_of, same}
use devops_manager.TaskService.Tally.Laws.{IsGroupOrder, FailsOnlyBy, failures}
use devops_manager.TaskService.Progress.Outcome.{unfinished, final_status, apply_counts-finished}
use devops_manager.TaskService.Progress.{apply_counts}
use devops_manager.TaskService.Progress.Follow.{
  followed, update_task_progress-quiet, find_task-followed, rows_of,
}
use devops_manager.TaskService.Results.{
  handle_command_result, record_result, host_reported, command_reported, with_execution_time,
  store_result, is_result_of,
}

-- The tables before the task follows.
abbrev recorded : CommandResult → Time → Db → Db
recorded r now db =
    let db₂ =
      update_commands (λ c. c.command_id == r.command_id) (command_reported r now)
        (update_hosts (λ ch. ch.command_id == r.command_id && ch.host_id == r.host_id)
          (host_reported r now) db) in
    store_result (record r { created_at = now; updated_at = now }) now
      (first (is_result_of r) db.command_results) db₂

find_command-reported :
    (r : CommandResult) (now : Time) (cs : List Command) (c : Command)
    → first (λ d. d.command_id == r.command_id && is_live_command d) cs ≡ some c
    → first
        (λ d. d.command_id == r.command_id && is_live_command d)
        (update_where
          (λ d. d.command_id == r.command_id && is_live_command d)
          (command_reported r now)
          cs)
      ≡ some (command_reported r now c)
unfolding command_reported
find_command-reported r now cs c found =
    let is_it = λ (d : Command). d.command_id == r.command_id && is_live_command d in
    rw (
      first-update_where is_it is_it (command_reported r now) cs (λ d. refl),
      found,
      first-holds is_it c cs found,
    )

record_result-quiet :
    (r : CommandResult) (now : Time) (db : Db) (disp : Bool) (order : List CommandHostStatus)
    (out : List Message) (c : Command) (id : ℕ) (t : Task)
    → find_command r.command_id db ≡ some c
    → c.task_id ≡ some id
    → find_task id db ≡ some t
    → record_result r now (quiet db disp order out)
      ≡ (ok tt, quiet (followed id now order t (recorded r now db)) disp order out)
unfolding record_result
record_result-quiet r now db disp order out c id t found of_task of_id =
    rw (find_command-reported r now db.commands c found, record_result)
      (rw of_task (update_task_progress-quiet id now (recorded r now db) disp order out t of_id))

handle_command_result-quiet :
    (r : CommandResult) (now : Time) (db : Db) (disp : Bool) (order : List CommandHostStatus)
    (out : List Message) (c : Command) (id : ℕ) (t : Task)
    → find_command r.command_id db ≡ some c
    → c.task_id ≡ some id
    → find_task id db ≡ some t
    → handle_command_result r now (quiet db disp order out) ≡ (
      ok tt,
      quiet (followed id now order t (recorded (with_execution_time r) now db)) disp order out,
    )
unfolding handle_command_result
handle_command_result-quiet r now db disp order out c id t found of_task of_id =
    transaction-ok (record_result (with_execution_time r) now) db disp order out
      (record_result-quiet (with_execution_time r) now db disp order out c id t found of_task of_id)

-- A row is not the reported one, or it has the status that the exit code calls for.
abbrev pub has_outcome : CommandResult → CommandHost → Bool
has_outcome r ch =
    if ch.command_id == r.command_id && ch.host_id == r.host_id
    then same
        (if is_zero r.exit_code then CommandHostStatus.completed else CommandHostStatus.exec_failed)
        ch.status
    else true

reported_rows :
    (r : CommandResult) (now f : Time) (chs : List CommandHost)
    → r.finished_at ≡ some f
    → All
        (λ ch. has_outcome r ch ≡ true)
        (update_where
          (λ ch. ch.command_id == r.command_id && ch.host_id == r.host_id)
          (host_reported r now)
          chs)
unfolding host_reported same
reported_rows r now f chs done =
    All-update_where (λ ch. has_outcome r ch ≡ true)
      (λ ch. ch.command_id == r.command_id && ch.host_id == r.host_id) (host_reported r now) chs
      (λ ch. ground arith)

-- Where no statement fails, a result with a finish time, for a live command of a live task, gives
-- every row of its command on its host the outcome that its exit code calls for, and the task the
-- counts and the verdict of the rows that it then has.
pub handle_command_result-outcome :
    (r : CommandResult) (now f : Time) (db : Db) (disp : Bool) (order : List CommandHostStatus)
    (out : List Message) (c : Command) (id : ℕ) (t : Task)
    → find_command r.command_id db ≡ some c
    → c.task_id ≡ some id
    → find_task id db ≡ some t
    → r.finished_at ≡ some f
    → let s = handle_command_result r now (quiet db disp order out) in
      (s.0 ≡ ok tt)
      × All (λ ch. has_outcome r ch ≡ true) s.1.db.command_hosts
      × (find_task id s.1.db
          ≡ some (apply_counts now (count_statuses order (rows_of id s.1.db)) t t))
unfolding with_execution_time store_result
handle_command_result-outcome r now f db disp order out c id t found of_task of_id done =
    rw (handle_command_result-quiet r now db disp order out c id t found of_task of_id) (
      refl,
      reported_rows (with_execution_time r) now f db.command_hosts done,
      find_task-followed id now order t (recorded (with_execution_time r) now db) of_id,
    )

-- The tables after a report.
abbrev pub db_after : CommandResult → Time → Db → Bool → List CommandHostStatus → List Message → Db
db_after r now db disp order out = (handle_command_result r now (quiet db disp order out)).1.db

-- The report of the last host, for a live command of a live task, where no statement fails and the
-- groups come each status once: where the task's total is the number of its rows, none of them is
-- then pending or running, and all failures have one status, the task ends at `now` with the
-- status that its hosts call for, and with the right counts.
pub handle_command_result-last_host :
    (r : CommandResult) (now : Time) (db : Db) (disp : Bool) (order : List CommandHostStatus)
    (out : List Message) (c : Command) (id : ℕ) (t : Task) (k : CommandHostStatus)
    → find_command r.command_id db ≡ some c
    → c.task_id ≡ some id
    → find_task id db ≡ some t
    → IsGroupOrder order
    → t.total_hosts ≡ length (rows_of id (db_after r now db disp order out))
    → unfinished (rows_of id (db_after r now db disp order out)) ≡ 0
    → FailsOnlyBy (rows_of id (db_after r now db disp order out)) k
    → let rows = rows_of id (db_after r now db disp order out) in
      find_task id (db_after r now db disp order out)
      ≡ some (record t {
        completed_hosts = count_of CommandHostStatus.completed rows;
        failed_hosts = failures rows;
        updated_at = now;
        status = final_status rows;
        finished_at = some now;
      })
unfolding store_result
handle_command_result-last_host r now db disp order out c id t k found of_task of_id once total
      settled only =
    let s : Db = recorded (with_execution_time r) now db in
    let final : db_after r now db disp order out ≡ followed id now order t s =
      ap (λ o. o.1.db)
        (handle_command_result-quiet r now db disp order out c id t found of_task of_id) in
    subst
      (λ (d : Db).
        t.total_hosts ≡ length (rows_of id d)
        → unfinished (rows_of id d) ≡ 0
        → FailsOnlyBy (rows_of id d) k
        → find_task id d
          ≡ some (record t {
            completed_hosts = count_of CommandHostStatus.completed (rows_of id d);
            failed_hosts = failures (rows_of id d);
            updated_at = now;
            status = final_status (rows_of id d);
            finished_at = some now;
          }))
      (sym final)
      (λ total settled only.
        find_task-followed id now order t s of_id
        ∙ ap some (apply_counts-finished now t order (rows_of id s) once k total settled only))
      total settled only
