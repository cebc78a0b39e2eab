-- ===== src/TaskService/Status/Writes.antt =====
-- What GetTaskStatus writes, where it finds nothing in the cache.
use devops_manager.Prelude.{ℕ, ◌≡◌, refl, none, some, Time, List, select, Bool, arith}
use devops_manager.Models.CommandHost.{CommandHostStatus}
use devops_manager.Models.Task.{Task}
use devops_manager.Db.{Db, Message, ok, quiet, find_task, update_task, belongs_to}
use devops_manager.Db.Laws.{find_task-update}
use devops_manager.TaskService.Tally.{Counts, count_statuses}
use devops_manager.TaskService.Progress.{update_task_progress, apply_counts}
use devops_manager.TaskService.Status.{apply_status, answer, read_task_status}

apply_status-counts :
    (now : Time) (c : Counts) (before t : Task)
    → before.finished_at ≡ none
    → apply_status now c before t ≡ apply_counts now c before t
unfolding apply_status apply_counts
apply_status-counts now c before t e = ground (arith, e)

read_task_status-quiet :
    (id : ℕ) (now : Time) (db : Db) (disp : Bool) (order : List CommandHostStatus)
    (out : List Message) (t : Task)
    → find_task id db ≡ some t
    → let c = count_statuses order (select (belongs_to id db.commands) db.command_hosts) in
      read_task_status id now (quiet db disp order out) ≡ (
        ok (answer now c t (apply_status now c t t)),
        quiet (update_task id (apply_status now c t) db) disp order out,
      )
unfolding read_task_status
read_task_status-quiet id now db disp order out t found =
    let c = count_statuses order (select (belongs_to id db.commands) db.command_hosts) in
    let again =
      find_task-update id (apply_status now c t) db t (λ u. unfold apply_status in ground arith)
        (λ u. unfold apply_status in ground arith) found in
    rw (found, again)

-- Where no statement fails, the task is there and it has no end time yet, GetTaskStatus without a cached
-- answer leaves the same tables as updateTaskProgressInTransaction: reading the status writes it. It
-- answers with the counts of the rows, and with the row of the task that is in the table afterwards.
pub read_task_status-agrees :
    (id : ℕ) (now : Time) (db : Db) (disp : Bool) (order : List CommandHostStatus)
    (out : List Message) (t : Task)
    → find_task id db ≡ some t
    → t.finished_at ≡ none
    → let c = count_statuses order (select (belongs_to id db.commands) db.command_hosts) in
      let u = apply_counts now c t t in
      let r = read_task_status id now (quiet db disp order out) in
      (r.1 ≡ (update_task_progress id now (quiet db disp order out)).1)
      × (find_task id r.1.db ≡ some u)
      × (r.0 ≡ ok (answer now c t u))
unfolding update_task_progress
read_task_status-agrees id now db disp order out t found unended =
    let c = count_statuses order (select (belongs_to id db.commands) db.command_hosts) in
    let same : apply_status now c t ≡ apply_counts now c t =
      λ i u. apply_status-counts now c t u unended i in
    rw (read_task_status-quiet id now db disp order out t found, same)
      (
        rw (found, update_task_progress) refl,
        find_task-update id (apply_counts now c t) db t (λ u. unfold apply_counts in ground arith)
            (λ u. unfold apply_counts in ground arith) found,
        refl,
      )
