-- ===== src/TaskService/Progress/Follow.antt =====
-- updateTaskProgressInTransaction where no statement fails.
use devops_manager.Prelude.{ℕ, ◌≡◌, Bool, some, Time, List, select, arith}
use devops_manager.Models.CommandHost.{CommandHost, CommandHostStatus}
use devops_manager.Models.Task.{Task}
use devops_manager.Db.{Db, Message, ok, quiet, find_task, update_task, belongs_to}
use devops_manager.Db.Laws.{find_task-update}
use devops_manager.TaskService.Tally.{Counts, count_statuses}
use devops_manager.TaskService.Progress.{update_task_progress, apply_counts}

-- The host rows of a task.
abbrev pub rows_of : ℕ → Db → List CommandHost
rows_of id db = select (belongs_to id db.commands) db.command_hosts

abbrev pub followed : ℕ → Time → List CommandHostStatus → Task → Db → Db
followed id now order t db =
    update_task id (apply_counts now (count_statuses order (rows_of id db)) t) db

pub update_task_progress-quiet :
    (id : ℕ) (now : Time) (db : Db) (disp : Bool) (order : List CommandHostStatus)
    (out : List Message) (t : Task)
    → find_task id db ≡ some t
    → update_task_progress id now (quiet db disp order out)
      ≡ (ok tt, quiet (followed id now order t db) disp order out)
unfolding update_task_progress
update_task_progress-quiet id now db disp order out t found = rw (found, update_task_progress)

apply_counts-task_id :
    (now : Time) (c : Counts) (before t : Task) → (apply_counts now c before t).task_id ≡ t.task_id
unfolding apply_counts
apply_counts-task_id now c before t = ground arith

apply_counts-deleted_at :
    (now : Time) (c : Counts) (before t : Task)
    → (apply_counts now c before t).deleted_at ≡ t.deleted_at
unfolding apply_counts
apply_counts-deleted_at now c before t = ground arith

pub find_task-followed :
    (id : ℕ) (now : Time) (order : List CommandHostStatus) (t : Task) (db : Db)
    → find_task id db ≡ some t
    → find_task id (followed id now order t db)
      ≡ some (apply_counts now (count_statuses order (rows_of id db)) t t)
find_task-followed id now order t db found =
    let c = count_statuses order (rows_of id db) in
    find_task-update id (apply_counts now c t) db t (apply_counts-task_id now c t)
      (apply_counts-deleted_at now c t) found
