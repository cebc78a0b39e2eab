-- ===== src/TaskService/Progress.antt =====
-- updateTaskProgressInTransaction: a task's counters, status
-- and times are made to follow the rows of its hosts. `now` is the clock that the method reads.
pub mod Outcome
pub mod Follow
pub mod Loaded
use devops_manager.Prelude.{
  ℕ, ◌+◌, Bool, true, false, Option, none, some, Time, if◌then◌else◌, ◌==◌, ltb, ◌||◌, select,
}
use devops_manager.Models.Task.{Task, TaskStatus}
use devops_manager.Db.{
  Action, Error, Db, read, write, require, group_order, return, ◌>>=◌, ◌>>◌, find_task, update_task,
  belongs_to, statement,
}
use devops_manager.TaskService.Tally.{Counts, count_statuses}

-- What the counts say of the whole task: all hosts are through, some are at work, or nothing new.
pub data Verdict : Type 0 where
  finished : TaskStatus → Verdict
  under_way : Verdict
  unchanged : Verdict

unfoldable pub verdict : Counts → ℕ → Verdict
verdict c total =
    if c.completed + c.failed + c.canceled == total
    then finished (
        if ltb 0 c.canceled
        then TaskStatus.canceled
        else if c.failed == 0
        then TaskStatus.completed
        else TaskStatus.failed)
    else if ltb 0 c.running || ltb 0 c.completed
    then under_way
    else unchanged

-- A time that is set only where none is.
abbrev pub or_now : Option Time → Time → Option Time
or_now (some t) now = some t
or_now none now = some now

-- `taskUpdates` and its UPDATE. `read` is the row that was read before: the branch on
-- `task.StartedAt` is on that row.
unfoldable pub apply_counts : Time → Counts → Task → Task → Task
unfolding verdict
apply_counts now c before t = elim (verdict c before.total_hosts) [
  | finished s ↦ record t {
    completed_hosts = c.completed;
    failed_hosts = c.failed;
    updated_at = now;
    status = s;
    finished_at = some now;
  }
  | under_way ↦ record t {
    completed_hosts = c.completed;
    failed_hosts = c.failed;
    updated_at = now;
    status = TaskStatus.running;
    started_at = elim before.started_at [ none ↦ some now | some u ↦ t.started_at ];
  }
  | unchanged ↦ record t {
    completed_hosts = c.completed;
    failed_hosts = c.failed;
    updated_at = now;
  }
]

unfoldable pub update_task_progress : ℕ → Time → Action (Unit {0})
unfolding statement
update_task_progress task_id now = do
  found ← read (find_task task_id)
  task ← require Error.task_not_found found
  order ← group_order
  rows ← read (λ db. select (belongs_to task_id db.commands) db.command_hosts)
  write (update_task task_id (apply_counts now (count_statuses order rows) task))
