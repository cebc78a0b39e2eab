-- ===== src/TaskService/Status.antt =====
-- GetTaskStatus: the cached answer, or a transaction that makes the task follow its rows and then
-- answers with the row that it has written. The goroutine that caches the answer is
-- cache_task_status of TaskCache.
pub mod Cached
pub mod Details
pub mod Writes
use devops_manager.Prelude.{ℕ, ℤ, ◌+◌, String, Option, none, some, Time, sub, if◌then◌else◌, select}
use devops_manager.Models.Task.{Task, TaskStatus}
use devops_manager.Db.{
  Action, Error, Result, Session, Db, read, write, require, group_order, return, ◌>>=◌, ◌>>◌,
  find_task, update_task, belongs_to, statement, transaction, ok,
}
use devops_manager.TaskCache as Cache
use devops_manager.TaskCache.{Redis}
use devops_manager.TaskCache.Store.{get_cached_task_status}
use devops_manager.TaskService.Tally.{Counts, count_statuses}
use devops_manager.TaskService.Progress.{Verdict, finished, under_way, unchanged, verdict, or_now}

-- part / whole * 100, and 0 where the whole is 0; the division of floats is not done here.
pub record Percent : Type 0 where
  pub part : ℕ
  pub whole : ℕ

-- The map of the answer. A duration is in nanoseconds, before the division by a second.
pub record StatusAnswer : Type 0 where
  pub task_id : ℕ
  pub name : String
  pub description : String
  pub status : TaskStatus
  pub total_hosts : ℕ
  pub hosts : Counts
  pub success_rate : Percent
  pub progress : Percent
  pub created_by : String
  pub created_at : Time
  pub started_at : Option Time
  pub finished_at : Option Time
  pub updated_at : Time
  pub duration_seconds : Option ℤ

-- `taskUpdates` and its UPDATE; the times are set only where the row that was read has none.
unfoldable pub apply_status : Time → Counts → Task → Task → Task
unfolding verdict
apply_status now c before t = elim (verdict c before.total_hosts) [
  | finished s ↦ record t {
    completed_hosts = c.completed;
    failed_hosts = c.failed;
    updated_at = now;
    status = s;
    finished_at = elim before.finished_at [ none ↦ some now | some u ↦ t.finished_at ];
  }
  | under_way ↦ record t {
    completed_hosts = c.completed;
    failed_hosts = c.failed;
    updated_at = now;
    status = TaskStatus.running;
    started_at = elim before.started_at [ none ↦ some now | some u ↦ t.started_at ];
  }
  | unchanged ↦ record t {
    completed_hosts = c.completed;
    failed_hosts = c.failed;
    updated_at = now;
  }
]

unfoldable pub running_time : Option Time → Option Time → Time → Option ℤ
unfolding sub
running_time none f now = none
running_time (some s) none now = some (sub now s)
running_time (some s) (some f) now = some (sub f s)

unfoldable pub answer : Time → Counts → Task → Task → StatusAnswer
unfolding running_time
answer now c before t = record {
  task_id = t.task_id;
  name = t.name;
  description = t.description;
  status = t.status;
  total_hosts = t.total_hosts;
  hosts = c;
  success_rate = record { part = c.completed; whole = c.completed + c.failed };
  progress = record { part = c.completed + c.failed + c.canceled; whole = before.total_hosts };
  created_by = t.created_by;
  created_at = t.created_at;
  started_at = t.started_at;
  finished_at = t.finished_at;
  updated_at = t.updated_at;
  duration_seconds = running_time t.started_at t.finished_at now;
}

unfoldable pub task_status_body : ℕ → Time → Action StatusAnswer
unfolding statement apply_status answer
task_status_body id now = do
  found ← read (find_task id)
  task ← require Error.task_not_found found
  order ← group_order
  rows ← read (λ db. select (belongs_to id db.commands) db.command_hosts)
  write (update_task id (apply_status now (count_statuses order rows) task))
  again ← read (find_task id)
  updated ← require Error.db_error again
  return (answer now (count_statuses order rows) task updated)

unfoldable pub read_task_status : ℕ → Time → Action StatusAnswer
unfolding transaction task_status_body
read_task_status id now = transaction (task_status_body id now)

abbrev pub or_fresh :
    {Text : Type 0}
    → Cache.Result (Option StatusAnswer) × Redis Text
    → ℕ
    → Time
    → Session
    → (Result StatusAnswer × Session) × Redis Text
or_fresh (Cache.ok (some a), r) id now s = ((ok a, s), r)
or_fresh (Cache.ok none, r) id now s = (read_task_status id now s, r)
or_fresh (Cache.err e, r) id now s = (read_task_status id now s, r)

unfoldable pub get_task_status :
    {Text : Type 0} (unmarshal : Text → Option StatusAnswer)
    → ℕ
    → Time
    → Redis Text
    → Session
    → (Result StatusAnswer × Session) × Redis Text
unfolding get_cached_task_status
get_task_status unmarshal id now r s = or_fresh (get_cached_task_status unmarshal id now r) id now s
