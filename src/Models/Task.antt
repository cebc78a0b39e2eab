-- ===== src/Models/Task.antt =====
-- api/models/task.go: a row of the table tasks, and its methods. `commands` is filled by GetTask,
-- and is no column.
use devops_manager.Prelude.{ℕ, String, Bool, true, false, Option, Time, List}
use devops_manager.Models.Command.{Command}

pub data TaskStatus : Type 0 where
  pending running completed failed canceled : TaskStatus

pub record Task : Type 0 where
  pub task_id : ℕ
  pub name : String
  pub description : String
  pub status : TaskStatus
  pub total_hosts : ℕ
  pub completed_hosts : ℕ
  pub failed_hosts : ℕ
  pub created_by : String
  pub started_at : Option Time
  pub finished_at : Option Time
  pub created_at : Time
  pub updated_at : Time
  pub deleted_at : Option Time
  pub commands : List Command

unfoldable pub is_completed : TaskStatus → Bool
is_completed TaskStatus.completed = true
is_completed TaskStatus.failed = true
is_completed TaskStatus.canceled = true
is_completed _ = false

unfoldable pub is_running : TaskStatus → Bool
is_running TaskStatus.running = true
is_running _ = false

unfoldable pub is_pending : TaskStatus → Bool
is_pending TaskStatus.pending = true
is_pending _ = false
