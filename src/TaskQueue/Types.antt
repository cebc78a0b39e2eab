-- ===== src/TaskQueue/Types.antt =====
-- The records of the queue manager. A map is a list of entries with distinct keys. Usage and load
-- thresholds, floats in the source, are numbers in thousandths of a percent.
use devops_manager.Prelude.{ℕ, Bool, Time, List}

-- The priorities of the source run from 1 (low) to 4 (urgent).
pub record QueuedTask : Type 0 where
  pub task_id : ℕ
  pub priority : ℕ
  pub created_at : Time
  pub host_ids : List ℕ
  pub retries : ℕ
  pub max_retries : ℕ

pub record HostLoad : Type 0 where
  pub host_id : ℕ
  pub running_tasks : ℕ
  pub max_concurrent_tasks : ℕ
  pub cpu_usage : ℕ
  pub memory_usage : ℕ
  pub last_updated : Time
  pub available : Bool

-- The state of the sync.RWMutex.
pub data Lock : Type 0 where
  free : Lock
  reading : ℕ → Lock
  writing : Lock

-- `workers` holds the tasks that wait in each worker's channel.
pub record Manager : Type 0 where
  pub lock : Lock
  pub task_queue : List QueuedTask
  pub running_tasks : List QueuedTask
  pub host_loads : List HostLoad
  pub max_concurrent_tasks : ℕ
  pub max_tasks_per_host : ℕ
  pub queue_capacity : ℕ
  pub workers : List (List QueuedTask)
  pub adaptive_throttling : Bool
  pub system_load_threshold : ℕ
