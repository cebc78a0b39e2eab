-- ===== src/TaskQueue/Status.antt =====
-- NewTaskQueueManager without the goroutines that it starts, and GetQueueStatus.
use devops_manager.Prelude.{ℕ, zero, suc, ◌+◌, Bool, List, [], ◌∷◌, ◌==◌, if◌then◌else◌, length}
use devops_manager.TaskQueue.Types.{Manager, QueuedTask, HostLoad, free}
use devops_manager.TaskQueue.Guard.{Outcome, returns, and_then, read_locked}
use devops_manager.TaskQueue.Select.{LoadBalanceStrategy}
use devops_manager.TaskQueue.Manager.{SystemLoad, get_system_load}

pub record TaskQueueConfig : Type 0 where
  pub max_concurrent_tasks : ℕ
  pub max_tasks_per_host : ℕ
  pub queue_capacity : ℕ
  pub worker_count : ℕ
  pub load_balance_strategy : LoadBalanceStrategy
  pub adaptive_throttling : Bool
  pub system_load_threshold : ℕ

abbrev pub empty_channels : ℕ → List (List QueuedTask)
empty_channels zero = []
empty_channels (suc n) = [] ∷ empty_channels n

unfoldable pub new_task_queue_manager : TaskQueueConfig → Manager
new_task_queue_manager c = record {
  lock = free;
  task_queue = [];
  running_tasks = [];
  host_loads = [];
  max_concurrent_tasks = c.max_concurrent_tasks;
  max_tasks_per_host = c.max_tasks_per_host;
  queue_capacity = c.queue_capacity;
  workers = empty_channels c.worker_count;
  adaptive_throttling = c.adaptive_throttling;
  system_load_threshold = c.system_load_threshold;
}

-- A map from priorities to numbers, without the priorities that no task has.
unfoldable pub increment : ℕ → List (ℕ × ℕ) → List (ℕ × ℕ)
increment priority [] = (priority, 1) ∷ []
increment priority ((p, n) ∷ rest) =
    if p == priority then (p, n + 1) ∷ rest else (p, n) ∷ increment priority rest

unfoldable pub priority_count : List QueuedTask → List (ℕ × ℕ) → List (ℕ × ℕ)
unfolding increment
priority_count [] counts = counts
priority_count (q ∷ qs) counts = priority_count qs (increment q.priority counts)

pub record QueueStatus : Type 0 where
  pub queue_length : ℕ
  pub running_tasks : ℕ
  pub max_concurrent_tasks : ℕ
  pub worker_count : ℕ
  pub priority_distribution : List (ℕ × ℕ)
  pub host_loads : List HostLoad
  pub system_load : SystemLoad
  pub load_balance_strategy : LoadBalanceStrategy
  pub adaptive_throttling : Bool

-- The read lock is taken here and again by getSystemLoad. That succeeds unless another goroutine
-- asks for the lock in between, which is not considered here.
unfoldable pub get_queue_status : LoadBalanceStrategy → Manager → Outcome QueueStatus
unfolding read_locked get_system_load priority_count
get_queue_status strategy = read_locked λ m. and_then (get_system_load m) λ l m'.
    returns
      (record {
        queue_length = length m'.task_queue;
        running_tasks = length m'.running_tasks;
        max_concurrent_tasks = m'.max_concurrent_tasks;
        worker_count = length m'.workers;
        priority_distribution = priority_count m'.task_queue [];
        host_loads = m'.host_loads;
        system_load = l;
        load_balance_strategy = strategy;
        adaptive_throttling = m'.adaptive_throttling;
      })
      m'
