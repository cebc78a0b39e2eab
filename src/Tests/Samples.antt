-- ===== src/Tests/Samples.antt =====
-- A task on two hosts at several moments, and a queue of three tasks.
use devops_manager.Prelude.{ℕ, ℤ, pos, Bool, true, none, some, Time, List, [], ◌∷◌}
use devops_manager.Models.CommandHost.{CommandHost, CommandHostStatus}
use devops_manager.Models.CommandResult.{CommandResult}
use devops_manager.Models.Command.{Command, CommandStatus}
use devops_manager.Models.Task.{Task, TaskStatus}
use devops_manager.Db.{Db}
use devops_manager.TaskQueue.Types.{Manager, QueuedTask, HostLoad, free}

abbrev pub task : ℕ → TaskStatus → ℕ → Task
task id status total = record {
  task_id = id;
  name = "update";
  description = "";
  status = status;
  total_hosts = total;
  completed_hosts = 0;
  failed_hosts = 0;
  created_by = "admin";
  started_at = none;
  finished_at = none;
  created_at = 1;
  updated_at = 1;
  deleted_at = none;
  commands = [];
}

abbrev pub command : ℕ → ℕ → ℕ → CommandStatus → Command
command id task_id host_id status = record {
  command_id = id;
  task_id = some task_id;
  host_id = host_id;
  command = "uptime";
  parameters = "";
  timeout = pos 30;
  status = status;
  stdout = "";
  stderr = "";
  exit_code = none;
  started_at = some 2;
  finished_at = none;
  error_msg = "";
  created_at = 1;
  updated_at = 1;
  deleted_at = none;
  command_hosts = [];
}

abbrev pub row : ℕ → ℕ → CommandHostStatus → CommandHost
row command_id host_id status = record {
  command_id = command_id;
  host_id = host_id;
  status = status;
  stdout = "";
  stderr = "";
  exit_code = pos 0;
  started_at = none;
  finished_at = none;
  error_message = "";
  execution_time = none;
  created_at = 1;
  updated_at = 1;
}

abbrev pub report : ℕ → ℕ → ℤ → CommandResult
report command_id host_id exit_code = record {
  command_id = command_id;
  host_id = host_id;
  stdout = "up 3 days";
  stderr = "";
  exit_code = exit_code;
  started_at = some 2;
  finished_at = some 40;
  error_message = "";
  execution_time = none;
  created_at = 40;
  updated_at = 40;
}

-- Task 1 runs command 10 on host 5 and command 11 on host 6.
abbrev pub tables :
    TaskStatus → CommandStatus → CommandHostStatus → CommandStatus → CommandHostStatus → Db
tables status c₁ r₁ c₂ r₂ = record {
  tasks = task 1 status 2 ∷ [];
  commands = command 10 1 5 c₁ ∷ command 11 1 6 c₂ ∷ [];
  command_hosts = row 10 5 r₁ ∷ row 11 6 r₂ ∷ [];
  command_results = [];
}

abbrev pub waiting : Db
waiting =
    tables TaskStatus.pending CommandStatus.pending CommandHostStatus.pending CommandStatus.pending
      CommandHostStatus.pending

abbrev pub busy : Db
busy =
    tables TaskStatus.running CommandStatus.completed CommandHostStatus.completed
      CommandStatus.running CommandHostStatus.running

abbrev pub failed_once : Db
failed_once =
    tables TaskStatus.running CommandStatus.completed CommandHostStatus.completed
      CommandStatus.failed CommandHostStatus.exec_failed

-- Every status once.
abbrev pub statuses : List CommandHostStatus
statuses =
    CommandHostStatus.failed ∷ CommandHostStatus.timeout ∷ CommandHostStatus.pending
    ∷ CommandHostStatus.running ∷ CommandHostStatus.exec_failed ∷ CommandHostStatus.canceled
    ∷ CommandHostStatus.completed ∷ []

abbrev pub queued_task : ℕ → ℕ → Time → QueuedTask
queued_task id priority created_at = record {
  task_id = id;
  priority = priority;
  created_at = created_at;
  host_ids = 5 ∷ [];
  retries = 0;
  max_retries = 3;
}

abbrev pub load : ℕ → ℕ → HostLoad
load id running = record {
  host_id = id;
  running_tasks = running;
  max_concurrent_tasks = 3;
  cpu_usage = 20000;
  memory_usage = 30000;
  last_updated = 1;
  available = true;
}

-- Two tasks wait, one runs on host 5, and there is one worker.
abbrev pub manager : Bool → Manager
manager adaptive = record {
  lock = free;
  task_queue = queued_task 2 4 3 ∷ queued_task 3 1 2 ∷ [];
  running_tasks = queued_task 1 2 1 ∷ [];
  host_loads = load 5 1 ∷ [];
  max_concurrent_tasks = 10;
  max_tasks_per_host = 3;
  queue_capacity = 100;
  workers = [] ∷ [];
  adaptive_throttling = adaptive;
  system_load_threshold = 80000;
}
