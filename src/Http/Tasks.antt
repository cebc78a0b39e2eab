-- ===== src/Http/Tasks.antt =====
-- The handlers of http_task_controller.go that change tasks: one function for each, over the methods
-- of the task service. The statistics, the logs and the maintenance of the tables are left out.
pub mod Lists
use devops_manager.Prelude.{
  ℕ, ℤ, suc, zero, String, Bool, true, false, Option, none, some, Time, List, [], ◌∷◌,
  if◌then◌else◌,
}
use text.Mathlib.Text.{◌==◌ as str_eq}
use devops_manager.Models.CommandHost.{CommandHost}
use devops_manager.Models.Task.{Task}
use devops_manager.Db.{Error, Session}
use Prim.Native.String.{◌++◌}
use devops_manager.Http.Reply.{Reply, replied, with_param, send_error_response}
use devops_manager.TaskService.Lifecycle.{create_task, start_task, stop_task, cancel_task}
use devops_manager.TaskService.Hosts.{add_task_hosts, remove_task_host, get_task_hosts}
use devops_manager.TaskService.Failures.{retry_failed_command}
use devops_manager.TaskService.Queries.{get_task, status_text}
use devops_manager.TimeoutMonitor.{check_command_timeout}

-- Identifiers of hosts that are the empty text are not told from others.
pub record CreateTaskRequest : Type 0 where
  pub name : String
  pub description : String
  pub host_ids : List ℕ
  pub command : String
  pub timeout : ℤ
  pub parameters : String

pub record TaskResponse : Type 0 where
  pub id : ℕ
  pub task_id : ℕ
  pub name : String
  pub description : String
  pub status : String
  pub total_hosts : ℕ
  pub completed_hosts : ℕ
  pub failed_hosts : ℕ
  pub created_by : String
  pub created_at : String
  pub updated_at : String

-- `row_id` is the primary key that the database gave the row of an identifier, and `format` the method
-- Format of time.Time with the layout 2006-01-02T15:04:05Z.
unfoldable pub task_response : (row_id : ℕ → ℕ) (format : Time → String) → Task → TaskResponse
unfolding status_text
task_response row_id format t = record {
  id = row_id t.task_id;
  task_id = t.task_id;
  name = t.name;
  description = t.description;
  status = status_text t.status;
  total_hosts = t.total_hosts;
  completed_hosts = t.completed_hosts;
  failed_hosts = t.failed_hosts;
  created_by = t.created_by;
  created_at = format t.created_at;
  updated_at = format t.updated_at;
}

-- What ShouldBindJSON makes of the request's body: an error's text, or a value.
pub data Bound {ℓ} (A : Type ℓ) : Type ℓ where
  invalid : String → Bound A
  bound : A → Bound A

module _ (error_text : Error → String) where
  module _ (row_id : ℕ → ℕ) (format : Time → String) where
    create_bound :
        (uuid : ℕ → ℕ) → Time → CreateTaskRequest → Session → Reply TaskResponse × Session
    unfolding create_task replied task_response
    create_bound uuid now req s =
        replied error_text 500 "Failed to create task: " (task_response row_id format) (
          create_task uuid req.name req.description req.host_ids req.command req.timeout
            req.parameters "admin" now s)

    -- The three tests after the body was read.
    unfoldable pub create_checked :
        (uuid : ℕ → ℕ) → Time → CreateTaskRequest → List ℕ → Session → Reply TaskResponse × Session
    unfolding create_bound send_error_response
    create_checked uuid now req [] s =
        if str_eq req.name ""
        then (send_error_response 400 "Task name is required", s)
        else (send_error_response 400 "At least one host is required", s)
    create_checked uuid now req (h ∷ hs) s =
        if str_eq req.name ""
        then (send_error_response 400 "Task name is required", s)
        else if str_eq req.command ""
        then (send_error_response 400 "Command is required", s)
        else create_bound uuid now req s

    unfoldable pub create_task_handler :
        (uuid : ℕ → ℕ) → Bound CreateTaskRequest → Time → Session → Reply TaskResponse × Session
    unfolding create_checked send_error_response
    create_task_handler uuid (invalid text) now s =
        (send_error_response 400 ("Invalid request body: " ++ text), s)
    create_task_handler uuid (bound req) now s = create_checked uuid now req req.host_ids s

    unfoldable pub get_task_handler : Option ℕ → Session → Reply TaskResponse × Session
    unfolding get_task replied task_response send_error_response
    get_task_handler id = with_param id "Task ID is required" λ task_id s.
        replied error_text 404 "Task not found: " (task_response row_id format) (get_task task_id s)

  unfoldable pub start_task_handler : Option ℕ → Time → Session → Reply String × Session
  unfolding start_task replied send_error_response
  start_task_handler id now = with_param id "Task ID is required" λ task_id s.
      replied error_text 500 "Failed to start task: " (λ _. "Task started successfully")
        (start_task task_id now s)

  unfoldable pub stop_task_handler : Option ℕ → Time → Session → Reply String × Session
  unfolding stop_task replied send_error_response
  stop_task_handler id now = with_param id "Task ID is required" λ task_id s.
      replied error_text 500 "Failed to stop task: " (λ _. "Task stopped successfully")
        (stop_task task_id now s)

  unfoldable pub cancel_task_handler : Option ℕ → Time → Session → Reply String × Session
  unfolding cancel_task replied send_error_response
  cancel_task_handler id now = with_param id "Task ID is required" λ task_id s.
      replied error_text 500 "Failed to cancel task: " (λ _. "Task canceled successfully")
        (cancel_task task_id now s)

  unfoldable pub get_task_hosts_handler : Option ℕ → Session → Reply (List CommandHost) × Session
  unfolding get_task_hosts replied send_error_response
  get_task_hosts_handler id = with_param id "Task ID is required" λ task_id s.
      replied error_text 404 "Failed to get task hosts: " (λ rows. rows) (get_task_hosts task_id s)

  add_bound : (uuid : ℕ → ℕ) → Bound (List ℕ) → Time → ℕ → Session → Reply String × Session
  unfolding add_task_hosts replied send_error_response
  add_bound uuid (invalid text) now task_id s =
      (send_error_response 400 ("Invalid request body: " ++ text), s)
  add_bound uuid (bound []) now task_id s =
      (send_error_response 400 "At least one host ID is required", s)
  add_bound uuid (bound (h ∷ hs)) now task_id s =
      replied error_text 500 "Failed to add task hosts: " (λ _. "Hosts added successfully")
        (add_task_hosts uuid task_id (h ∷ hs) now s)

  unfoldable pub add_task_hosts_handler :
      (uuid : ℕ → ℕ) → Option ℕ → Bound (List ℕ) → Time → Session → Reply String × Session
  unfolding add_bound send_error_response
  add_task_hosts_handler uuid id body now =
      with_param id "Task ID is required" (add_bound uuid body now)

  unfoldable pub remove_task_host_handler :
      (id host_id : Option ℕ) → Time → Session → Reply String × Session
  unfolding remove_task_host replied send_error_response
  remove_task_host_handler id host_id now =
      with_param id "Task ID and Host ID are required" λ task_id.
        with_param host_id "Task ID and Host ID are required" λ host s.
          replied error_text 500 "Failed to remove task host: " (λ _. "Host removed successfully")
            (remove_task_host task_id host now s)

  unfoldable pub retry_failed_command_handler : Option ℕ → Time → Session → Reply String × Session
  unfolding retry_failed_command replied send_error_response
  retry_failed_command_handler id now = with_param id "Command ID is required" λ command_id s.
      replied error_text 500 "Failed to retry command: "
        (λ _. "Command retry initiated successfully") (retry_failed_command command_id now s)

  unfoldable pub check_command_timeout_handler : Option ℕ → Time → Session → Reply String × Session
  unfolding check_command_timeout replied send_error_response
  check_command_timeout_handler id now = with_param id "Command ID is required" λ command_id s.
      replied error_text 500 "Failed to check command timeout: "
        (λ _. "Command timeout check completed") (check_command_timeout command_id now s)
