-- ===== src/TaskService/Atomic.antt =====
-- The methods of the task service that run in a transaction: an error leaves the tables alone.
use devops_manager.Prelude.{ℕ, ℤ, String, not, ◌≡◌, Time, List, ◌&&◌, first}
use devops_manager.Models.CommandResult.{CommandResult}
use devops_manager.Models.Task as Tasks
use devops_manager.Db.{
  Action, Session, Error, err, return, ◌>>=◌, find_task, read, require, check, has_id,
  is_live_command,
}
use devops_manager.Db.Rollback.{
  IsAtomic, transaction-err, bind-IsAtomic, returning-IsAtomic, read-Reads, require-Reads,
  check-Reads,
}
use devops_manager.TaskService.Lifecycle.{
  create_task, create_body, start_task, start_task_body, cancel_task, cancel_task_body, delete_task,
  delete_rows,
}
use devops_manager.TaskService.Hosts.{add_task_hosts, add_rows, remove_task_host, remove_rows}
use devops_manager.TaskService.Results.{handle_command_result, record_result, with_execution_time}
use devops_manager.TaskService.Failures.{
  handle_agent_disconnection, disconnect_agent, handle_command_execution_error, record_error,
  retry_failed_command, retry,
}

-- A call of one of these methods.
pub data Call : Type 0 where
  create :
      (ℕ → ℕ)
      → (name description : String) → List ℕ
      → (command : String) → ℤ
      → (parameters created_by : String) → Call
  start cancel delete : ℕ → Call
  add_hosts : (ℕ → ℕ) → ℕ → List ℕ → Call
  remove_host : (task_id host_id : ℕ) → Call
  report : CommandResult → Call
  disconnect : ℕ → Call
  fail : (command_id host_id : ℕ) → String → Call
  retry_command : ℕ → Call

unfoldable pub run_call : Call → Time → Action (Unit {0})
run_call (create uuid name description hosts command timeout parameters created_by) now = do
  task ← create_task uuid name description hosts command timeout parameters created_by now
  return tt
run_call (start id) now = start_task id now
run_call (cancel id) now = cancel_task id now
run_call (delete id) now = delete_task id now
run_call (add_hosts uuid id hosts) now = add_task_hosts uuid id hosts now
run_call (remove_host id host) now = remove_task_host id host now
run_call (report r) now = handle_command_result r now
run_call (disconnect host) now = handle_agent_disconnection host now
run_call (fail command host message) now = handle_command_execution_error command host message now
run_call (retry_command id) now = retry_failed_command id now

delete_task-IsAtomic : (id : ℕ) (now : Time) → IsAtomic (delete_task id now)
unfolding delete_task
delete_task-IsAtomic id now =
    bind-IsAtomic (read (find_task id)) _ (read-Reads (find_task id)) (λ found.
      bind-IsAtomic (require Error.task_not_found found) _
        (require-Reads Error.task_not_found found)
        (λ task.
          bind-IsAtomic (check (not (Tasks.is_running task.status)) Error.task_running) _
            (check-Reads (not (Tasks.is_running task.status)) Error.task_running)
            (λ _. transaction-err (delete_rows id now))))

pub add_task_hosts-IsAtomic :
    (uuid : ℕ → ℕ) (id : ℕ) (hosts : List ℕ) (now : Time)
    → IsAtomic (add_task_hosts uuid id hosts now)
unfolding add_task_hosts
add_task_hosts-IsAtomic uuid id hosts now =
    bind-IsAtomic (read (find_task id)) _ (read-Reads (find_task id)) (λ found.
      bind-IsAtomic (require Error.task_not_found found) _
        (require-Reads Error.task_not_found found)
        (λ task.
          bind-IsAtomic (check (not (Tasks.is_running task.status)) Error.task_running) _
            (check-Reads (not (Tasks.is_running task.status)) Error.task_running)
            (λ _.
              bind-IsAtomic
                (read (λ db. first (λ c. has_id id c.task_id && is_live_command c) db.commands)) _
                (read-Reads
                  (λ db. first (λ c. has_id id c.task_id && is_live_command c) db.commands))
                (λ c.
                  bind-IsAtomic (require Error.command_not_found c) _
                    (require-Reads Error.command_not_found c)
                    (λ existing. transaction-err (add_rows uuid id existing hosts now))))))

pub remove_task_host-IsAtomic : (id host : ℕ) (now : Time) → IsAtomic (remove_task_host id host now)
unfolding remove_task_host
remove_task_host-IsAtomic id host now =
    bind-IsAtomic (read (find_task id)) _ (read-Reads (find_task id)) (λ found.
      bind-IsAtomic (require Error.task_not_found found) _
        (require-Reads Error.task_not_found found)
        (λ task.
          bind-IsAtomic (check (not (Tasks.is_running task.status)) Error.task_running) _
            (check-Reads (not (Tasks.is_running task.status)) Error.task_running)
            (λ _. transaction-err (remove_rows id host now))))

pub create_task-IsAtomic :
    (uuid : ℕ → ℕ) (name description : String) (hosts : List ℕ) (command : String) (timeout : ℤ)
    (parameters created_by : String) (now : Time)
    → IsAtomic (create_task uuid name description hosts command timeout parameters created_by now)
unfolding create_task
create_task-IsAtomic uuid name description hosts command timeout parameters created_by now =
    transaction-err
      (create_body uuid name description hosts command timeout parameters created_by now)

-- Whatever statements fail: CreateTask, StartTask, CancelTask, DeleteTask, AddTaskHosts,
-- RemoveTaskHost, HandleCommandResult, HandleAgentDisconnection, HandleCommandExecutionError and
-- RetryFailedCommand have changed no table where they return an error.
pub run_call-IsAtomic :
    (c : Call) (now : Time) (s : Session) (e : Error)
    → (run_call c now s).0 ≡ err e
    → (run_call c now s).1.db ≡ s.db
unfolding run_call start_task cancel_task handle_command_result handle_agent_disconnection
    handle_command_execution_error retry_failed_command
run_call-IsAtomic (create uuid name description hosts command timeout parameters created_by) now =
    returning-IsAtomic _
      (create_task-IsAtomic uuid name description hosts command timeout parameters created_by now)
run_call-IsAtomic (start id) now = transaction-err (start_task_body id now)
run_call-IsAtomic (cancel id) now = transaction-err (cancel_task_body id now)
run_call-IsAtomic (delete id) now = delete_task-IsAtomic id now
run_call-IsAtomic (add_hosts uuid id hosts) now = add_task_hosts-IsAtomic uuid id hosts now
run_call-IsAtomic (remove_host id host) now = remove_task_host-IsAtomic id host now
run_call-IsAtomic (report r) now = transaction-err (record_result (with_execution_time r) now)
run_call-IsAtomic (disconnect host) now = transaction-err (disconnect_agent host now)
run_call-IsAtomic (fail command host message) now =
    transaction-err (record_error command host message now)
run_call-IsAtomic (retry_command id) now = transaction-err (retry id now)
