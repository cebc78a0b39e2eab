-- ===== src/Agent/Tasks.antt =====
-- TaskService of agent/pkg/service/task_service.go. An execution is an object that the map and the
-- goroutine of its command both hold: `executions` is the store of these objects, in the order in
-- which they were made, and the map takes a task to the place of one. Every section under the mutex
-- is one step here. `place` says how far the goroutine has come.
pub mod Outcomes
use devops_manager.Prelude.{
  ℕ, zero, suc, ℤ, String, Bool, true, false, not, Option, none, some, Time, List, [], ◌∷◌, ◌++◌,
  ◌==◌, ◌&&◌, ◌+◌, ◌-◌, ltb, length, map, select, first, if◌then◌else◌, is_zero,
}

pub data ExecutionStatus : Type 0 where
  running completed failed canceled : ExecutionStatus

-- utils.CommandResult
pub record CommandResult : Type 0 where
  pub command : String
  pub stdout : String
  pub stderr : String
  pub exit_code : ℤ
  pub duration : ℤ
  pub error : String

pub data Place : Type 0 where
  executing returned ended : Place

pub record TaskExecution : Type 0 where
  pub task_id : ℕ
  pub command : String
  pub status : ExecutionStatus
  pub start_time : Time
  pub end_time : Option Time
  pub result : Option CommandResult
  pub is_canceled : Bool
  pub place : Place

pub record TaskService : Type 0 where
  pub running_tasks : List (ℕ × ℕ)
  pub executions : List TaskExecution

unfoldable pub new_task_service : TaskService
new_task_service = record { running_tasks = []; executions = [] }

unfoldable pub is_running : ExecutionStatus → Bool
is_running ExecutionStatus.running = true
is_running _ = false

abbrev pub get_elem? : List TaskExecution → ℕ → Option TaskExecution
get_elem? [] i = none
get_elem? (e ∷ es) zero = some e
get_elem? (e ∷ es) (suc i) = get_elem? es i

abbrev pub modify : ℕ → (TaskExecution → TaskExecution) → List TaskExecution → List TaskExecution
modify i f [] = []
modify zero f (e ∷ es) = f e ∷ es
modify (suc i) f (e ∷ es) = e ∷ modify i f es

abbrev pub lookup : ℕ → List (ℕ × ℕ) → Option ℕ
lookup id [] = none
lookup id ((k, i) ∷ m) = if k == id then some i else lookup id m

pub data Refusal : Type 0 where
  validation_failed already_running : Refusal

abbrev pub started : ℕ → String → Time → TaskExecution
started id command now = record {
  task_id = id;
  command = command;
  status = ExecutionStatus.running;
  start_time = now;
  end_time = none;
  result = none;
  is_canceled = false;
  place = Place.executing;
}

pub data Began : Type 0 where
  refused : Refusal → Began
  began : (place_in_store : ℕ) → Began

-- ExecuteTask up to the wait; `is_valid` is the answer of ValidateCommand.
unfoldable pub execute_task : Bool → ℕ → String → Time → TaskService → Began × TaskService
execute_task is_valid id command now s =
    if not is_valid
    then (refused Refusal.validation_failed, s)
    else elim (lookup id s.running_tasks) [
      | some i ↦ (refused Refusal.already_running, s)
      | none ↦ (
        began (length s.executions),
        record {
          running_tasks = (id, length s.executions) ∷ s.running_tasks;
          executions = s.executions ++ started id command now ∷ [];
        },
      )
    ]

-- The goroutine after ExecuteCommand has returned.
unfoldable pub with_result : CommandResult → TaskExecution → TaskExecution
with_result r e = record e {
  result = some r;
  status = (if is_zero r.exit_code then e.status else ExecutionStatus.failed);
  place = Place.returned;
}

-- The deferred function of the goroutine.
unfoldable pub with_end : Time → TaskExecution → TaskExecution
with_end now e = record e {
  status = ExecutionStatus.completed;
  end_time = some now;
  place = Place.ended;
}

unfoldable pub command_returns : ℕ → CommandResult → TaskService → TaskService
unfolding with_result
command_returns i r s = record s { executions = modify i (with_result r) s.executions }

unfoldable pub goroutine_ends : ℕ → Time → TaskService → TaskService
unfolding with_end
goroutine_ends i now s = record s { executions = modify i (with_end now) s.executions }

-- What wakes the select of ExecuteTask: the end of the context, or the timer of `timeout` and one
-- second. The end of the command is not among them.
pub data Wake : Type 0 where
  done timer : Wake

pub data Awaited : Type 0 where
  gives : CommandResult → Awaited
  task_canceled task_timeout : Awaited

unfoldable pub await : Wake → Option TaskExecution → Awaited
await done e = task_canceled
await timer none = task_timeout
await timer (some e) = elim e.result [ none ↦ task_timeout | some r ↦ gives r ]

unfoldable pub with_cancel : Time → TaskExecution → TaskExecution
unfolding is_running
with_cancel now e =
    if is_running e.status
    then record e { is_canceled = true; status = ExecutionStatus.canceled; end_time = some now }
    else e

-- `false` where the task is not found.
unfoldable pub cancel_task : ℕ → Time → TaskService → Bool × TaskService
unfolding with_cancel
cancel_task id now s = elim (lookup id s.running_tasks) [
  | none ↦ (false, s)
  | some i ↦ (true, record s { executions = modify i (with_cancel now) s.executions })
]

unfoldable pub get_task_status : ℕ → TaskService → Option TaskExecution
get_task_status id s = elim (lookup id s.running_tasks) [
  | none ↦ none
  | some i ↦ get_elem? s.executions i
]

abbrev pub holds : (TaskExecution → Bool) → List TaskExecution → ℕ × ℕ → Bool
holds p es k = elim (get_elem? es k.1) [ none ↦ false | some e ↦ p e ]

unfoldable pub get_running_tasks : TaskService → List ℕ
unfolding is_running
get_running_tasks s =
    map (λ k. k.0) (select (holds (λ e. is_running e.status) s.executions) s.running_tasks)

-- `EndTime.Before(cutoff)`, the cutoff being `max_age` before now.
unfoldable pub is_old : (max_age : ℕ) → Time → TaskExecution → Bool
unfolding is_running
is_old max_age now e =
    not (is_running e.status) && elim e.end_time [ none ↦ false | some t ↦ ltb (t + max_age) now ]

unfoldable pub cleanup_completed_tasks : (max_age : ℕ) → Time → TaskService → TaskService
unfolding is_old
cleanup_completed_tasks max_age now s = record s {
  running_tasks = select (λ k. not (holds (is_old max_age now) s.executions k)) s.running_tasks;
}
