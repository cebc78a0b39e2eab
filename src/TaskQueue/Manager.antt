-- ===== src/TaskQueue/Manager.antt =====
-- The operations of TaskQueueManager, each under the mutex. An operation blocks where it asks for
-- the lock that is held: in the sequences of calls considered here, one call at a time, only the
-- call itself can hold it, so that it never goes on.
pub mod Queueing
pub mod Deadlock
pub mod Bound
pub mod Workers
pub mod Termination
pub mod Livelock
use devops_manager.Prelude.{
  ℕ, zero, suc, ◌+◌, ◌-◌, ◌*◌, Bool, true, false, not, Option, none, some, Time, List, [], ◌∷◌,
  ◌++◌, ◌&&◌, ◌==◌, ltb, leb, if◌then◌else◌, length, first, select,
}
use devops_manager.TaskQueue.Types.{Manager, QueuedTask, HostLoad, Lock, free, reading, writing}
use devops_manager.TaskQueue.Insert.{insert_task_by_priority}
use devops_manager.TaskQueue.Loads.{can_execute, update_for_task}
use devops_manager.TaskQueue.Loads as Loads
use devops_manager.TaskQueue.Guard.{
  Outcome, QueueError, already_queued, already_running, and_then, blocks, fails, has_task, locked,
  locked_rule, put_task, queue_full, read_locked, remove_task, returns, set_lock, task_not_found,
}
use devops_manager.TaskQueue.Channels.{
  get_elem?, least_busy_from, remove_at, select_least_busy_worker, send,
}

unfoldable pub queued : ℕ → ℕ → List ℕ → Time → QueuedTask
queued id priority host_ids now = record {
  task_id = id;
  priority = priority;
  created_at = now;
  host_ids = host_ids;
  retries = 0;
  max_retries = 3;
}

unfoldable pub enqueue_body : ℕ → ℕ → List ℕ → Time → Manager → Outcome (Unit {0})
unfolding has_task queued insert_task_by_priority
enqueue_body id priority host_ids now m =
    if leb m.queue_capacity (length m.task_queue)
    then fails QueueError.queue_full m
    else if has_task id m.running_tasks
    then fails QueueError.already_running m
    else if has_task id m.task_queue
    then fails QueueError.already_queued m
    else returns tt (record m {
      task_queue = insert_task_by_priority (queued id priority host_ids now) m.task_queue;
    })

unfoldable pub enqueue_task : ℕ → ℕ → List ℕ → Time → Manager → Outcome (Unit {0})
unfolding locked enqueue_body
enqueue_task id priority host_ids now = locked (enqueue_body id priority host_ids now)

-- The load in percent is a quotient of two numbers: running tasks times 100, and the limit.
-- The tests below are those of the quotient, also where the limit is zero (an infinity or a NaN).
pub record SystemLoad : Type 0 where
  pub hundredfold : ℕ
  pub limit : ℕ

unfoldable pub exceeds : SystemLoad → ℕ → Bool
exceeds l threshold = ltb (threshold * l.limit) (l.hundredfold * 1000)

unfoldable pub is_below : SystemLoad → ℕ → Bool
is_below l threshold = ltb (l.hundredfold * 1000) (threshold * l.limit)

unfoldable pub get_system_load : Manager → Outcome SystemLoad
unfolding read_locked
get_system_load = read_locked λ m.
    returns (record { hundredfold = length m.running_tasks * 100; limit = m.max_concurrent_tasks })
      m

-- The task taken off the queue and counted as running.
unfoldable pub taken : ℕ → QueuedTask → Time → Manager → Manager
unfolding remove_at put_task update_for_task
taken i t now m = record m {
  task_queue = remove_at i m.task_queue;
  running_tasks = put_task t m.running_tasks;
  host_loads = update_for_task m.max_tasks_per_host now true t.host_ids m.host_loads;
}

-- The worker is busy: the task goes back, to the front of the queue.
unfoldable pub put_back : QueuedTask → Time → Manager → Manager
unfolding remove_task update_for_task
put_back t now m = record m {
  task_queue = t ∷ m.task_queue;
  running_tasks = remove_task t.task_id m.running_tasks;
  host_loads = update_for_task m.max_tasks_per_host now false t.host_ids m.host_loads;
}

-- One round of the loop on the task at index `i`: the next index, and the manager then. The worker
-- that `selectWorker` picks is an argument. The `break` of the source leaves the `select`, not the
-- loop, so the loop goes on at the same index whether the send succeeds or not.
unfoldable pub visit :
    (pick : Manager → QueuedTask → ℕ) → ℕ → QueuedTask → Time → Manager → ℕ × Manager
unfolding can_execute taken send put_back
visit pick i t now m =
    let checked = can_execute m.max_tasks_per_host now t.host_ids m.host_loads in
    let m' : Manager = record m { host_loads = checked.1 } in
    elim checked.0 [
      | false ↦ (i + 1, m')
      | true ↦ elim (send (pick (taken i t now m') t) t (taken i t now m').workers) [
        | some ws ↦ (i, record (taken i t now m') { workers = ws })
        | none ↦ (i, put_back t now (taken i t now m'))
      ]
    ]

-- The head of the loop: `none` where it ends.
unfoldable pub process_step :
    (pick : Manager → QueuedTask → ℕ) → ℕ → Time → Manager → Option (ℕ × Manager)
unfolding get_elem? visit
process_step pick i now m =
    if ltb (length m.running_tasks) m.max_concurrent_tasks
    then elim (get_elem? m.task_queue i) [ none ↦ none | some t ↦ some (visit pick i t now m) ]
    else none

-- `none` is fuel that ran out.
unfoldable pub process_loop :
    (pick : Manager → QueuedTask → ℕ) → ℕ → ℕ → Time → Manager → Option Manager
process_loop pick zero i now m = none
process_loop pick (suc fuel) i now m = elim (process_step pick i now m) [
  | none ↦ some m
  | some (j, m') ↦ process_loop pick fuel j now m'
]

-- The loop's outcome under the lock; a loop whose fuel runs out goes on for ever if no fuel helps.
abbrev pub looped : Option Manager → Outcome (Unit {0})
looped (some m) = returns tt m
looped none = blocks

unfoldable pub process_queue :
    (pick : Manager → QueuedTask → ℕ) → ℕ → Time → Manager → Outcome (Unit {0})
unfolding locked get_system_load exceeds process_loop process_step
process_queue pick fuel now = locked λ m.
    if leb m.max_concurrent_tasks (length m.running_tasks)
    then returns tt m
    else if m.adaptive_throttling
    then and_then (get_system_load m) (λ l m'.
      if exceeds l m'.system_load_threshold
      then returns tt m'
      else looped (process_loop pick fuel 0 now m'))
    else looped (process_loop pick fuel 0 now m)

-- The tail of executeTask, after StartTask has returned. A task that failed and may be tried again
-- is returned, and inserted by `reinsert` after a delay.
unfoldable pub finish_body : Bool → QueuedTask → Time → Manager → Outcome (Option QueuedTask)
unfolding remove_task update_for_task
finish_body started t now m =
    returns
      (if started
        then none
        else if ltb t.retries t.max_retries
        then some (record t { retries = t.retries + 1 })
        else none)
      (record m {
        running_tasks = remove_task t.task_id m.running_tasks;
        host_loads = update_for_task m.max_tasks_per_host now false t.host_ids m.host_loads;
      })

unfoldable pub finish_task : Bool → QueuedTask → Time → Manager → Outcome (Option QueuedTask)
unfolding locked finish_body
finish_task started t now = locked (finish_body started t now)

-- The delayed goroutine of executeTask: no test of the capacity, nor for the task's identifier.
unfoldable pub reinsert : QueuedTask → Manager → Outcome (Unit {0})
unfolding locked insert_task_by_priority
reinsert t =
    locked λ m. returns tt (record m { task_queue = insert_task_by_priority t m.task_queue })

-- The new limit of adjustConcurrency.
unfoldable pub adjusted : SystemLoad → (queue_length running limit : ℕ) → ℕ
unfolding is_below exceeds
adjusted l queue_length running limit =
    if is_below l 50000 && (ltb 10 queue_length && ltb running limit)
    then (if ltb (limit + 2) 100 then limit + 2 else 100)
    else if exceeds l 80000 && ltb 5 limit
    then (if ltb 5 (limit - 2) then limit - 2 else 5)
    else limit

unfoldable pub adjust_concurrency : Manager → Outcome (Unit {0})
unfolding locked get_system_load adjusted
adjust_concurrency = locked λ m. and_then (get_system_load m) λ l m'. returns tt (record m' {
  max_concurrent_tasks =
      adjusted l (length m'.task_queue) (length m'.running_tasks) m'.max_concurrent_tasks;
})

-- The task is taken off the queue, or off the running tasks; its worker is not told.
unfoldable pub cancel_body : ℕ → Time → Manager → Outcome (Unit {0})
unfolding has_task remove_task update_for_task
cancel_body id now m =
    if has_task id m.task_queue
    then returns tt (record m { task_queue = remove_task id m.task_queue })
    else elim (first (λ t. t.task_id == id) m.running_tasks) [
      | none ↦ fails QueueError.task_not_found m
      | some t ↦ returns tt (record m {
        running_tasks = remove_task id m.running_tasks;
        host_loads = update_for_task m.max_tasks_per_host now false t.host_ids m.host_loads;
      })
    ]

unfoldable pub cancel_task : ℕ → Time → Manager → Outcome (Unit {0})
unfolding locked cancel_body
cancel_task id now = locked (cancel_body id now)

-- The place of the first task with an identifier, counted from one.
unfoldable pub position : ℕ → List QueuedTask → Option ℕ
position id [] = none
position id (q ∷ qs) =
    if q.task_id == id
    then some 1
    else elim (position id qs) [ none ↦ none | some n ↦ some (n + 1) ]

unfoldable pub get_task_position : ℕ → Manager → Outcome ℕ
unfolding read_locked position
get_task_position id = read_locked λ m. elim (position id m.task_queue) [
  | none ↦ fails QueueError.task_not_found m
  | some n ↦ returns n m
]

unfoldable pub update_host_load : ℕ → (cpu memory : ℕ) → Bool → Time → Manager → Outcome (Unit {0})
unfolding locked Loads.update_host_load
update_host_load id cpu memory available now = locked λ m. returns tt (record m {
  host_loads = Loads.update_host_load m.max_tasks_per_host id cpu memory available now m.host_loads;
})

unfoldable pub update_host_loads : Time → Manager → Outcome (Unit {0})
unfolding locked Loads.refresh
update_host_loads now =
    locked λ m. returns tt (record m { host_loads = Loads.refresh now m.host_loads })
