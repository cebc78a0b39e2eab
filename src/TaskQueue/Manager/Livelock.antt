-- ===== src/TaskQueue/Manager/Livelock.antt =====
-- The loop of processQueue goes on for ever where the worker that is picked is busy: the task goes
-- back to the front, and the loop visits it again.
use devops_manager.Prelude.{
  ℕ, zero, suc, ◌<◌, ◌≡◌, refl, false, none, some, Time, List, [], ◌∷◌, length, arith, ◌∙◌,
}
use devops_manager.TaskQueue.Types.{Manager, QueuedTask}
use devops_manager.TaskQueue.Loads.{can_execute, update_for_task}
use devops_manager.TaskQueue.Manager.{process_loop, process_step, visit, taken, put_back}
use devops_manager.TaskQueue.Channels.{get_elem?, remove_at, send}
use devops_manager.TaskQueue.Guard.{has_task, put_task, remove_task}
use devops_manager.TaskQueue.Manager.Bound.{process_loop-next}

remove_task-put :
    (t : QueuedTask) (qs : List QueuedTask)
    → has_task t.task_id qs ≡ false
    → remove_task t.task_id (put_task t qs) ≡ qs
unfolding has_task put_task remove_task
remove_task-put t [] h = ground arith
remove_task-put t (q ∷ qs) h = ground (arith, remove_task-put t qs)

-- A task that names no host.
abbrev pub hostless : QueuedTask → QueuedTask
hostless t = record t { host_ids = [] }

-- Such a task stands first in the queue.
abbrev pub queue_head : QueuedTask → List QueuedTask → Manager → Manager
queue_head t qs m = record m { task_queue = hostless t ∷ qs }

module _ (pick : Manager → QueuedTask → ℕ) (now : Time) (m : Manager) (t : QueuedTask)
    (qs : List QueuedTask) (idle : has_task t.task_id m.running_tasks ≡ false)
    (free_place : length m.running_tasks < m.max_concurrent_tasks)
    (busy : (n : Manager) → send (pick n (hostless t)) (hostless t) m.workers ≡ none) where
  visit-stuck : visit pick 0 (hostless t) now (queue_head t qs m) ≡ (0, queue_head t qs m)
  unfolding visit taken put_back can_execute update_for_task remove_at
  visit-stuck =
      rw (busy (taken 0 (hostless t) now (queue_head t qs m)), visit)
        (rw (remove_task-put (hostless t) m.running_tasks idle))

  process_step-stuck : process_step pick 0 now (queue_head t qs m) ≡ some (0, queue_head t qs m)
  unfolding process_step get_elem?
  process_step-stuck = ground (arith, visit-stuck)

  -- Where the first task of the queue names no host and does not run, fewer tasks run than the limit
  -- allows, and the worker that is picked for the task has a full channel, processQueue's loop does
  -- not end, however many rounds it is given.
  pub process_loop-stuck : (fuel : ℕ) → process_loop pick fuel 0 now (queue_head t qs m) ≡ none
  process_loop-stuck zero = unfold process_loop in refl
  process_loop-stuck (suc fuel) =
      process_loop-next pick fuel 0 now (queue_head t qs m) 0 (queue_head t qs m) process_step-stuck
      ∙ process_loop-stuck fuel
