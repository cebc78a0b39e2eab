-- ===== src/Tests/Rounds.antt =====
-- The loop of processQueue, where it ends and where it does not.
use devops_manager.Prelude.{[], ◌∷◌, arith, false}
use devops_manager.TaskQueue.Types.{Manager}
use devops_manager.TaskQueue.Manager.{process_loop}
use devops_manager.TaskQueue.Manager.Workers.{least_busy, select_least_busy_worker-finds}
use devops_manager.TaskQueue.Manager.Termination.{IsResult, Returns, process_loop-Returns}
use devops_manager.Tests.Samples.{queued_task, manager}

process_loop-Returns_example :
    Returns
      (IsResult (manager false))
      (process_loop (λ m t. least_busy m.workers) 3 0 9 (manager false))
process_loop-Returns_example =
    process_loop-Returns (λ m t. least_busy m.workers)
      (λ m t h. select_least_busy_worker-finds t m.workers h) 9 (manager false) (omega arith)
      (omega arith)

-- One worker, and ten tasks in its channel.
abbrev full : Manager
full = record (manager false) {
  workers =
      (queued_task 11 1 1
        ∷ queued_task 12 1 1
        ∷ queued_task 13 1 1
        ∷ queued_task 14 1 1
        ∷ queued_task 15 1 1
        ∷ queued_task 16 1 1
        ∷ queued_task 17 1 1
        ∷ queued_task 18 1 1
        ∷ queued_task 19 1 1
        ∷ queued_task 20 1 1
        ∷ [])
      ∷ [];
}
