-- ===== src/Tests/Queue.antt =====
-- The queue manager on the sample queue.
use devops_manager.Prelude.{refl, ◌≡◌, true, false, [], ◌∷◌, arith}
use devops_manager.TaskQueue.Types.{Manager}
use devops_manager.TaskQueue.Manager.{process_queue}
use devops_manager.TaskQueue.Guard.{blocks}
use devops_manager.TaskQueue.Manager.Queueing.{IsValid}
use devops_manager.TaskQueue.Manager.Deadlock.{process_queue-blocks}
use devops_manager.Tests.Samples.{queued_task, manager}

abbrev sample : Manager
sample = manager false

sample-IsValid : IsValid sample
sample-IsValid = record {
  sorted = ground arith;
  bounded = omega arith;
  distinct = λ id. ground arith;
}

-- Task 4 has failed and waits for its next attempt when it is queued again.
abbrev queued_again : Manager
queued_again = record sample {
  task_queue = queued_task 2 4 3 ∷ queued_task 4 2 9 ∷ queued_task 3 1 2 ∷ [];
}

process_queue-blocks_example : process_queue (λ m t. 0) 50 9 (manager true) ≡ blocks
process_queue-blocks_example =
    process_queue-blocks (λ m t. 0) 50 9 (manager true) refl (omega arith)
