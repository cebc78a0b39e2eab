-- ===== src/TaskQueue/Manager/Deadlock.antt =====
-- The mutex is asked for twice: processQueue and adjustConcurrency hold it for writing when they
-- call getSystemLoad, which asks for it for reading.
use devops_manager.Prelude.{ℕ, ◌<◌, ◌≡◌, true, Time, length, arith}
use devops_manager.TaskQueue.Types.{Manager, QueuedTask}
use devops_manager.TaskQueue.Manager.{process_queue, adjust_concurrency}
use devops_manager.TaskQueue.Guard.{blocks}

-- Where tasks may be started and adaptive throttling is on, processQueue blocks for ever: no task
-- is taken off the queue, and the mutex is never given back.
pub process_queue-blocks :
    (pick : Manager → QueuedTask → ℕ) (fuel : ℕ) (now : Time) (m : Manager)
    → m.adaptive_throttling ≡ true
    → length m.running_tasks < m.max_concurrent_tasks
    → process_queue pick fuel now m ≡ blocks
unfolding process_queue
process_queue-blocks pick fuel now m h r = ground arith

-- adjustConcurrency blocks in every state, so the limit never changes.
pub adjust_concurrency-blocks : (m : Manager) → adjust_concurrency m ≡ blocks
unfolding adjust_concurrency
adjust_concurrency-blocks m = ground arith
