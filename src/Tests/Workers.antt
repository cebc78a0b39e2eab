-- ===== src/Tests/Workers.antt =====
-- Workers of the queue manager.
use devops_manager.Prelude.{◌≡◌, refl, true, false, [], ◌∷◌, arith}
use devops_manager.TaskQueue.Types.{Manager}
use devops_manager.TaskQueue.Select.{LoadBalanceStrategy, select_worker}
use devops_manager.TaskQueue.Select.Resources.{select_worker-resource_based}
use devops_manager.TaskQueue.Shutdown.{
  Scene, Reach, Worker, here, after, sends, takes, cancels, fresh, Reach-panics,
}
use devops_manager.Tests.Samples.{manager, queued_task}

-- The first of three workers has two tasks, the others have one each.
abbrev three_workers : Manager
three_workers = record (manager false) {
  workers =
      (queued_task 7 1 1 ∷ queued_task 8 1 1 ∷ [])
      ∷ (queued_task 5 1 1 ∷ [])
      ∷ (queued_task 6 1 1 ∷ [])
      ∷ [];
}

select_worker-resource_based_example :
    select_worker LoadBalanceStrategy.resource_based 4 three_workers (queued_task 2 4 3)
    ≡ select_worker LoadBalanceStrategy.least_connections 4 three_workers (queued_task 2 4 3)
select_worker-resource_based_example =
    select_worker-resource_based 4 three_workers (queued_task 2 4 3) (omega arith)
      (omega arith, (omega arith, (omega arith, tt))) ((omega arith, omega arith), tt)

abbrev working : Scene
working = record {
  canceled = true;
  closed = false;
  channel = [];
  worker = Worker.executes (queued_task 2 4 3);
}

reach-working : Reach fresh working
reach-working =
    after (sends (queued_task 2 4 3) refl (omega arith))
      (after (takes (queued_task 2 4 3) [] refl refl) (after (cancels refl) here))

abbrev shut : Scene
shut = record {
  canceled = true;
  closed = true;
  channel = queued_task 2 4 3 ∷ [];
  worker = Worker.waits;
}

Reach-panics_example : (t : Scene) × Reach shut t × (t.worker ≡ Worker.panicked)
Reach-panics_example = Reach-panics shut refl refl
