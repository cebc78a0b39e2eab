-- ===== src/TaskQueue/Manager/Bound.antt =====
-- The loop of processQueue: how many tasks it starts, and when it goes on for ever.
use devops_manager.Prelude.{
  ℕ, zero, suc, ◌≤◌, ◌≡◌, none, some, Time, List, [], ◌∷◌, length, arith, sym, ◌∙◌, Option-cases,
  inl, inr,
}
use devops_manager.TaskQueue.Types.{Manager, QueuedTask}
use devops_manager.TaskQueue.Loads.{can_execute}
use devops_manager.TaskQueue.Manager.{process_loop, process_step}
use devops_manager.TaskQueue.Channels.{get_elem?}
use devops_manager.TaskQueue.Guard.{put_task, remove_task}

length-put_task : (t : QueuedTask) (qs : List QueuedTask) → length (put_task t qs) ≤ suc (length qs)
unfolding put_task
length-put_task t [] = omega arith
length-put_task t (q ∷ qs) = ground (arith, length-put_task t qs)

length-remove_task : (id : ℕ) (qs : List QueuedTask) → length (remove_task id qs) ≤ length qs
unfolding remove_task
length-remove_task id [] = omega arith
length-remove_task id (q ∷ qs) = ground (arith, length-remove_task id qs)

-- A round of processQueue from a state in which no more tasks run than the limit allows leads to
-- such a state, and keeps the limit.
pub process_step-le_limit :
    (pick : Manager → QueuedTask → ℕ) (i : ℕ) (now : Time) (m : Manager) (j : ℕ) (m' : Manager)
    → length m.running_tasks ≤ m.max_concurrent_tasks
    → process_step pick i now m ≡ some (j, m')
    → (length m'.running_tasks ≤ m'.max_concurrent_tasks)
      × (m'.max_concurrent_tasks ≡ m.max_concurrent_tasks)
unfolding process_step can_execute
process_step-le_limit pick i now m j m' h e = elim (Option-cases (get_elem? m.task_queue i)) [
  | inl none_left ↦ ground arith
  | inr (t, found) ↦ ground (
    arith,
    length-put_task t m.running_tasks,
    length-remove_task t.task_id (put_task t m.running_tasks),
  )
]

pub process_loop-end :
    (pick : Manager → QueuedTask → ℕ) (fuel i : ℕ) (now : Time) (m : Manager)
    → process_step pick i now m ≡ none
    → process_loop pick (suc fuel) i now m ≡ some m
unfolding process_loop
process_loop-end pick fuel i now m e = rw (e, process_loop)

pub process_loop-next :
    (pick : Manager → QueuedTask → ℕ) (fuel i : ℕ) (now : Time) (m : Manager) (j : ℕ) (n : Manager)
    → process_step pick i now m ≡ some (j, n)
    → process_loop pick (suc fuel) i now m ≡ process_loop pick fuel j now n
unfolding process_loop
process_loop-next pick fuel i now m j n e = rw (e, process_loop)

-- processQueue never lets more tasks run than the limit allows, and keeps the limit.
pub process_loop-le_limit :
    (pick : Manager → QueuedTask → ℕ) (fuel i : ℕ) (now : Time) (m m' : Manager)
    → length m.running_tasks ≤ m.max_concurrent_tasks
    → process_loop pick fuel i now m ≡ some m'
    → (length m'.running_tasks ≤ m'.max_concurrent_tasks)
      × (m'.max_concurrent_tasks ≡ m.max_concurrent_tasks)
process_loop-le_limit pick zero i now m m' h e = unfold process_loop in cc
process_loop-le_limit pick (suc fuel) i now m m' h e =
    elim (Option-cases (process_step pick i now m)) [
      | inl ends ↦ ground (arith, process_loop-end pick fuel i now m ends)
      | inr ((j, n), goes_on) ↦
          let step = process_step-le_limit pick i now m j n h goes_on in
          let rest =
            process_loop-le_limit pick fuel j now n m' step.0
              (sym (process_loop-next pick fuel i now m j n goes_on) ∙ e) in
          (rest.0, rest.1 ∙ step.1)
    ]
