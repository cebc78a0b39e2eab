-- ===== src/TaskQueue/Guard.antt =====
-- What a method of the manager comes to, its mutex, and the map of running tasks.
use devops_manager.Prelude.{ℕ, ◌+◌, Bool, true, false, List, [], ◌∷◌, ◌==◌, if◌then◌else◌}
use devops_manager.TaskQueue.Types.{Manager, QueuedTask, Lock, free, reading, writing}

pub data QueueError : Type 0 where
  queue_full already_running already_queued task_not_found : QueueError

pub data Outcome {ℓ} (A : Type ℓ) : Type ℓ where
  returns : A → Manager → Outcome A
  fails : QueueError → Manager → Outcome A
  blocks : Outcome A

module _ {ℓ} {A : Type ℓ} where
  abbrev pub set_lock : Lock → Outcome A → Outcome A
  set_lock k (returns a m) = returns a (record m { lock = k })
  set_lock k (fails e m) = fails e (record m { lock = k })
  set_lock k blocks = blocks

  -- `mu.Lock(); defer mu.Unlock()`
  unfoldable pub locked : (Manager → Outcome A) → Manager → Outcome A
  locked body m = elim m.lock [
    | free ↦ set_lock free (body (record m { lock = writing }))
    | reading n ↦ blocks
    | writing ↦ blocks
  ]

  -- A property that does not look at the lock is kept where the body keeps it.
  pub locked_rule :
      (P : Outcome A → Type 0) (body : Manager → Outcome A) (m : Manager)
      → P blocks
      → P (set_lock free (body (record m { lock = writing })))
      → P (locked body m)
  unfolding locked
  locked_rule P body m b h =
      elim m.lock
        as (λ k. P (elim k [
          | free ↦ set_lock free (body (record m { lock = writing }))
          | reading n ↦ blocks
          | writing ↦ blocks
        ])) [ free ↦ h | reading n ↦ b | writing ↦ b ]

  -- `mu.RLock(); defer mu.RUnlock()`
  unfoldable pub read_locked : (Manager → Outcome A) → Manager → Outcome A
  read_locked body m = elim m.lock [
    | free ↦ set_lock free (body (record m { lock = reading 1 }))
    | reading n ↦ set_lock (reading n) (body (record m { lock = reading (n + 1) }))
    | writing ↦ blocks
  ]

  abbrev pub and_then {κ} : {B : Type κ} → Outcome A → (A → Manager → Outcome B) → Outcome B
  and_then (returns a m) f = f a m
  and_then (fails e m) f = fails e m
  and_then blocks f = blocks

unfoldable pub has_task : ℕ → List QueuedTask → Bool
has_task id [] = false
has_task id (q ∷ qs) = if q.task_id == id then true else has_task id qs

-- `delete(runningTasks, id)`, and the removal from the queue where its loop finds the task.
unfoldable pub remove_task : ℕ → List QueuedTask → List QueuedTask
remove_task id [] = []
remove_task id (q ∷ qs) = if q.task_id == id then qs else q ∷ remove_task id qs

-- `runningTasks[id] = task`
unfoldable pub put_task : QueuedTask → List QueuedTask → List QueuedTask
put_task t [] = t ∷ []
put_task t (q ∷ qs) = if q.task_id == t.task_id then t ∷ qs else q ∷ put_task t qs
