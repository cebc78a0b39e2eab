-- ===== src/TaskQueue/Manager/Queueing.antt =====
-- Queueing and cancelling: what each call returns, and that no task is queued twice.
use devops_manager.Prelude.{
  ℕ, ◌+◌, ◌≤◌, ◌<◌, ◌≡◌, Bool, false, Time, List, [], ◌∷◌, ltb, leb, length, arith, refl,
  Bool-cases, Option-cases, inl, inr, ◌==◌, count_where, first,
}
use devops_manager.TaskQueue.Types.{Manager, HostLoad, QueuedTask, free}
use devops_manager.TaskQueue.Insert.{insert_task_by_priority}
use devops_manager.TaskQueue.Insert.Order.{
  IsSorted, InOrder, insert_task_by_priority-IsSorted, length-insert, count_where-insert,
}
use devops_manager.TaskQueue.Loads.{update_for_task}
use devops_manager.TaskQueue.Manager.{
  enqueue_task, enqueue_body, cancel_task, cancel_body, queued, reinsert, finish_body, finish_task,
}
use devops_manager.TaskQueue.Guard.{
  Outcome, returns, fails, blocks, locked_rule, has_task, remove_task, locked,
}

abbrev pub count_task : ℕ → List QueuedTask → ℕ
count_task id qs = count_where (λ q. q.task_id == id) qs

pub has_task-count : (id : ℕ) (qs : List QueuedTask) → has_task id qs ≡ ltb 0 (count_task id qs)
unfolding has_task
has_task-count id [] = refl
has_task-count id (q ∷ qs) = ground (arith, has_task-count id qs)

count_task-remove :
    (id j : ℕ) (qs : List QueuedTask) → count_task j (remove_task id qs) ≤ count_task j qs
unfolding remove_task
count_task-remove id j [] = omega arith
count_task-remove id j (q ∷ qs) = ground (arith, count_task-remove id j qs)

-- The queue is sorted and within its capacity, and no task is there twice, or there and running.
pub record IsValid (m : Manager) : Type 0 where
  pub sorted : IsSorted m.task_queue
  pub bounded : length m.task_queue ≤ m.queue_capacity
  pub distinct : (id : ℕ) → count_task id m.task_queue + count_task id m.running_tasks ≤ 1

-- The manager that an outcome leaves, and nothing where the call blocks.
abbrev pub Leaves {ℓ} : {A : Type ℓ} → (Manager → Type 0) → Outcome A → Type 0
Leaves P (returns a m) = P m
Leaves P (fails e m) = P m
Leaves P blocks = Unit

same_IsValid : (m : Manager) → IsValid m → IsValid (record m { lock = free })
same_IsValid m v = record { sorted = v.sorted; bounded = v.bounded; distinct = v.distinct }

inserted-IsValid :
    (t : QueuedTask) (m : Manager)
    → IsValid m
    → length m.task_queue < m.queue_capacity
    → has_task t.task_id m.running_tasks ≡ false
    → has_task t.task_id m.task_queue ≡ false
    → IsValid (record m { lock = free; task_queue = insert_task_by_priority t m.task_queue })
inserted-IsValid t m v room not_running not_queued = record {
  sorted = insert_task_by_priority-IsSorted t m.task_queue v.sorted;
  bounded = omega (arith, length-insert t m.task_queue);
  distinct = λ id. ground (
    arith,
    count_where-insert (λ q. q.task_id == id) t m.task_queue,
    has_task-count t.task_id m.task_queue,
    has_task-count t.task_id m.running_tasks,
    v.distinct id,
  );
}

module _ (id priority : ℕ) (host_ids : List ℕ) (now : Time) (m : Manager) where
  -- EnqueueTask keeps the queue valid, on every branch.
  pub enqueue_task-IsValid : IsValid m → Leaves IsValid (enqueue_task id priority host_ids now m)
  unfolding enqueue_task
  enqueue_task-IsValid v =
      locked_rule (Leaves IsValid) (enqueue_body id priority host_ids now) m tt
        (elim (Bool-cases (leb m.queue_capacity (length m.task_queue))) [
          | inl full ↦ rw (full, enqueue_body) (same_IsValid m v)
          | inr room ↦
              rw (room, enqueue_body)
                (elim (Bool-cases (has_task id m.running_tasks)) [
                  | inl running ↦ rw running (same_IsValid m v)
                  | inr not_running ↦ rw not_running (elim (Bool-cases (has_task id m.task_queue)) [
                    | inl waiting ↦ rw waiting (same_IsValid m v)
                    | inr not_queued ↦ rw not_queued (
                        inserted-IsValid (queued id priority host_ids now) m v (ground arith)
                          not_running not_queued)
                  ])
                ])
        ])

InOrder-trans : (a b c : QueuedTask) → InOrder a b → InOrder b c → InOrder a c
InOrder-trans a b c h k = ground arith

Heads-tail : (q r : QueuedTask) (rs : List QueuedTask) → IsSorted (q ∷ r ∷ rs) → IsSorted (q ∷ rs)
Heads-tail q r [] s = (tt, tt)
Heads-tail q r (x ∷ rs) s = (InOrder-trans q r x s.0 s.1.0, s.1.1)

remove_task-IsSorted : (id : ℕ) (qs : List QueuedTask) → IsSorted qs → IsSorted (remove_task id qs)
unfolding remove_task
remove_task-IsSorted id [] s = tt
remove_task-IsSorted id (q ∷ []) s = ground arith
remove_task-IsSorted id (q ∷ r ∷ rs) s = elim (Bool-cases (q.task_id == id)) [
  | inl e ↦ rw e s.1
  | inr e ↦ rw e (elim (Bool-cases (r.task_id == id)) [
    | inl f ↦ rw f (Heads-tail q r rs s)
    | inr f ↦ let rest = remove_task-IsSorted id (r ∷ rs) s.1 in rw f (s.0, (rw f at rest))
  ])
]

length-remove_task : (id : ℕ) (qs : List QueuedTask) → length (remove_task id qs) ≤ length qs
unfolding remove_task
length-remove_task id [] = omega arith
length-remove_task id (q ∷ qs) = ground (arith, length-remove_task id qs)

unqueued-IsValid :
    (id : ℕ) (m : Manager)
    → IsValid m
    → IsValid (record m { lock = free; task_queue = remove_task id m.task_queue })
unqueued-IsValid id m v = record {
  sorted = remove_task-IsSorted id m.task_queue v.sorted;
  bounded = omega (arith, length-remove_task id m.task_queue);
  distinct = λ j. omega (arith, count_task-remove id j m.task_queue, v.distinct j);
}

stopped-IsValid :
    (id : ℕ) (loads : List HostLoad) (m : Manager)
    → IsValid m
    → IsValid (record m {
      lock = free;
      running_tasks = remove_task id m.running_tasks;
      host_loads = loads;
    })
stopped-IsValid id loads m v = record {
  sorted = v.sorted;
  bounded = v.bounded;
  distinct = λ j. omega (arith, count_task-remove id j m.running_tasks, v.distinct j);
}

-- CancelTask keeps the queue valid, on every branch.
pub cancel_task-IsValid :
    (id : ℕ) (now : Time) (m : Manager) → IsValid m → Leaves IsValid (cancel_task id now m)
unfolding cancel_task
cancel_task-IsValid id now m v =
    locked_rule (Leaves IsValid) (cancel_body id now) m tt
      (elim (Bool-cases (has_task id m.task_queue)) [
        | inl waiting ↦ rw (waiting, cancel_body) (unqueued-IsValid id m v)
        | inr not_queued ↦
            rw (not_queued, cancel_body)
              (elim (Option-cases (first (λ t. t.task_id == id) m.running_tasks)) [
                | inl none_runs ↦ rw none_runs (same_IsValid m v)
                | inr (t, runs) ↦ rw runs (
                    stopped-IsValid id
                      (update_for_task m.max_tasks_per_host now false t.host_ids m.host_loads) m v)
              ])
      ])

-- The tail of executeTask keeps the queue valid, whether the task was started or not.
pub finish_task-IsValid :
    (started : Bool) (t : QueuedTask) (now : Time) (m : Manager)
    → IsValid m
    → Leaves IsValid (finish_task started t now m)
unfolding finish_task
finish_task-IsValid started t now m v =
    locked_rule (Leaves IsValid) (finish_body started t now) m tt (
      stopped-IsValid t.task_id
        (update_for_task m.max_tasks_per_host now false t.host_ids m.host_loads) m v)

-- A task that waits for its next attempt can be queued once more, since it is neither queued nor
-- running. When the attempt comes, the queue holds it twice.
pub reinsert-duplicates :
    (t : QueuedTask) (priority : ℕ) (host_ids : List ℕ) (now : Time) (m n : Manager)
    → enqueue_task t.task_id priority host_ids now m ≡ returns tt n
    → Leaves (λ k. 2 ≤ count_task t.task_id k.task_queue) (reinsert t n)
unfolding reinsert enqueue_task enqueue_body locked
reinsert-duplicates t priority host_ids now m n e = ground (
  arith,
  count_where-insert (λ q. q.task_id == t.task_id) t n.task_queue,
  count_where-insert (λ q. q.task_id == t.task_id) (queued t.task_id priority host_ids now)
      m.task_queue,
)
