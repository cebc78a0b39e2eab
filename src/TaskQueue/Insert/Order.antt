-- ===== src/TaskQueue/Insert/Order.antt =====
-- The queue is kept in order of priority, and of creation where priorities are equal.
use mathlib.Core.List.{Perm}
use mathlib.Core.List.Perm
use devops_manager.Prelude.{
  ◌≤◌, ◌<◌, ◌≡◌, ◌⊎◌, Bool, false, List, [], ◌∷◌, if◌then◌else◌, Bool-cases, inl, inr, count_where,
  arith, length, suc,
}
use devops_manager.TaskQueue.Types.{QueuedTask}
use devops_manager.TaskQueue.Insert.{goes_before, insert_task_by_priority}

-- `q` may stand before `t`.
abbrev pub InOrder : QueuedTask → QueuedTask → Type 0
InOrder q t =
    (t.priority < q.priority) ⊎ ((t.priority ≡ q.priority) × (q.created_at ≤ t.created_at))

abbrev Heads : QueuedTask → List QueuedTask → Type 0
Heads q [] = Unit
Heads q (r ∷ rs) = InOrder q r

-- Each task may stand before the next.
abbrev pub IsSorted : List QueuedTask → Type 0
IsSorted [] = Unit
IsSorted (q ∷ qs) = Heads q qs × IsSorted qs

insert-cons :
    (t q : QueuedTask) (qs : List QueuedTask)
    → insert_task_by_priority t (q ∷ qs)
      ≡ (if goes_before t q then t ∷ q ∷ qs else q ∷ insert_task_by_priority t qs)
unfolding insert_task_by_priority
insert-cons t q qs = ground arith

Heads-insert :
    (q t : QueuedTask) (qs : List QueuedTask)
    → goes_before t q ≡ false
    → Heads q qs
    → Heads q (insert_task_by_priority t qs)
unfolding insert_task_by_priority goes_before
Heads-insert q t [] h s = ground arith
Heads-insert q t (r ∷ rs) h s = ground arith

-- Insertion into a queue that is ordered by priority, and by creation where priorities are equal,
-- gives one that is.
pub insert_task_by_priority-IsSorted :
    (t : QueuedTask) (qs : List QueuedTask) → IsSorted qs → IsSorted (insert_task_by_priority t qs)
insert_task_by_priority-IsSorted t [] s = unfold insert_task_by_priority in (tt, tt)
insert_task_by_priority-IsSorted t (q ∷ qs) s = elim (Bool-cases (goes_before t q)) [
  | inl e ↦ rw (insert-cons, e) (unfold goes_before in (ground arith, s))
  | inr e ↦
      rw (insert-cons, e) (Heads-insert q t qs e s.0, insert_task_by_priority-IsSorted t qs s.1)
]

-- The queue after an insertion is a permutation of the new task and the queue before.
pub insert_task_by_priority-perm :
    (t : QueuedTask) (qs : List QueuedTask) → Perm (insert_task_by_priority t qs) (t ∷ qs)
insert_task_by_priority-perm t [] = unfold insert_task_by_priority in Perm.refl (t ∷ [])
insert_task_by_priority-perm t (q ∷ qs) = elim (Bool-cases (goes_before t q)) [
  | inl e ↦ rw (insert-cons, e) (Perm.refl (t ∷ q ∷ qs))
  | inr e ↦
      rw (insert-cons, e)
        (Perm.trans (Perm.cons q (insert_task_by_priority-perm t qs)) (Perm.swap t q qs))
]

pub length-insert :
    (t : QueuedTask) (qs : List QueuedTask)
    → length (insert_task_by_priority t qs) ≡ suc (length qs)
length-insert t [] = unfold insert_task_by_priority in omega arith
length-insert t (q ∷ qs) = rw insert-cons (ground (arith, length-insert t qs))

pub count_where-insert :
    (p : QueuedTask → Bool) (t : QueuedTask) (qs : List QueuedTask)
    → count_where p (insert_task_by_priority t qs) ≡ count_where p (t ∷ qs)
count_where-insert p t [] = unfold insert_task_by_priority in omega arith
count_where-insert p t (q ∷ qs) = rw insert-cons (ground (arith, count_where-insert p t qs))
