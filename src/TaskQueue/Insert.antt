-- ===== src/TaskQueue/Insert.antt =====
-- insertTaskByPriority: the place that the loop looks for, and the insertion.
pub mod Order
use devops_manager.Prelude.{ℕ, zero, suc, Bool, List, [], ◌∷◌, ltb, ◌==◌, ◌&&◌, ◌||◌, if◌then◌else◌}
use devops_manager.TaskQueue.Types.{QueuedTask}

-- The test of the loop: a higher priority, or the same one and an earlier creation.
unfoldable pub goes_before : QueuedTask → QueuedTask → Bool
goes_before t q =
    ltb q.priority t.priority || (t.priority == q.priority && ltb t.created_at q.created_at)

-- `insertIndex`: the first place whose task the new one goes before, else the length.
unfoldable pub insert_index : QueuedTask → List QueuedTask → ℕ
unfolding goes_before
insert_index t [] = 0
insert_index t (q ∷ qs) = if goes_before t q then 0 else suc (insert_index t qs)

-- `append`, `copy` and the assignment: what stood at an index and behind it moves up by one.
unfoldable pub insert_at : ℕ → QueuedTask → List QueuedTask → List QueuedTask
insert_at zero t qs = t ∷ qs
insert_at (suc i) t [] = t ∷ []
insert_at (suc i) t (q ∷ qs) = q ∷ insert_at i t qs

unfoldable pub insert_task_by_priority : QueuedTask → List QueuedTask → List QueuedTask
unfolding insert_index insert_at
insert_task_by_priority t qs = insert_at (insert_index t qs) t qs
