-- ===== src/TaskQueue/Channels.antt =====
-- The channels of the workers, and the positions of the queue.
use devops_manager.Prelude.{
  ℕ, zero, suc, ◌+◌, Option, none, some, List, [], ◌∷◌, ◌++◌, ltb, if◌then◌else◌, length,
}
use devops_manager.TaskQueue.Types.{QueuedTask}

unfoldable pub get_elem? : List QueuedTask → ℕ → Option QueuedTask
get_elem? [] i = none
get_elem? (q ∷ qs) zero = some q
get_elem? (q ∷ qs) (suc i) = get_elem? qs i

-- `append(queue[:i], queue[i+1:]...)`
unfoldable pub remove_at : ℕ → List QueuedTask → List QueuedTask
remove_at i [] = []
remove_at zero (q ∷ qs) = qs
remove_at (suc i) (q ∷ qs) = q ∷ remove_at i qs

-- A send on a worker's channel, which holds ten tasks; `none` where it is full.
unfoldable pub send : ℕ → QueuedTask → List (List QueuedTask) → Option (List (List QueuedTask))
send i t [] = none
send zero t (w ∷ ws) = if ltb (length w) 10 then some ((w ++ t ∷ []) ∷ ws) else none
send (suc i) t (w ∷ ws) = elim (send i t ws) [ none ↦ none | some ws' ↦ some (w ∷ ws') ]

-- selectLeastBusyWorker: the loop over the workers, with the least length so far and its index.
unfoldable pub least_busy_from : (i least chosen : ℕ) → List (List QueuedTask) → ℕ
least_busy_from i least chosen [] = chosen
least_busy_from i least chosen (w ∷ ws) =
    least_busy_from (i + 1) (if ltb (length w) least then length w else least)
      (if ltb (length w) least then i else chosen) ws

-- With no worker the source panics at `workers[0]`.
unfoldable pub select_least_busy_worker : List (List QueuedTask) → Option ℕ
unfolding least_busy_from
select_least_busy_worker [] = none
select_least_busy_worker (w ∷ ws) = some (least_busy_from 0 (length w) 0 (w ∷ ws))
