-- ===== src/TaskQueue/Select.antt =====
-- selectWorker and its strategies. Usage is in thousandths of a percent; a score is the quotient of two
-- numbers, where the source computes with floats.
pub mod Resources
use devops_manager.Prelude.{
  ℕ, zero, suc, ◌+◌, ◌*◌, ◌%◌, Bool, Option, none, some, List, [], ◌∷◌, ltb, if◌then◌else◌, length,
}
use devops_manager.TaskQueue.Types.{Manager, QueuedTask, HostLoad}
use devops_manager.TaskQueue.Loads.{find_load}
use devops_manager.TaskQueue.Channels.{least_busy_from, select_least_busy_worker}

pub data LoadBalanceStrategy : Type 0 where
  round_robin least_connections weighted_round_robin resource_based : LoadBalanceStrategy

-- The usage of the hosts that have an entry, and their number.
pub record HostUsage : Type 0 where
  pub total_load : ℕ
  pub host_count : ℕ

unfoldable pub host_usage : List HostLoad → List ℕ → HostUsage
host_usage loads [] = record { total_load = 0; host_count = 0 }
host_usage loads (id ∷ ids) = elim (find_load id loads) [
  | none ↦ host_usage loads ids
  | some l ↦
      let u = host_usage loads ids in
      record {
        total_load = l.cpu_usage + l.memory_usage + u.total_load;
        host_count = u.host_count + 1;
      }
]

pub record Score : Type 0 where
  pub numerator : ℕ
  pub denominator : ℕ

-- Ten for each task that waits, and the hosts' average where there is one.
unfoldable pub score : HostUsage → List QueuedTask → Score
score u worker = elim u.host_count [
  | zero ↦ record { numerator = length worker * 10000; denominator = 1 }
  | suc n ↦ record { numerator = length worker * 10000 * suc n + u.total_load; denominator = suc n }
]

unfoldable pub is_lower : Score → Score → Bool
is_lower a b = ltb (a.numerator * b.denominator) (b.numerator * a.denominator)

-- The loop over the workers, with the best score so far and its index.
unfoldable pub resource_based_from : HostUsage → (i chosen : ℕ) → Score → List (List QueuedTask) → ℕ
unfolding score is_lower
resource_based_from u i chosen best [] = chosen
resource_based_from u i chosen best (w ∷ ws) =
    resource_based_from u (i + 1) (if is_lower (score u w) best then i else chosen)
      (if is_lower (score u w) best then score u w else best) ws

-- The score of a million that the loop starts with.
abbrev pub million : Score
million = record { numerator = 1000000000; denominator = 1 }

unfoldable pub select_resource_based_worker : Manager → QueuedTask → ℕ
unfolding host_usage resource_based_from
select_resource_based_worker m t =
    resource_based_from (host_usage m.host_loads t.host_ids) 0 0 million m.workers

-- With no worker the source panics, but for the strategy by resources; `none` stands for that.
unfoldable pub by_clock : ℕ → ℕ → Option ℕ
by_clock clock zero = none
by_clock clock (suc n) = some (clock % suc n)

unfoldable pub select_worker : LoadBalanceStrategy → (clock : ℕ) → Manager → QueuedTask → Option ℕ
unfolding select_least_busy_worker select_resource_based_worker by_clock
select_worker LoadBalanceStrategy.round_robin clock m t = by_clock clock (length m.workers)
select_worker LoadBalanceStrategy.least_connections clock m t = select_least_busy_worker m.workers
select_worker LoadBalanceStrategy.resource_based clock m t = some (select_resource_based_worker m t)
select_worker LoadBalanceStrategy.weighted_round_robin clock m t = by_clock clock (length m.workers)
