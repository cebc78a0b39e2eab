-- ===== src/TaskQueue/Select/Resources.antt =====
-- The strategy by resources against the one by the length of the channels.
use native.Mathlib.Nat.{mul-lt-mul_of_pos_right, mul-le-mul_right}
use devops_manager.Prelude.{
  ℕ, zero, suc, ◌+◌, ◌*◌, ◌≤◌, ◌<◌, ◌≡◌, refl, ◌∙◌, ap, true, false, some, List, [], ◌∷◌, ltb, ◌==◌,
  length, All, arith, Bool-cases, Option-cases, inl, inr,
}
use devops_manager.TaskQueue.Types.{Manager, QueuedTask, HostLoad}
use devops_manager.TaskQueue.Loads.{find_load}
use devops_manager.TaskQueue.Channels.{least_busy_from, select_least_busy_worker}
use devops_manager.TaskQueue.Select.{
  HostUsage, host_usage, score, is_lower, million, resource_based_from,
  select_resource_based_worker, LoadBalanceStrategy, select_worker,
}

ltb-mul : (a b k : ℕ) → 0 < k → ltb (a * k) (b * k) ≡ ltb a b
ltb-mul a b k h = elim (Bool-cases (ltb a b)) [
  | inl e ↦ ground (arith, e, mul-lt-mul_of_pos_right {m = a} {n = b} {k = k} (ground arith) h)
  | inr e ↦ ground (arith, e, mul-le-mul_right {m = b} {n = a} k (ground arith))
]

ltb_irrefl : (a : ℕ) → ltb a a ≡ false
ltb_irrefl a = ground arith

ltb-add : (a b c : ℕ) → ltb (a + c) (b + c) ≡ ltb a b
ltb-add a b c = ground arith

-- Where each host adds the same to every worker, the lower score is the shorter channel.
score-lower :
    (u : HostUsage) (v w : List QueuedTask)
    → is_lower (score u v) (score u w) ≡ ltb (length v) (length w)
unfolding is_lower score
score-lower u v w =
    elim u.host_count
      as (λ n.
        is_lower (score (record u { host_count = n }) v) (score (record u { host_count = n }) w)
        ≡ ltb (length v) (length w)) [
          | zero ↦ ground arith
          | suc n ↦
              ltb-mul (length v * 10000 * suc n + u.total_load)
                (length w * 10000 * suc n + u.total_load) (suc n) (omega arith)
              ∙ ltb-add (length v * 10000 * suc n) (length w * 10000 * suc n) u.total_load
              ∙ ltb-mul (length v * 10000) (length w * 10000) (suc n) (omega arith)
              ∙ ltb-mul (length v) (length w) 10000 (omega arith)
        ]

resource_based_from-least :
    (u : HostUsage) (i chosen : ℕ) (v : List QueuedTask) (ws : List (List QueuedTask))
    → resource_based_from u i chosen (score u v) ws ≡ least_busy_from i (length v) chosen ws
unfolding resource_based_from least_busy_from
resource_based_from-least u i chosen v [] = refl
resource_based_from-least u i chosen v (w ∷ ws) = elim (Bool-cases (ltb (length w) (length v))) [
  | inl e ↦ rw (score-lower u w v, e) (resource_based_from-least u (i + 1) i w ws)
  | inr e ↦ rw (score-lower u w v, e) (resource_based_from-least u (i + 1) chosen v ws)
]

-- No host uses more than the whole of its processor and of its memory.
abbrev pub IsUsage : HostLoad → Type 0
IsUsage l = (l.cpu_usage ≤ 100000) × (l.memory_usage ≤ 100000)

find_load-All :
    (id : ℕ) (l : HostLoad) (loads : List HostLoad)
    → All IsUsage loads
    → find_load id loads ≡ some l
    → IsUsage l
find_load-All id l [] h e = cc
find_load-All id l (k ∷ ks) h e = elim (Bool-cases (k.host_id == id)) [
  | inl f ↦ ground (arith, rw f at e, h.0)
  | inr f ↦ find_load-All id l ks h.1 (rw f at e)
]

host_usage-le :
    (loads : List HostLoad) (ids : List ℕ)
    → All IsUsage loads
    → (host_usage loads ids).total_load ≤ 200000 * (host_usage loads ids).host_count
unfolding host_usage
host_usage-le loads [] h = omega arith
host_usage-le loads (id ∷ ids) h = elim (Option-cases (find_load id loads)) [
  | inl e ↦ rw (host_usage, e) (host_usage-le loads ids h)
  | inr (l, e) ↦
      rw (host_usage, e) (omega (arith, host_usage-le loads ids h, find_load-All id l loads h e))
]

score-million :
    (u : HostUsage) (w : List QueuedTask)
    → u.total_load ≤ 200000 * u.host_count
    → length w ≤ 10
    → is_lower (score u w) million ≡ true
unfolding is_lower score
score-million u w h short = below u.host_count h
  where
    below :
        (n : ℕ)
        → u.total_load ≤ 200000 * n
        → is_lower (score (record u { host_count = n }) w) million ≡ true
    below zero k = ground arith
    below (suc n) k =
        ground (arith, mul-le-mul_right {m = length w * 10000} {n = 100000} (suc n) (omega arith))

same_worker :
    (u : HostUsage) (ws : List (List QueuedTask))
    → 0 < length ws
    → All (λ w. length w ≤ 10) ws
    → u.total_load ≤ 200000 * u.host_count
    → some (resource_based_from u 0 0 million ws) ≡ select_least_busy_worker ws
unfolding select_least_busy_worker resource_based_from least_busy_from
same_worker u [] h short usage = absurd (omega arith)
same_worker u (w ∷ ws) h short usage =
    rw (score-million u w usage short.0, ltb_irrefl (length w))
      (ap some (resource_based_from-least u 1 0 w ws))

-- Where no channel holds more than its ten tasks and no usage is above a hundred percent, ResourceBased
-- picks the worker that LeastConnections picks: the usage of the hosts plays no part.
pub select_worker-resource_based :
    (clock : ℕ) (m : Manager) (t : QueuedTask)
    → 0 < length m.workers
    → All (λ w. length w ≤ 10) m.workers
    → All IsUsage m.host_loads
    → select_worker LoadBalanceStrategy.resource_based clock m t
      ≡ select_worker LoadBalanceStrategy.least_connections clock m t
unfolding select_worker select_resource_based_worker
select_worker-resource_based clock m t some_worker short usage =
    same_worker (host_usage m.host_loads t.host_ids) m.workers some_worker short
      (host_usage-le m.host_loads t.host_ids usage)
