-- ===== src/TaskQueue/Manager/Termination.antt =====
-- The loop of processQueue ends where the worker that is picked can take the task.
use devops_manager.Prelude.{
  ℕ, zero, suc, ◌+◌, ◌≤◌, ◌<◌, ◌≡◌, ◌≢◌, refl, Option, none, some, Time, List, [], ◌∷◌, length,
  arith, ◌∙◌, Bool-cases, Option-cases, inl, inr, Bool, count_where, if◌then◌else◌,
}
use devops_manager.TaskQueue.Types.{Manager, QueuedTask}
use devops_manager.TaskQueue.Loads.{can_execute}
use devops_manager.TaskQueue.Manager.{process_loop, process_step, visit, taken, put_back}
use devops_manager.TaskQueue.Channels.{get_elem?, remove_at, send}
use devops_manager.TaskQueue.Manager.Bound.{
  process_step-le_limit, process_loop-end, process_loop-next,
}
use devops_manager.TaskQueue.Manager.Workers.{
  room, waiting, waiting_where, send-some, waiting_where-send,
}

length-remove_at :
    (i : ℕ) (t : QueuedTask) (qs : List QueuedTask)
    → get_elem? qs i ≡ some t
    → suc (length (remove_at i qs)) ≡ length qs
unfolding get_elem? remove_at
length-remove_at i t [] e = ground arith
length-remove_at zero t (q ∷ qs) e = refl
length-remove_at (suc i) t (q ∷ qs) e = ground (arith, length-remove_at i t qs)

count_where-remove_at :
    (p : QueuedTask → Bool) (i : ℕ) (t : QueuedTask) (qs : List QueuedTask)
    → get_elem? qs i ≡ some t
    → count_where p (remove_at i qs) + (if p t then 1 else 0) ≡ count_where p qs
unfolding get_elem? remove_at
count_where-remove_at p i t [] e = ground arith
count_where-remove_at p zero t (q ∷ qs) e = ground arith
count_where-remove_at p (suc i) t (q ∷ qs) e = ground (arith, count_where-remove_at p i t qs)

get_elem?-past : (i : ℕ) (qs : List QueuedTask) → length qs ≤ i → get_elem? qs i ≡ none
unfolding get_elem?
get_elem?-past i [] h = refl
get_elem?-past zero (q ∷ qs) h = ground arith
get_elem?-past (suc i) (q ∷ qs) h = ground (arith, get_elem?-past i qs)

-- The tasks in the queue and in the channels that pass a test.
abbrev pub tasks_where : (QueuedTask → Bool) → Manager → ℕ
tasks_where p m = count_where p m.task_queue + waiting_where p m.workers

-- What the loop is to leave of a manager: for every test, as many tasks that pass it, so that each
-- task is in the queue or in a channel, as often as before.
pub record IsResult (before m : Manager) : Type 0 where
  pub limited : length m.running_tasks ≤ m.max_concurrent_tasks
  pub kept_limit : m.max_concurrent_tasks ≡ before.max_concurrent_tasks
  pub conserved :
      length m.task_queue + waiting m.workers ≡ length before.task_queue + waiting before.workers
  pub same_tasks : (p : QueuedTask → Bool) → tasks_where p m ≡ tasks_where p before

abbrev pub Returns : (Manager → Type 0) → Option Manager → Type 0
Returns P none = ⊥
Returns P (some m) = P m

Returns-map :
    (P Q : Manager → Type 0)
    → ((m : Manager) → P m → Q m)
    → (o : Option Manager) → Returns P o
    → Returns Q o
Returns-map P Q f none h = h
Returns-map P Q f (some m) h = f m h

IsResult-trans :
    (m n : Manager)
    → n.max_concurrent_tasks ≡ m.max_concurrent_tasks
    → length n.task_queue + waiting n.workers ≡ length m.task_queue + waiting m.workers
    → ((p : QueuedTask → Bool) → tasks_where p n ≡ tasks_where p m)
    → (k : Manager) → IsResult n k
    → IsResult m k
IsResult-trans m n same_limit same_number same k r = record {
  limited = r.limited;
  kept_limit = r.kept_limit ∙ same_limit;
  conserved = r.conserved ∙ same_number;
  same_tasks = λ p. r.same_tasks p ∙ same p;
}

-- A round moves a task from the queue to a channel, or leaves all of them where they are.
module _ (pick : Manager → QueuedTask → ℕ) (p : QueuedTask → Bool) where
  tasks_where-visit :
      (i : ℕ) (t : QueuedTask) (now : Time) (m : Manager)
      → get_elem? m.task_queue i ≡ some t
      → tasks_where p (visit pick i t now m).1 ≡ tasks_where p m
  unfolding taken visit put_back
  tasks_where-visit i t now m found =
      let checked = can_execute m.max_tasks_per_host now t.host_ids m.host_loads in
      let m' : Manager = record m { host_loads = checked.1 } in
      let n = taken i t now m' in
      elim (Bool-cases checked.0) [
        | inr refused ↦ rw (refused, visit)
        | inl free_hosts ↦ elim (Option-cases (send (pick n t) t m.workers)) [
          | inl full ↦
              rw (free_hosts, visit)
                (rw full (ground (arith, count_where-remove_at p i t m.task_queue found)))
          | inr (ws, sent) ↦
              rw (free_hosts, visit)
                (rw sent (
                  omega (
                    arith,
                    count_where-remove_at p i t m.task_queue found,
                    waiting_where-send p (pick n t) t m.workers ws sent,
                  )))
        ]
      ]

  tasks_where-step :
      (i : ℕ) (now : Time) (m : Manager) (j : ℕ) (n : Manager)
      → process_step pick i now m ≡ some (j, n)
      → tasks_where p n ≡ tasks_where p m
  unfolding process_step
  tasks_where-step i now m j n e = elim (Option-cases (get_elem? m.task_queue i)) [
    | inl past ↦ ground arith
    | inr (t, found) ↦ ground (arith, tasks_where-visit i t now m found)
  ]

module _ (pick : Manager → QueuedTask → ℕ)
    (finds_room : (m : Manager) (t : QueuedTask)
      → 0 < room m.workers
      → send (pick m t) t m.workers ≢ none) where
  visit-progress :
      (i : ℕ) (t : QueuedTask) (now : Time) (m : Manager)
      → get_elem? m.task_queue i ≡ some t
      → length m.task_queue ≤ room m.workers
      → let r = visit pick i t now m in
        (length r.1.task_queue + i < length m.task_queue + r.0)
        × (length r.1.task_queue ≤ room r.1.workers)
        × (length r.1.task_queue + waiting r.1.workers ≡ length m.task_queue + waiting m.workers)
  unfolding taken visit
  visit-progress i t now m found h =
      let checked = can_execute m.max_tasks_per_host now t.host_ids m.host_loads in
      let m' : Manager = record m { host_loads = checked.1 } in
      let n = taken i t now m' in
      elim (Bool-cases checked.0) [
        | inr refused ↦ rw (refused, visit) (omega arith, h, refl)
        | inl free_hosts ↦ elim (Option-cases (send (pick n t) t m.workers)) [
          | inl full ↦
              absurd
                (finds_room n t (omega (arith, length-remove_at i t m.task_queue found, h)) full)
          | inr (ws, sent) ↦
              rw (free_hosts, visit)
                (rw sent (
                  omega (arith, length-remove_at i t m.task_queue found),
                  omega (
                    arith,
                    length-remove_at i t m.task_queue found,
                    (send-some (pick n t) t m.workers ws sent).0,
                    h,
                  ),
                  omega (
                    arith,
                    length-remove_at i t m.task_queue found,
                    (send-some (pick n t) t m.workers ws sent).1,
                  ),
                ))
        ]
      ]

  process_step-progress :
      (i : ℕ) (now : Time) (m : Manager) (j : ℕ) (n : Manager)
      → process_step pick i now m ≡ some (j, n)
      → length m.task_queue ≤ room m.workers
      → (length n.task_queue + i < length m.task_queue + j)
        × (length n.task_queue ≤ room n.workers)
        × (length n.task_queue + waiting n.workers ≡ length m.task_queue + waiting m.workers)
  unfolding process_step
  process_step-progress i now m j n e h = elim (Option-cases (get_elem? m.task_queue i)) [
    | inl past ↦ ground arith
    | inr (t, found) ↦ ground (arith, visit-progress i t now m found h)
  ]

  process_step-past :
      (i : ℕ) (now : Time) (m : Manager)
      → length m.task_queue ≤ i
      → process_step pick i now m ≡ none
  unfolding process_step
  process_step-past i now m h = ground (arith, get_elem?-past i m.task_queue)

  process_loop-IsResult :
      (fuel i : ℕ) (now : Time) (m : Manager)
      → length m.task_queue ≤ fuel + i
      → length m.task_queue ≤ room m.workers
      → length m.running_tasks ≤ m.max_concurrent_tasks
      → Returns (IsResult m) (process_loop pick (suc fuel) i now m)
  process_loop-IsResult zero i now m enough fits limited =
      rw (process_loop-end pick 0 i now m (process_step-past i now m (omega (arith, enough))))
        (record { limited = limited; kept_limit = refl; conserved = refl; same_tasks = λ p. refl })
  process_loop-IsResult (suc fuel) i now m enough fits limited =
      elim (Option-cases (process_step pick i now m)) [
        | inl ends ↦ rw (process_loop-end pick (suc fuel) i now m ends) (record {
          limited = limited;
          kept_limit = refl;
          conserved = refl;
          same_tasks = λ p. refl;
        })
        | inr ((j, n), goes_on) ↦
            let step = process_step-progress i now m j n goes_on fits in
            let bound = process_step-le_limit pick i now m j n limited goes_on in
            rw (process_loop-next pick (suc fuel) i now m j n goes_on) (
              Returns-map (IsResult n) (IsResult m)
                (IsResult-trans m n bound.1 step.2
                  (λ p. tasks_where-step pick p i now m j n goes_on))
                (process_loop pick (suc fuel) j now n)
                (process_loop-IsResult fuel j now n (omega (arith, step.0, enough)) step.1 bound.0))
      ]

  -- Where every pick finds room in a channel if there is some, the channels can take the whole
  -- queue, and no more tasks run than the limit allows: the loop of processQueue ends, after at most
  -- one round more than tasks wait. No more tasks run then than the limit allows, the limit is the
  -- same, and each task is in the queue or in a channel as often as before, so that one that left the
  -- queue is in a channel.
  pub process_loop-Returns :
      (now : Time) (m : Manager)
      → length m.task_queue ≤ room m.workers
      → length m.running_tasks ≤ m.max_concurrent_tasks
      → Returns (IsResult m) (process_loop pick (suc (length m.task_queue)) 0 now m)
  process_loop-Returns now m fits limited =
      process_loop-IsResult (length m.task_queue) 0 now m (omega arith) fits limited
