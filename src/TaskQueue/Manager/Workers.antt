-- ===== src/TaskQueue/Manager/Workers.antt =====
-- The channels of the workers: what a send needs, and what selectLeastBusyWorker finds.
use devops_manager.Prelude.{
  ℕ, zero, suc, ◌+◌, ◌-◌, ◌≤◌, ◌<◌, ◌≡◌, ◌≢◌, ◌⊎◌, inl, inr, refl, none, some, List, [], ◌∷◌, ltb,
  length, arith, Option-cases, Bool-cases, if◌then◌else◌, length-append, ◌∙◌, sym, Bool,
  count_where, count_where-append,
}
use devops_manager.TaskQueue.Types.{QueuedTask}
use devops_manager.TaskQueue.Channels.{send, least_busy_from, select_least_busy_worker}

-- The tasks that the channels can still take, and those that wait in them.
abbrev pub room : List (List QueuedTask) → ℕ
room [] = 0
room (w ∷ ws) = (10 - length w) + room ws

abbrev pub waiting : List (List QueuedTask) → ℕ
waiting [] = 0
waiting (w ∷ ws) = length w + waiting ws

-- The tasks in the channels that pass a test.
abbrev pub waiting_where : (QueuedTask → Bool) → List (List QueuedTask) → ℕ
waiting_where p [] = 0
waiting_where p (w ∷ ws) = count_where p w + waiting_where p ws

-- How full a channel is; a channel that does not exist takes no task.
abbrev pub fill_at : ℕ → List (List QueuedTask) → ℕ
fill_at i [] = 10
fill_at zero (w ∷ ws) = length w
fill_at (suc i) (w ∷ ws) = fill_at i ws

pub send-some :
    (i : ℕ) (t : QueuedTask) (ws ws' : List (List QueuedTask))
    → send i t ws ≡ some ws'
    → (room ws' + 1 ≡ room ws) × (waiting ws' ≡ waiting ws + 1)
unfolding send
send-some i t [] ws' e = ground arith
send-some zero t (w ∷ ws) ws' e = ground (arith, length-append w (t ∷ []))
send-some (suc i) t (w ∷ ws) ws' e = elim (Option-cases (send i t ws)) [
  | inl full ↦ ground arith
  | inr (vs, sent) ↦ ground (arith, send-some i t ws vs sent)
]

-- A send adds the task that is sent, and no other.
pub waiting_where-send :
    (p : QueuedTask → Bool) (i : ℕ) (t : QueuedTask) (ws ws' : List (List QueuedTask))
    → send i t ws ≡ some ws'
    → waiting_where p ws' ≡ waiting_where p ws + (if p t then 1 else 0)
unfolding send
waiting_where-send p i t [] ws' e = ground arith
waiting_where-send p zero t (w ∷ ws) ws' e = ground (arith, count_where-append p w (t ∷ []))
waiting_where-send p (suc i) t (w ∷ ws) ws' e = elim (Option-cases (send i t ws)) [
  | inl full ↦ ground arith
  | inr (vs, sent) ↦ ground (arith, waiting_where-send p i t ws vs sent)
]

send-full :
    (i : ℕ) (t : QueuedTask) (ws : List (List QueuedTask)) → send i t ws ≡ none → 10 ≤ fill_at i ws
unfolding send
send-full i t [] e = omega arith
send-full zero t (w ∷ ws) e = ground arith
send-full (suc i) t (w ∷ ws) e = ground (arith, send-full i t ws)

-- The least length, over the channels and a bound.
abbrev least_of : ℕ → List (List QueuedTask) → ℕ
least_of least [] = least
least_of least (w ∷ ws) = least_of (if ltb (length w) least then length w else least) ws

least_of-le : (least : ℕ) (ws : List (List QueuedTask)) → least_of least ws ≤ least
least_of-le least [] = omega arith
least_of-le least (w ∷ ws) =
    ground (arith, least_of-le (if ltb (length w) least then length w else least) ws)

least_of-room : (least : ℕ) (ws : List (List QueuedTask)) → 0 < room ws → least_of least ws < 10
least_of-room least [] h = ground arith
least_of-room least (w ∷ ws) h =
    let next = if ltb (length w) least then length w else least in
    ground (arith, least_of-room next ws, least_of-le next ws)

least_busy_from-lem :
    (i least chosen : ℕ) (ws : List (List QueuedTask))
    → ((least_busy_from i least chosen ws ≡ chosen) × (least_of least ws ≡ least))
      ⊎ ((d : ℕ) × (least_busy_from i least chosen ws ≡ i + d) × (fill_at d ws ≡ least_of least ws))
unfolding least_busy_from
least_busy_from-lem i least chosen [] = inl (refl, refl)
least_busy_from-lem i least chosen (w ∷ ws) = elim (Bool-cases (ltb (length w) least)) [
  | inl e ↦
      rw (e, least_busy_from)
        (elim (least_busy_from-lem (i + 1) (length w) i ws) [
          | inl (here, low) ↦ inr (0, here ∙ omega arith, sym low)
          | inr (d, there, low) ↦ inr (suc d, there ∙ omega arith, low)
        ])
  | inr e ↦
      rw (e, least_busy_from)
        (elim (least_busy_from-lem (i + 1) least chosen ws) [
          | inl (here, low) ↦ inl (here, low)
          | inr (d, there, low) ↦ inr (suc d, there ∙ omega arith, low)
        ])
]

-- The worker that selectLeastBusyWorker picks, and 0 where there is none.
abbrev pub least_busy : List (List QueuedTask) → ℕ
least_busy ws = elim (select_least_busy_worker ws) [ none ↦ 0 | some i ↦ i ]

least_busy-fill : (ws : List (List QueuedTask)) → 0 < room ws → fill_at (least_busy ws) ws < 10
unfolding select_least_busy_worker
least_busy-fill [] h = ground arith
least_busy-fill (w ∷ ws) h = elim (least_busy_from-lem 0 (length w) 0 (w ∷ ws)) [
  | inl (here, low) ↦ rw here (omega (arith, low, least_of-room (length w) (w ∷ ws) h))
  | inr (d, there, low) ↦
      let at_d : least_busy_from 0 (length w) 0 (w ∷ ws) ≡ d = there ∙ omega arith in
      rw (at_d, low) (least_of-room (length w) (w ∷ ws) h)
]

-- Where some channel can take a task, the send to the worker that selectLeastBusyWorker picks
-- succeeds.
pub select_least_busy_worker-finds :
    (t : QueuedTask) (ws : List (List QueuedTask)) → 0 < room ws → send (least_busy ws) t ws ≢ none
select_least_busy_worker-finds t ws h =
    λ full. omega (arith, send-full (least_busy ws) t ws full, least_busy-fill ws h)
