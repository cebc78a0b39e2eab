-- ===== src/TaskService/Queueing.antt =====
-- UpdateTask, StartTaskWithQueue, and the methods of the task service that pass a call on to the queue
-- manager where there is one.
use devops_manager.Prelude.{
  ℕ, ◌≡◌, refl, ◌∙◌, Option, none, some, Time, List, [], ◌∷◌, ◌&&◌, ◌==◌, ltb, map, count_where,
  if◌then◌else◌, Bool-cases, inl, inr,
}
use devops_manager.Models.Command.{Command}
use devops_manager.Models.Task.{Task}
use devops_manager.Models.Task as Tasks
use devops_manager.Db.{
  Action, Session, Db, Error, Result, ok, err, statement, check, ◌>>=◌, ◌>>◌, is_live_task, read,
  require, return, find_task, commands_of,
}
use devops_manager.Db as Db
use devops_manager.Db.Keeps.{Keeps, statement-Keeps, bind-Keeps, require-Keeps, return-Keeps}
use devops_manager.TaskQueue.Types.{Manager}
use devops_manager.TaskQueue.Guard.{Outcome, QueueError, returns, fails, blocks}
use devops_manager.TaskQueue.Manager.{enqueue_task}
use devops_manager.TaskQueue.Manager as Queue
use devops_manager.TaskQueue.Manager.Queueing.{IsValid, Leaves, enqueue_task-IsValid}
use devops_manager.TaskService.Queries.{load_hosts, get_task}

-- The columns that the map `updates` sets are the argument; the number of rows decides on the error.
unfoldable pub update_task : (updates : Task → Task) → ℕ → Time → Action (Unit {0})
unfolding statement
update_task updates id now = do
  rows ← statement (λ db. (
    count_where (λ t. t.task_id == id && is_live_task t) db.tasks,
    Db.update_task id (λ t. record (updates t) { updated_at = now }) db,
  ))
  check (ltb 0 rows) Error.task_not_found

-- How StartTaskWithQueue ends. A call that blocks on the manager's mutex does not end.
pub data Queued : Type 0 where
  enqueued blocked not_pending : Queued
  no_task : Error → Queued
  refused : QueueError → Queued

abbrev pub queue_outcome : Outcome (Unit {0}) → Session → Manager → Queued × Session × Manager
queue_outcome (returns a m') s m = (Queued.enqueued, s, m')
queue_outcome (fails e m') s m = (Queued.refused e, s, m')
queue_outcome blocks s m = (Queued.blocked, s, m)

abbrev pub enqueue_loaded :
    (id priority : ℕ) → Time → Result Task × Session → Manager → Queued × Session × Manager
enqueue_loaded id priority now (err e, s) m = (Queued.no_task e, s, m)
enqueue_loaded id priority now (ok t, s) m =
    if Tasks.is_pending t.status
    then queue_outcome (enqueue_task id priority (map (λ c. c.host_id) t.commands) now m) s m
    else (Queued.not_pending, s, m)

unfoldable pub start_task_with_queue :
    (id priority : ℕ) → Time → Session → Manager → Queued × Session × Manager
unfolding get_task enqueue_task Tasks.is_pending
start_task_with_queue id priority now s m = enqueue_loaded id priority now (get_task id s) m

-- A call is passed on, or there is no manager: `none`.
unfoldable pub cancel_queued_task : ℕ → Time → Option Manager → Option (Outcome (Unit {0}))
unfolding Queue.cancel_task
cancel_queued_task id now none = none
cancel_queued_task id now (some m) = some (Queue.cancel_task id now m)

unfoldable pub get_task_queue_position : ℕ → Option Manager → Option (Outcome ℕ)
unfolding Queue.get_task_position
get_task_queue_position id none = none
get_task_queue_position id (some m) = some (Queue.get_task_position id m)

load_hosts-Keeps : (cs : List Command) → Keeps (λ db. db) (load_hosts cs)
unfolding load_hosts
load_hosts-Keeps [] = return-Keeps (λ db. db) {A = List Command} []
load_hosts-Keeps (c ∷ cs) =
    bind-Keeps (λ db. db) (read _) _ (statement-Keeps (λ db. db) _ (λ db. refl))
      (λ rows.
        bind-Keeps (λ db. db) (load_hosts cs) _ (load_hosts-Keeps cs)
          (λ rest. return-Keeps (λ db. db) (record c { command_hosts = rows } ∷ rest)))

get_task-Keeps : (id : ℕ) → Keeps (λ db. db) (get_task id)
unfolding get_task
get_task-Keeps id =
    bind-Keeps (λ db. db) (read (find_task id)) _ (statement-Keeps (λ db. db) _ (λ db. refl))
      (λ found.
        bind-Keeps (λ db. db) (require Error.task_not_found found) _
          (require-Keeps (λ db. db) Error.task_not_found found)
          (λ task.
            bind-Keeps (λ db. db) (read (commands_of id)) _
              (statement-Keeps (λ db. db) _ (λ db. refl))
              (λ cs.
                bind-Keeps (λ db. db) (load_hosts cs) _ (load_hosts-Keeps cs)
                  (λ loaded. return-Keeps (λ db. db) (record task { commands = loaded })))))

queue_outcome-IsValid :
    (r : Outcome (Unit {0})) (s : Session) (m : Manager)
    → IsValid m
    → Leaves IsValid r
    → IsValid (queue_outcome r s m).2
queue_outcome-IsValid (returns a m') s m v h = h
queue_outcome-IsValid (fails e m') s m v h = h
queue_outcome-IsValid blocks s m v h = v

queue_outcome-session :
    (r : Outcome (Unit {0})) (s : Session) (m : Manager) → (queue_outcome r s m).1.db ≡ s.db
queue_outcome-session (returns a m') s m = refl
queue_outcome-session (fails e m') s m = refl
queue_outcome-session blocks s m = refl

loaded-IsValid :
    (id priority : ℕ) (now : Time) (r : Result Task × Session) (m : Manager)
    → IsValid m
    → IsValid (enqueue_loaded id priority now r m).2
      × ((enqueue_loaded id priority now r m).1.db ≡ r.1.db)
loaded-IsValid id priority now (err e, s) m v = (v, refl)
loaded-IsValid id priority now (ok t, s) m v = elim (Bool-cases (Tasks.is_pending t.status)) [
  | inl p ↦ rw p (
    queue_outcome-IsValid _ s m v (enqueue_task-IsValid id priority _ now m v),
    queue_outcome-session _ s m,
  )
  | inr p ↦ rw p (v, refl)
]

-- Whatever statements fail: StartTaskWithQueue leaves a valid queue manager valid and changes no table.
pub start_task_with_queue-IsValid :
    (id priority : ℕ) (now : Time) (s : Session) (m : Manager)
    → IsValid m
    → IsValid (start_task_with_queue id priority now s m).2
      × ((start_task_with_queue id priority now s m).1.db ≡ s.db)
unfolding start_task_with_queue
start_task_with_queue-IsValid id priority now s m v =
    let r = loaded-IsValid id priority now (get_task id s) m v in (r.0, r.1 ∙ get_task-Keeps id s)
