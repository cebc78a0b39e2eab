-- ===== src/TaskQueue/Shutdown.antt =====
-- A worker of the queue manager, and Shutdown: steps of its goroutine, of processQueue, which sends to
-- its channel, and of Shutdown, in any order. Where two cases of a `select` are ready, Go takes
-- either of them.
use devops_manager.Prelude.{
  ◌<◌, ◌≡◌, ◌≢◌, refl, sym, subst, Bool, true, false, List, [], ◌∷◌, ◌++◌, length,
}
use devops_manager.TaskQueue.Types.{QueuedTask}

-- `panicked` is a goroutine that dereferenced a nil task: it takes the whole server with it.
pub data Worker : Type 0 where
  waits stopped panicked : Worker
  executes : QueuedTask → Worker

-- A worker with its channel; `canceled` is the state of the context.
pub record Scene : Type 0 where
  pub canceled : Bool
  pub closed : Bool
  pub channel : List QueuedTask
  pub worker : Worker

-- `takes_nil`: a receive from a closed channel that is empty gives nil, which the worker does not test.
pub data Step : Scene → Scene → Type 0 where
  stops :
      {s : Scene}
      → s.canceled ≡ true
      → s.worker ≡ Worker.waits
      → Step s (record s { worker = Worker.stopped })
  takes :
      {s : Scene} (t : QueuedTask) (ts : List QueuedTask)
      → s.worker ≡ Worker.waits
      → s.channel ≡ t ∷ ts
      → Step s (record s { channel = ts; worker = Worker.executes t })
  takes_nil :
      {s : Scene}
      → s.worker ≡ Worker.waits
      → s.closed ≡ true
      → s.channel ≡ []
      → Step s (record s { worker = Worker.panicked })
  ends :
      {s : Scene} (t : QueuedTask)
      → s.worker ≡ Worker.executes t
      → Step s (record s { worker = Worker.waits })
  sends :
      {s : Scene} (t : QueuedTask)
      → s.closed ≡ false
      → length s.channel < 10
      → Step s (record s { channel = s.channel ++ t ∷ [] })
  cancels : {s : Scene} → s.canceled ≡ false → Step s (record s { canceled = true })
  closes : {s : Scene} → s.canceled ≡ true → s.closed ≡ false → Step s (record s { closed = true })

pub data Reach : Scene → Scene → Type 0 where
  here : {s : Scene} → Reach s s
  after : {s t u : Scene} → Step s t → Reach t u → Reach s u

-- The scene that NewTaskQueueManager makes.
abbrev pub fresh : Scene
fresh = record { canceled = false; closed = false; channel = []; worker = Worker.waits }

-- Only a closed channel makes a worker panic.
abbrev Sound : Worker → Bool → Type 0
Sound Worker.panicked closed = closed ≡ true
Sound _ closed = Unit

closed-Sound : (w : Worker) → Sound w true
closed-Sound Worker.waits = tt
closed-Sound Worker.stopped = tt
closed-Sound Worker.panicked = refl
closed-Sound (Worker.executes t) = tt

step-Sound : {s t : Scene} → Step s t → Sound s.worker s.closed → Sound t.worker t.closed
step-Sound (stops c w) h = tt
step-Sound (takes t ts w e) h = tt
step-Sound (takes_nil w c e) h = c
step-Sound (ends t w) h = tt
step-Sound (sends t c room) h = h
step-Sound (cancels c) h = h
step-Sound (closes {s = s} c f) h = closed-Sound s.worker

reach-Sound : {s t : Scene} → Reach s t → Sound s.worker s.closed → Sound t.worker t.closed
reach-Sound here h = h
reach-Sound (after step rest) h = reach-Sound rest (step-Sound step h)

Sound-unclosed :
    (w : Worker) (closed : Bool) → Sound w closed → closed ≡ false → w ≢ Worker.panicked
Sound-unclosed Worker.waits closed h f = λ e. cc
Sound-unclosed Worker.stopped closed h f = λ e. cc
Sound-unclosed Worker.panicked closed h f = λ e. cc
Sound-unclosed (Worker.executes t) closed h f = λ e. cc

-- As long as Shutdown has not closed its channel, a worker does not panic, in whatever order the
-- goroutines go on.
pub Reach-calm : {s : Scene} → Reach fresh s → s.closed ≡ false → s.worker ≢ Worker.panicked
Reach-calm {s} r f = Sound-unclosed s.worker s.closed (reach-Sound r tt) f

abbrev drained : Scene → Scene
drained s = record s { channel = []; worker = Worker.panicked }

drains :
    (ts : List QueuedTask) (s : Scene)
    → s.closed ≡ true
    → Reach (record s { channel = ts; worker = Worker.waits }) (drained s)
drains [] s c = after (takes_nil refl c refl) here
drains (t ∷ ts) s c = after (takes t ts refl refl) (after (ends t refl) (drains ts s c))

-- Once Shutdown has closed its channel, a worker that waits can always come to panic, whatever tasks
-- are left in the channel, though its context is canceled.
pub Reach-panics :
    (s : Scene)
    → s.closed ≡ true
    → s.worker ≡ Worker.waits
    → (t : Scene) × Reach s t × (t.worker ≡ Worker.panicked)
Reach-panics s c w = (
  drained s,
  subst (λ k. Reach (record s { worker = k }) (drained s)) (sym w) (drains s.channel s c),
  refl,
)
