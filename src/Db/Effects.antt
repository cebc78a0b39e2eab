-- ===== src/Db/Effects.antt =====
-- The state, the errors and the monad of a service method, and gorm's Transaction.
use devops_manager.Prelude.{
  ℕ, Bool, true, false, List, [], ◌∷◌, ◌++◌, if◌then◌else◌, Option, none, some,
}
use devops_manager.Models.CommandHost.{CommandHost, CommandHostStatus}
use devops_manager.Models.CommandResult.{CommandResult}
use devops_manager.Models.Command.{Command}
use devops_manager.Models.Task.{Task}

pub record Db : Type 0 where
  pub tasks : List Task
  pub commands : List Command
  pub command_hosts : List CommandHost
  pub command_results : List CommandResult

-- What a goroutine is to hand to the dispatcher: a command to run, or the command "cancel" that
-- carries the identifier of a command to stop.
pub data Message : Type 0 where
  run : Command → Message
  cancel : (host_id command_id : ℕ) → Message

-- `goroutines` holds the message of each goroutine that was started to send it, in the order of their
-- `go` statements. When they run, and in which order, is left open.
pub record Session : Type 0 where
  pub db : Db
  pub faults : List Bool
  pub dispatcher_set : Bool
  pub group_order : List CommandHostStatus
  pub goroutines : List Message

pub data Error : Type 0 where
  db_error task_not_found command_not_found : Error
  task_not_pending task_not_running task_running task_completed : Error

pub data Result {ℓ} (A : Type ℓ) : Type ℓ where
  ok : A → Result A
  err : Error → Result A

abbrev pub Action {ℓ} : Type ℓ → Type ℓ
Action A = Session → Result A × Session

module _ {ℓ} {A : Type ℓ} where
  abbrev pub return : A → Action A
  return a s = (ok a, s)

  abbrev pub throw : Error → Action A
  throw e s = (err e, s)

  -- Go on with a result, or stop at an error.
  abbrev pub and_then {κ} : {B : Type κ} → Result A × Session → (A → Action B) → Result B × Session
  and_then (ok a, s) f = f a s
  and_then (err e, s) f = (err e, s)

  infixl 5 ◌>>=◌
  abbrev pub ◌>>=◌ {κ} : {B : Type κ} → Action A → (A → Action B) → Action B
  ◌>>=◌ m f s = and_then (m s) f

infixl 5 ◌>>◌
abbrev pub ◌>>◌ {ℓ} : {A : Type ℓ} → Action (Unit {0}) → Action A → Action A
m >> k = m >>= λ _. k

module _ {ℓ} {A : Type ℓ} where
  -- One statement that reads and writes: a fault leaves the tables as they are.
  unfoldable pub statement : (Db → A × Db) → Action A
  statement f s = elim s.faults [
    | [] ↦ (ok (f s.db).0, record s { db = (f s.db).1 })
    | b ∷ rest ↦
        (if b
          then (err Error.db_error, record s { faults = rest })
          else (ok (f s.db).0, record s { db = (f s.db).1; faults = rest }))
  ]

  -- An error takes back what the body wrote to the tables.
  unfoldable pub rollback : Db → Result A × Session → Result A × Session
  rollback before (ok a, s) = (ok a, s)
  rollback before (err e, s) = (err e, record s { db = before })

abbrev pub read {ℓ} : {A : Type ℓ} → (Db → A) → Action A
read f = statement (λ db. (f db, db))

-- A value, or the error that stands for its absence.
abbrev pub require {ℓ} : {A : Type ℓ} → Error → Option A → Action A
require e (some a) = return a
require e none = throw e

-- Stop with an error unless a test holds.
abbrev pub check : Bool → Error → Action (Unit {0})
check true e = return tt
check false e = throw e

-- The order in which the database returns the groups of a GROUP BY status.
abbrev pub group_order : Action (List CommandHostStatus)
group_order s = (ok s.group_order, s)

abbrev pub write : (Db → Db) → Action (Unit {0})
write f = statement (λ db. (tt, f db))

-- BEGIN and COMMIT are statements that change nothing and may fail.
abbrev pub mark : Action (Unit {0})
mark = write (λ db. db)

-- `db.Transaction`: BEGIN, the body, COMMIT; any error rolls back.
unfoldable pub transaction {ℓ} : {A : Type ℓ} → Action A → Action A
unfolding statement rollback
transaction body s = rollback s.db ((do mark; a ← body; mark; return a) s)

-- The `go` statement that starts a goroutine to send a message, unless no dispatcher is set.
unfoldable pub go_send : Message → Action (Unit {0})
go_send m s =
    (ok tt, (if s.dispatcher_set then record s { goroutines = s.goroutines ++ m ∷ [] } else s))

-- Go on after an error that is only logged.
abbrev pub logged {ℓ} : {A : Type ℓ} → Result A × Session → Result (Option A) × Session
logged (ok a, s) = (ok (some a), s)
logged (err e, s) = (ok none, s)

abbrev pub attempt {ℓ} : {A : Type ℓ} → Action A → Action (Option A)
attempt m s = logged (m s)

-- `if taskDispatcher != nil`
abbrev pub when_dispatcher : Action (Unit {0}) → Action (Unit {0})
when_dispatcher m s = if s.dispatcher_set then m s else (ok tt, s)

-- A session with no fault to come.
abbrev pub quiet : Db → Bool → List CommandHostStatus → List Message → Session
quiet db dispatcher order goroutines = record {
  db = db;
  faults = [];
  dispatcher_set = dispatcher;
  group_order = order;
  goroutines = goroutines;
}
