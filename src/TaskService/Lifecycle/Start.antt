-- ===== src/TaskService/Lifecycle/Start.antt =====
-- What StartTask writes, and the goroutines that it starts.
use mathlib.Core.List.{append-nil, append_assoc}
use devops_manager.Prelude.{
  ℕ, ◌≡◌, refl, ◌∙◌, Bool, true, false, ◌==◌, some, Time, List, [], ◌∷◌, ◌++◌, map, ◌&&◌, not, All,
  All-update_where, update_where, arith,
}
use devops_manager.Models.CommandHost.{CommandHost, CommandHostStatus}
use devops_manager.Models.CommandHost as Hosts
use devops_manager.Models.Command as Commands
use devops_manager.Models.Command.{Command, CommandStatus}
use devops_manager.Models.Task.{Task, TaskStatus}
use devops_manager.Db.{
  Db, Message, Session, Error, ok, err, quiet, find_task, commands_of, update_task, is_live_command,
}
use devops_manager.Db.Rollback.{transaction-ok}
use devops_manager.Db.Laws.{find_task-update}
use devops_manager.TaskService.Lifecycle.{start_task, start_task_body, send_commands}

-- The two statements on a command.
abbrev is_reset : Command → Command → Bool
is_reset cmd c = c.command_id == cmd.command_id && is_live_command c

abbrev reset_command : Time → Command → Command
reset_command now c = record c { status = CommandStatus.pending; updated_at = now }

abbrev reset_host : Time → CommandHost → CommandHost
reset_host now ch = record ch { status = CommandHostStatus.pending; updated_at = now }

abbrev reset_one : Time → Command → Db → Db
reset_one now cmd db = record db {
  commands = update_where (is_reset cmd) (reset_command now) db.commands;
  command_hosts =
      update_where (λ ch. ch.command_id == cmd.command_id) (reset_host now) db.command_hosts;
}

-- The tables after the loop over the commands.
abbrev reset : Time → List Command → Db → Db
reset now [] db = db
reset now (cmd ∷ cs) db = reset now cs (reset_one now cmd db)

abbrev sent : Bool → List Command → List Message
sent true cs = map Message.run cs
sent false cs = []

send_commands-quiet :
    (now : Time) (cs : List Command) (db : Db) (disp : Bool) (order : List CommandHostStatus)
    (out : List Message)
    → send_commands now cs (quiet db disp order out)
      ≡ (ok tt, quiet (reset now cs db) disp order (out ++ sent disp cs))
unfolding send_commands
send_commands-quiet now [] db true order out = rw append-nil
send_commands-quiet now [] db false order out = rw append-nil
send_commands-quiet now (c ∷ cs) db true order out =
    send_commands-quiet now cs _ true order (out ++ Message.run c ∷ []) ∙ rw append_assoc
send_commands-quiet now (c ∷ cs) db false order out = send_commands-quiet now cs _ false order out

reset-tasks : (now : Time) (cs : List Command) (db : Db) → (reset now cs db).tasks ≡ db.tasks
reset-tasks now [] db = refl
reset-tasks now (c ∷ cs) db = reset-tasks now cs _

abbrev started : Time → Task → Task
started now t = record t { status = TaskStatus.running; started_at = some now; updated_at = now }

start_task-quiet :
    (id : ℕ) (now : Time) (db : Db) (disp : Bool) (order : List CommandHostStatus)
    (out : List Message) (t : Task)
    → find_task id db ≡ some t
    → t.status ≡ TaskStatus.pending
    → start_task id now (quiet db disp order out) ≡ (
      ok tt,
      quiet
          (reset now (commands_of id db) (update_task id (started now) db))
          disp
          order
          (out ++ sent disp (commands_of id db)),
    )
unfolding start_task
start_task-quiet id now db disp order out t found is_new =
    transaction-ok (start_task_body id now) db disp order out (
      rw (found, start_task_body)
        (rw is_new (
          send_commands-quiet now (commands_of id db) (update_task id (started now) db) disp order
            out)))

-- A live command, and a host row, of an identifier that is not pending.
abbrev pub is_left : ℕ → Command → Bool
is_left id c = c.command_id == id && is_live_command c && not (Commands.is_pending c.status)

abbrev pub is_left_host : ℕ → CommandHost → Bool
is_left_host id ch = ch.command_id == id && not (Hosts.is_pending ch.status)

-- Each row that the loop writes becomes pending.
abbrev AllReset : ℕ → Db → Type 0
AllReset id db =
    All (λ c. is_left id c ≡ false) db.commands
    × All (λ ch. is_left_host id ch ≡ false) db.command_hosts

All-update_where_of {ℓ} :
    {A : Type ℓ} (test p : A → Bool) (f : A → A) (xs : List A)
    → ((x : A) → test (f x) ≡ false)
    → All (λ x. test x ≡ false) xs
    → All (λ x. test x ≡ false) (update_where p f xs)
All-update_where_of test p f [] h k = tt
All-update_where_of test p f (x ∷ xs) h k =
    (ground (arith, h x, k.0), All-update_where_of test p f xs h k.1)

reset-AllReset :
    (id : ℕ) (now : Time) (cs : List Command) (db : Db)
    → AllReset id db
    → AllReset id (reset now cs db)
unfolding Commands.is_pending Hosts.is_pending
reset-AllReset id now [] db h = h
reset-AllReset id now (cmd ∷ cs) db h = reset-AllReset id now cs (reset_one now cmd db) (
  All-update_where_of (is_left id) (is_reset cmd) (reset_command now) db.commands
      (λ c. ground arith) h.0,
  All-update_where_of (is_left_host id) (λ ch. ch.command_id == cmd.command_id) (reset_host now)
      db.command_hosts (λ ch. ground arith) h.1,
)

reset-pending :
    (now : Time) (cs : List Command) (db : Db)
    → All (λ cmd. AllReset cmd.command_id (reset now cs db)) cs
unfolding Commands.is_pending Hosts.is_pending
reset-pending now [] db = tt
reset-pending now (cmd ∷ cs) db = (
  reset-AllReset cmd.command_id now cs (reset_one now cmd db) (
    All-update_where (λ c. is_left cmd.command_id c ≡ false) (is_reset cmd) (reset_command now)
        db.commands (λ c. ground arith),
    All-update_where (λ ch. is_left_host cmd.command_id ch ≡ false)
        (λ ch. ch.command_id == cmd.command_id) (reset_host now) db.command_hosts
        (λ ch. ground arith),
  ),
  reset-pending now cs (reset_one now cmd db),
)

-- Where no statement fails and a dispatcher is set, StartTask on a pending task succeeds: the task
-- runs from `now` on; of each live command of the task, the live commands with its identifier and the
-- host rows are pending; and one goroutine is started for each of these commands that is to send it.
-- When the goroutines run, and in which order, is left open.
pub start_task-spawns :
    (id : ℕ) (now : Time) (db : Db) (order : List CommandHostStatus) (out : List Message) (t : Task)
    → find_task id db ≡ some t
    → t.status ≡ TaskStatus.pending
    → let r = start_task id now (quiet db true order out) in
      (r.0 ≡ ok tt)
      × (find_task id r.1.db
          ≡ some
              (record t { status = TaskStatus.running; started_at = some now; updated_at = now }))
      × All
          (λ cmd.
            All (λ c. is_left cmd.command_id c ≡ false) r.1.db.commands
            × All (λ ch. is_left_host cmd.command_id ch ≡ false) r.1.db.command_hosts)
          (commands_of id db)
      × (r.1.goroutines ≡ out ++ map Message.run (commands_of id db))
start_task-spawns id now db order out t found is_new =
    let db₁ = update_task id (started now) db in
    rw (start_task-quiet id now db true order out t found is_new) (
      refl,
      rw (reset-tasks now (commands_of id db) db₁)
          (find_task-update id (started now) db t (λ u. refl) (λ u. refl) found),
      reset-pending now (commands_of id db) db₁,
      refl,
    )

-- The statements of StartTask that succeed before the COMMIT that `rest` begins with.
abbrev passes : List Command → List Bool → List Bool
passes [] rest = rest
passes (c ∷ cs) rest = false ∷ false ∷ passes cs rest

abbrev pub session : Db → List Bool → List CommandHostStatus → List Message → Session
session db faults order out = record {
  db = db;
  faults = faults;
  dispatcher_set = true;
  group_order = order;
  goroutines = out;
}

send_commands-passes :
    (now : Time) (cs : List Command) (db : Db) (rest : List Bool) (order : List CommandHostStatus)
    (out : List Message)
    → send_commands now cs (session db (passes cs rest) order out)
      ≡ (ok tt, session (reset now cs db) rest order (out ++ map Message.run cs))
unfolding send_commands
send_commands-passes now [] db rest order out = rw append-nil
send_commands-passes now (c ∷ cs) db rest order out =
    send_commands-passes now cs _ rest order (out ++ Message.run c ∷ []) ∙ rw append_assoc

-- Where the COMMIT is the statement that fails and a dispatcher is set, StartTask on a pending task
-- returns an error and changes no table, but a goroutine has been started for each live command of
-- the task that is to send it.
pub start_task-commit_fails :
    (id : ℕ) (now : Time) (db : Db) (order : List CommandHostStatus) (out : List Message) (t : Task)
    → find_task id db ≡ some t
    → t.status ≡ TaskStatus.pending
    → start_task id now (
        session db
          (false ∷ false ∷ false ∷ false ∷ passes (commands_of id db) (true ∷ []))
          order
          out)
      ≡ (err Error.db_error, session db [] order (out ++ map Message.run (commands_of id db)))
unfolding start_task
start_task-commit_fails id now db order out t found is_new =
    rw (found, start_task_body)
      (rw is_new (
        rw (
          send_commands-passes now (commands_of id db) (update_task id (started now) db) (true ∷ [])
            order out)))
