-- ===== src/TaskService/Lifecycle/Create.antt =====
-- What CreateTask and AddTaskHosts write, where no statement fails: a command and a host row for
-- each host, so that the task's total is the number of its host rows.
use mathlib.Core.List.{append-nil, append_assoc}
use devops_manager.Prelude.{
  ℕ, suc, ◌≡◌, refl, ap, ◌∙◌, ℤ, String, Bool, true, false, ==_refl, Time, List, [], ◌∷◌, ◌++◌,
  elem, length, count_where, count_where-append, count_where-zero, if◌then◌else◌, All, arith,
}
use devops_manager.Models.CommandHost.{CommandHost, CommandHostStatus}
use devops_manager.Models.Command.{Command}
use devops_manager.Db.{Db, Message, ok, quiet, belongs_to, command_ids_of}
use devops_manager.Db.Rollback.{transaction-ok}
use devops_manager.TaskService.Lifecycle.{
  create_task, create_body, create_rows, new_command, new_host, new_task,
}

-- The identifiers that the loop draws.
abbrev pub drawn : (ℕ → ℕ) → ℕ → List ℕ → List ℕ
drawn uuid i [] = []
drawn uuid i (h ∷ hs) = uuid i ∷ drawn uuid (suc i) hs

module _ (uuid : ℕ → ℕ) (task_id : ℕ) (command parameters : String) (timeout : ℤ) (now : Time) where
  abbrev pub new_commands : ℕ → List ℕ → List Command
  new_commands i [] = []
  new_commands i (h ∷ hs) =
      new_command (uuid i) task_id h command parameters timeout now ∷ new_commands (suc i) hs

  abbrev pub new_hosts : ℕ → List ℕ → List CommandHost
  new_hosts i [] = []
  new_hosts i (h ∷ hs) = new_host (uuid i) h now ∷ new_hosts (suc i) hs

  abbrev pub with_rows : ℕ → List ℕ → Db → Db
  with_rows i hs db = record db {
    commands = db.commands ++ new_commands i hs;
    command_hosts = db.command_hosts ++ new_hosts i hs;
  }

  pub create_rows-quiet :
      (hs : List ℕ) (i : ℕ) (db : Db) (disp : Bool) (order : List CommandHostStatus)
      (out : List Message)
      → create_rows uuid i task_id command parameters timeout now hs (quiet db disp order out)
        ≡ (ok tt, quiet (with_rows i hs db) disp order out)
  unfolding create_rows
  create_rows-quiet [] i db disp order out = rw (append-nil, append-nil)
  create_rows-quiet (h ∷ hs) i db disp order out =
      create_rows-quiet hs (suc i)
        (record db {
          commands =
              db.commands ++ new_command (uuid i) task_id h command parameters timeout now ∷ [];
          command_hosts = db.command_hosts ++ new_host (uuid i) h now ∷ [];
        })
        disp order out
      ∙ rw (append_assoc db.commands, append_assoc db.command_hosts)

  command_ids-new :
      (hs : List ℕ) (i : ℕ) → command_ids_of task_id (new_commands i hs) ≡ drawn uuid i hs
  unfolding new_command
  command_ids-new [] i = refl
  command_ids-new (h ∷ hs) i = ground (arith, command_ids-new hs (suc i), ==_refl task_id)

elem-append : (k : ℕ) (xs ys : List ℕ) → elem k (xs ++ ys) ≡ (if elem k xs then true else elem k ys)
elem-append k [] ys = refl
elem-append k (x ∷ xs) ys = ground (arith, elem-append k xs ys)

command_ids-append :
    (id : ℕ) (cs ds : List Command)
    → command_ids_of id (cs ++ ds) ≡ command_ids_of id cs ++ command_ids_of id ds
command_ids-append id [] ds = refl
command_ids-append id (c ∷ cs) ds = ground (arith, command_ids-append id cs ds)

All-elem : (before xs : List ℕ) → All (λ k. elem k (before ++ xs) ≡ true) xs
All-elem before [] = tt
All-elem before (x ∷ xs) = (
  ground (arith, elem-append x before (x ∷ xs), ==_refl x),
  rw append_assoc at (All-elem (before ++ x ∷ []) xs),
)

module _ (uuid : ℕ → ℕ) (task_id : ℕ) (command parameters : String) (timeout : ℤ) (now : Time) where
  count-new_hosts :
      (ids : List ℕ) (hs : List ℕ) (i : ℕ)
      → All (λ k. elem k ids ≡ true) (drawn uuid i hs)
      → count_where
          (λ ch. elem ch.command_id ids)
          (new_hosts uuid task_id command parameters timeout now i hs)
        ≡ length hs
  unfolding new_host
  count-new_hosts ids [] i h = refl
  count-new_hosts ids (x ∷ hs) i h = ground (arith, count-new_hosts ids hs (suc i) h.1, h.0)

pub create_task-quiet :
    (uuid : ℕ → ℕ) (name description : String) (hosts : List ℕ) (command : String) (timeout : ℤ)
    (parameters created_by : String) (now : Time) (db : Db) (disp : Bool)
    (order : List CommandHostStatus) (out : List Message)
    → let task = new_task (uuid 0) name description (length hosts) created_by now in
      create_task uuid name description hosts command timeout parameters created_by now
        (quiet db disp order out)
      ≡ (
        ok task,
        quiet
            (with_rows uuid
              (uuid 0)
              command
              parameters
              timeout
              now
              1
              hosts
              (record db { tasks = db.tasks ++ task ∷ [] }))
            disp
            order
            out,
      )
unfolding create_task
create_task-quiet uuid name description hosts command timeout parameters created_by now db disp
      order out =
    let task = new_task (uuid 0) name description (length hosts) created_by now in
    transaction-ok
      (create_body uuid name description hosts command timeout parameters created_by now) db disp
      order out
      (rw (
        create_rows-quiet uuid (uuid 0) command parameters timeout now hosts 1
          (record db { tasks = db.tasks ++ task ∷ [] }) disp order out))

-- Where no statement fails, CreateTask returns the task with the number of its hosts, and the
-- tables then hold as many host rows of the task: the identifiers drawn are new, in that no
-- command has the task's, and no host row has a command's.
pub create_task-total :
    (uuid : ℕ → ℕ) (name description : String) (hosts : List ℕ) (command : String) (timeout : ℤ)
    (parameters created_by : String) (now : Time) (db : Db) (disp : Bool)
    (order : List CommandHostStatus) (out : List Message)
    → command_ids_of (uuid 0) db.commands ≡ []
    → All (λ ch. elem ch.command_id (drawn uuid 1 hosts) ≡ false) db.command_hosts
    → let r =
        create_task uuid name description hosts command timeout parameters created_by now
          (quiet db disp order out) in
      (r.0 ≡ ok (new_task (uuid 0) name description (length hosts) created_by now))
      × (r.1.db.tasks
          ≡ db.tasks ++ new_task (uuid 0) name description (length hosts) created_by now ∷ [])
      × (count_where (belongs_to (uuid 0) r.1.db.commands) r.1.db.command_hosts ≡ length hosts)
create_task-total uuid name description hosts command timeout parameters created_by now db disp
      order out fresh_task fresh_commands =
    let ids = drawn uuid 1 hosts in
    let rows = new_hosts uuid (uuid 0) command parameters timeout now 1 hosts in
    let cs = new_commands uuid (uuid 0) command parameters timeout now 1 hosts in
    let drawn_ids : command_ids_of (uuid 0) (db.commands ++ cs) ≡ ids = rw (
      command_ids-append,
      fresh_task,
      command_ids-new uuid (uuid 0) command parameters timeout now hosts 1,
    ) in
    rw
      (create_task-quiet uuid name description hosts command timeout parameters created_by now db
        disp order out)
      (
        refl,
        refl,
        ap
              (λ is.
                count_where (λ (ch : CommandHost). elem ch.command_id is)
                  (db.command_hosts ++ rows))
              drawn_ids
            ∙ rw
                (
                  count_where-append (λ (ch : CommandHost). elem ch.command_id ids),
                  count_where-zero (λ (ch : CommandHost). elem ch.command_id ids) db.command_hosts
                      fresh_commands,
                )
                (omega (
                  arith,
                  count-new_hosts uuid (uuid 0) command parameters timeout now ids hosts 1
                      (All-elem [] ids),
                )),
      )
