-- ===== src/Cleanup/Orphans.antt =====
-- Which rows CleanupOldRecords takes away, where no statement fails.
use devops_manager.Prelude.{
  ◌≡◌, refl, sym, subst, Bool, false, not, ◌&&◌, none, some, Time, List, [], ◌∷◌, map, select,
  update_where, elem, ltb, All, arith, All-update_where, map-update_where, select-update_where,
}
use devops_manager.Models.CommandHost.{CommandHostStatus}
use devops_manager.Models.Command.{Command}
use devops_manager.Models.Task.{Task}
use devops_manager.Db.{Db, Message, ok, quiet, is_live_command}
use devops_manager.Cleanup.{
  is_disposable, is_old_task, is_orphan, is_orphan_row, cleanup_old_records,
}

abbrev marked_tasks : Time → Time → List Task → List Task
marked_tasks cutoff now ts =
    update_where (is_old_task cutoff) (λ t. record t { deleted_at = some now }) ts

abbrev marked_commands : Time → List Task → List Command → List Command
marked_commands now ts cs =
    update_where (λ c. is_orphan ts c && is_live_command c)
      (λ c. record c { deleted_at = some now }) cs

abbrev cleaned : Time → Time → Db → Db
cleaned cutoff now db = record {
  tasks = marked_tasks cutoff now db.tasks;
  commands = marked_commands now (marked_tasks cutoff now db.tasks) db.commands;
  command_hosts =
      select
        (λ ch.
          not
            (is_orphan_row (marked_commands now (marked_tasks cutoff now db.tasks) db.commands) ch))
        db.command_hosts;
  command_results = select (λ r. not (ltb r.created_at cutoff)) db.command_results;
}

cleanup_old_records-quiet :
    (cutoff now : Time) (db : Db) (disp : Bool) (order : List CommandHostStatus)
    (out : List Message)
    → cleanup_old_records cutoff now (quiet db disp order out)
      ≡ (ok tt, quiet (cleaned cutoff now db) disp order out)
unfolding cleanup_old_records
cleanup_old_records-quiet cutoff now db disp order out = refl

All-select {ℓ} :
    {A : Type ℓ} (p : A → Bool) (xs : List A) → All (λ x. p x ≡ false) (select (λ x. not (p x)) xs)
All-select p [] = tt
All-select p (x ∷ xs) = ground (arith, All-select p xs)

nothing-marked {ℓ} :
    {A : Type ℓ} (p : A → Bool) (f : A → A) (xs : List A)
    → All (λ x. p x ≡ false) xs
    → update_where p f xs ≡ xs
nothing-marked p f [] h = refl
nothing-marked p f (x ∷ xs) h = rw (h.0, nothing-marked p f xs h.1)

nothing-removed {ℓ} :
    {A : Type ℓ} (p : A → Bool) (xs : List A)
    → All (λ x. p x ≡ false) xs
    → select (λ x. not (p x)) xs ≡ xs
nothing-removed p [] h = refl
nothing-removed p (x ∷ xs) h = rw (h.0, nothing-removed p xs h.1)

known-live :
    (ts : List Task) (cs : List Command)
    → All (λ c. is_orphan ts c ≡ false) cs
    → All (λ c. is_orphan ts c && is_live_command c ≡ false) cs
known-live ts [] h = tt
known-live ts (c ∷ cs) h = (rw h.0, known-live ts cs h.1)

-- The marked tasks have the identifiers that they had.
same-ids :
    (cutoff now : Time) (ts : List Task)
    → map (λ t. t.task_id) (marked_tasks cutoff now ts) ≡ map (λ t. t.task_id) ts
same-ids cutoff now ts =
    map-update_where (λ t. t.task_id) (is_old_task cutoff) (λ t. record t { deleted_at = some now })
      ts (λ t. refl)

still-known :
    (cutoff now : Time) (ts : List Task) (cs : List Command)
    → All (λ c. is_orphan ts c ≡ false) cs
    → All (λ c. is_orphan (marked_tasks cutoff now ts) c ≡ false) cs
unfolding is_orphan
still-known cutoff now ts cs h =
    subst
      (λ ids. All (λ c. (elim c.task_id [ none ↦ false | some id ↦ not (elem id ids) ]) ≡ false) cs)
      (sym (same-ids cutoff now ts)) h

-- Where no statement fails, CleanupOldRecords succeeds, and then: no result is older than the cutoff;
-- no live task that is older is completed or canceled; no live command names a task of which there is
-- no row; no host row names a command of which there is no row; and the tasks that are neither
-- completed nor canceled are as they were.
pub cleanup_old_records-cleans :
    (cutoff now : Time) (db : Db) (disp : Bool) (order : List CommandHostStatus)
    (out : List Message)
    → let r = cleanup_old_records cutoff now (quiet db disp order out) in
      (r.0 ≡ ok tt)
      × All (λ x. ltb x.created_at cutoff ≡ false) r.1.db.command_results
      × All (λ t. is_old_task cutoff t ≡ false) r.1.db.tasks
      × All (λ c. is_orphan r.1.db.tasks c && is_live_command c ≡ false) r.1.db.commands
      × All (λ ch. is_orphan_row r.1.db.commands ch ≡ false) r.1.db.command_hosts
      × (select (λ t. not (is_disposable t.status)) r.1.db.tasks
          ≡ select (λ t. not (is_disposable t.status)) db.tasks)
unfolding cleanup_old_records is_orphan
cleanup_old_records-cleans cutoff now db disp order out = (
  refl,
  All-select (λ x. ltb x.created_at cutoff) db.command_results,
  All-update_where (λ t. is_old_task cutoff t ≡ false) (is_old_task cutoff)
      (λ t. record t { deleted_at = some now }) db.tasks (λ t. ground arith),
  All-update_where
      (λ c. is_orphan (marked_tasks cutoff now db.tasks) c && is_live_command c ≡ false)
      (λ c. is_orphan (marked_tasks cutoff now db.tasks) c && is_live_command c)
      (λ c. record c { deleted_at = some now }) db.commands (λ c. ground arith),
  All-select (is_orphan_row (marked_commands now (marked_tasks cutoff now db.tasks) db.commands))
      db.command_hosts,
  select-update_where (λ t. not (is_disposable t.status)) (is_old_task cutoff)
      (λ t. record t { deleted_at = some now }) db.tasks (λ t. refl) (λ t h. ground arith),
)

-- Where no statement fails, each command names a task and each host row a command of which there is a
-- row, marked as deleted or not, CleanupOldRecords keeps every command and every host row as it is:
-- also those of the tasks that it deletes.
pub cleanup_old_records-keeps :
    (cutoff now : Time) (db : Db) (disp : Bool) (order : List CommandHostStatus)
    (out : List Message)
    → All (λ c. is_orphan db.tasks c ≡ false) db.commands
    → All (λ ch. is_orphan_row db.commands ch ≡ false) db.command_hosts
    → let r = cleanup_old_records cutoff now (quiet db disp order out) in
      (r.1.db.commands ≡ db.commands) × (r.1.db.command_hosts ≡ db.command_hosts)
unfolding cleanup_old_records
cleanup_old_records-keeps cutoff now db disp order out known known_rows =
    let ts = marked_tasks cutoff now db.tasks in
    let same : marked_commands now ts db.commands ≡ db.commands =
      nothing-marked (λ c. is_orphan ts c && is_live_command c)
        (λ c. record c { deleted_at = some now }) db.commands
        (known-live ts db.commands (still-known cutoff now db.tasks db.commands known)) in
    (same, rw same (nothing-removed (is_orphan_row db.commands) db.command_hosts known_rows))
