-- ===== src/Cleanup.antt =====
-- CleanupOldRecords of server/pkg/service/database_optimizer.go. `cutoff` is the instant that
-- AddDate gives for the days of retention. The errors of the counts, which are only logged, are
-- dropped.
pub mod Orphans
use devops_manager.Prelude.{
  ℕ, Bool, true, false, not, Option, none, some, Time, List, map, ◌&&◌, select, update_where,
  count_where, elem, ltb,
}
use devops_manager.Models.CommandHost.{CommandHost}
use devops_manager.Models.Command.{Command}
use devops_manager.Models.Task.{Task, TaskStatus}
use devops_manager.Db.{
  Action, Db, read, write, return, attempt, ◌>>=◌, ◌>>◌, transaction, statement, is_live_task,
  is_live_command,
}

-- `status IN ?`
unfoldable pub is_disposable : TaskStatus → Bool
is_disposable TaskStatus.completed = true
is_disposable TaskStatus.canceled = true
is_disposable _ = false

abbrev pub is_old_task : Time → Task → Bool
is_old_task cutoff t = (ltb t.created_at cutoff && is_disposable t.status) && is_live_task t

-- `task_id NOT IN (SELECT task_id FROM tasks WHERE task_id IS NOT NULL)`: the sub-select has no
-- condition on deleted_at, and NULL is neither in it nor not in it.
unfoldable pub is_orphan : List Task → Command → Bool
is_orphan ts c = elim c.task_id [ none ↦ false | some id ↦ not (elem id (map (λ t. t.task_id) ts)) ]

-- `command_id NOT IN (SELECT command_id FROM commands WHERE command_id IS NOT NULL)`
unfoldable pub is_orphan_row : List Command → CommandHost → Bool
is_orphan_row cs ch = not (elem ch.command_id (map (λ c. c.command_id) cs))

-- Rows of command_results and commands_hosts are deleted; tasks and commands are marked.
unfoldable pub cleanup_body : (cutoff : Time) → Time → Action (Unit {0})
unfolding statement is_disposable is_orphan is_orphan_row
cleanup_body cutoff now = do
  write (λ db. record db {
    command_results = select (λ r. not (ltb r.created_at cutoff)) db.command_results;
  })
  results ← attempt (read (λ db. count_where (λ r. ltb r.created_at cutoff) db.command_results))
  write (λ db. record db {
    tasks = update_where (is_old_task cutoff) (λ t. record t { deleted_at = some now }) db.tasks;
  })
  old ← attempt (read (λ db. count_where (is_old_task cutoff) db.tasks))
  write (λ db. record db {
    commands =
        update_where (λ c. is_orphan db.tasks c && is_live_command c)
          (λ c. record c { deleted_at = some now }) db.commands;
  })
  orphans ←
      attempt
        (read (λ db. count_where (λ c. is_orphan db.tasks c && is_live_command c) db.commands))
  write (λ db. record db {
    command_hosts = select (λ ch. not (is_orphan_row db.commands ch)) db.command_hosts;
  })
  rows ← attempt (read (λ db. count_where (is_orphan_row db.commands) db.command_hosts))
  return tt

unfoldable pub cleanup_old_records : (cutoff : Time) → Time → Action (Unit {0})
unfolding transaction cleanup_body
cleanup_old_records cutoff now = transaction (cleanup_body cutoff now)
