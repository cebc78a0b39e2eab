-- ===== src/Tests/Cache.antt =====
-- A cache of numbers, and a cleanup of two tasks.
use devops_manager.Prelude.{ℕ, ◌≡◌, refl, false, Option, some, List, [], ◌∷◌}
use devops_manager.Models.Task.{Task, TaskStatus}
use devops_manager.Models.CommandHost.{CommandHostStatus}
use devops_manager.Models.Command.{CommandStatus}
use devops_manager.Db.{Db, quiet}
use devops_manager.Cleanup.{cleanup_old_records, is_orphan, is_orphan_row}
use devops_manager.Cleanup.Orphans.{cleanup_old_records-keeps}
use devops_manager.TaskCache.{progress, host_tasks, Entry, ok}
use devops_manager.TaskCache.Store.{ListData, cache_task_progress, get_cached_task_progress}
use devops_manager.TaskCache.Fresh.{untroubled, cached-get}
use devops_manager.Tests.Samples.{task, tables}

abbrev finished_tables : Db
finished_tables =
    tables TaskStatus.completed CommandStatus.completed CommandHostStatus.completed
      CommandStatus.completed CommandHostStatus.completed

cleanup_old_records-keeps_example :
    let r = cleanup_old_records 90 100 (quiet finished_tables false [] []) in
    (r.1.db.commands ≡ finished_tables.commands)
    × (r.1.db.command_hosts ≡ finished_tables.command_hosts)
unfolding is_orphan is_orphan_row
cleanup_old_records-keeps_example =
    cleanup_old_records-keeps 90 100 finished_tables false [] [] (refl, (refl, tt))
      (refl, (refl, tt))

-- A progress of task 1 and a list of host 5.
abbrev entries : List (Entry ℕ)
entries =
    record { key = progress 1; data_of = 40; expires = 100 }
    ∷ record { key = host_tasks 5 2; data_of = 41; expires = 100 }
    ∷ []

abbrev read_any : ℕ → Option (ListData Task)
read_any n = some (record { tasks = some (task 1 TaskStatus.running 2 ∷ []); total = some 1 })

cached-get_example :
    (get_cached_task_progress some 1 50 (cache_task_progress some 1 7 20 (untroubled entries)).1).0
    ≡ ok (some 7)
cached-get_example =
    (cached-get some some (λ ts n t. some 9) read_any some 1 7 (task 1 TaskStatus.running 2 ∷ []) 1
      7 9 (task 1 TaskStatus.running 2 ∷ []) 20 50 entries refl refl refl refl refl).1
