-- ===== src/Tests/Status.antt =====
-- The status of a task on two hosts, one of which is through.
use devops_manager.Prelude.{◌≡◌, refl, false, some, List, [], ◌∷◌, arith}
use devops_manager.Models.CommandHost.{CommandHostStatus}
use devops_manager.Models.Command.{CommandStatus}
use devops_manager.Models.Task.{Task, TaskStatus}
use devops_manager.Models.Counting.{update_progress}
use devops_manager.Db.{quiet, ok}
use devops_manager.TaskCache.{Entry}
use devops_manager.TaskCache.Store.{cache_task_status}
use devops_manager.TaskCache.Fresh.{untroubled}
use devops_manager.TaskService.Tally.{count_statuses, same}
use devops_manager.TaskService.Tally.Laws.{IsGroupOrder, FailsOnlyBy}
use devops_manager.TaskService.Progress.{update_task_progress, apply_counts}
use devops_manager.TaskService.Progress.Loaded.{loaded_rows, update_progress-agrees}
use devops_manager.TaskService.Status.{StatusAnswer, answer, read_task_status, get_task_status}
use devops_manager.TaskService.Status.Writes.{read_task_status-agrees}
use devops_manager.TaskService.Status.Cached.{get_task_status-cached}
use devops_manager.Tests.Samples.{task, command, row, busy, statuses}

abbrev before : Task
before = task 1 TaskStatus.running 2

read_task_status-agrees_example :
    (read_task_status 1 60 (quiet busy false statuses [])).1
    ≡ (update_task_progress 1 60 (quiet busy false statuses [])).1
read_task_status-agrees_example =
    (read_task_status-agrees 1 60 busy false statuses [] before refl refl).0

abbrev cached_answer : StatusAnswer
cached_answer =
    answer 60 (record { completed = 1; failed = 0; running = 1; pending = 0; canceled = 0 }) before
      before

abbrev nothing : List (Entry StatusAnswer)
nothing = []

get_task_status-cached_example :
    (get_task_status some 1 70
      (cache_task_status some 1 cached_answer 60 (untroubled nothing)).1
      (quiet busy false statuses [])).0
    ≡ (ok cached_answer, quiet busy false statuses [])
get_task_status-cached_example =
    get_task_status-cached some some 1 cached_answer cached_answer 60 70 nothing
      (quiet busy false statuses []) refl refl (omega arith)

-- The task with its commands and host rows loaded.
abbrev loaded : Task
loaded = record before {
  commands =
      record (command 10 1 5 CommandStatus.completed) {
        command_hosts = row 10 5 CommandHostStatus.completed ∷ [];
      }
      ∷ record (command 11 1 6 CommandStatus.failed) {
        command_hosts = row 11 6 CommandHostStatus.timeout ∷ [];
      }
      ∷ [];
}

statuses-once : IsGroupOrder statuses
unfolding same
statuses-once CommandHostStatus.pending = refl
statuses-once CommandHostStatus.running = refl
statuses-once CommandHostStatus.failed = refl
statuses-once CommandHostStatus.exec_failed = refl
statuses-once CommandHostStatus.timeout = refl
statuses-once CommandHostStatus.canceled = refl
statuses-once CommandHostStatus.completed = refl

loaded-FailsOnlyBy : FailsOnlyBy (loaded_rows loaded.commands) CommandHostStatus.timeout
unfolding same
loaded-FailsOnlyBy = (refl, λ j. ground arith)

update_progress-agrees_example :
    (update_progress 60 loaded).status
    ≡ (apply_counts 60 (count_statuses statuses (loaded_rows loaded.commands)) loaded loaded).status
unfolding same
update_progress-agrees_example =
    (update_progress-agrees statuses CommandHostStatus.timeout loaded 60 statuses-once
      loaded-FailsOnlyBy refl).0
