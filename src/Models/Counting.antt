-- ===== src/Models/Counting.antt =====
-- UpdateProgress of api/models/task.go: a task's counters and status from the rows that GetTask has
-- loaded into it.
use devops_manager.Prelude.{
  ℕ, ◌+◌, Option, none, some, Time, List, [], ◌∷◌, ◌==◌, ◌||◌, ltb, if◌then◌else◌,
}
use devops_manager.Models.CommandHost.{CommandHost, CommandHostStatus}
use devops_manager.Models.Command.{Command}
use devops_manager.Models.Task.{Task, TaskStatus}

pub record HostCounts : Type 0 where
  pub completed : ℕ
  pub failed : ℕ
  pub running : ℕ

-- The switch, which counts one up.
unfoldable pub count_status : CommandHostStatus → HostCounts → HostCounts
count_status CommandHostStatus.completed c = record c { completed = c.completed + 1 }
count_status CommandHostStatus.failed c = record c { failed = c.failed + 1 }
count_status CommandHostStatus.exec_failed c = record c { failed = c.failed + 1 }
count_status CommandHostStatus.timeout c = record c { failed = c.failed + 1 }
count_status CommandHostStatus.running c = record c { running = c.running + 1 }
count_status _ c = c

unfoldable pub count_hosts : List CommandHost → HostCounts → HostCounts
unfolding count_status
count_hosts [] c = c
count_hosts (ch ∷ chs) c = count_hosts chs (count_status ch.status c)

unfoldable pub count_commands : List Command → HostCounts → HostCounts
unfolding count_hosts
count_commands [] c = c
count_commands (cmd ∷ cmds) c = count_commands cmds (count_hosts cmd.command_hosts c)

abbrev pub set_once : Option Time → Time → Option Time
set_once none now = some now
set_once (some t) now = some t

unfoldable pub with_host_counts : HostCounts → Time → Task → Task
with_host_counts c now t =
    if c.completed + c.failed == t.total_hosts
    then record t {
      completed_hosts = c.completed;
      failed_hosts = c.failed;
      status = (if c.failed == 0 then TaskStatus.completed else TaskStatus.failed);
      finished_at = set_once t.finished_at now;
    }
    else if ltb 0 c.running || ltb 0 c.completed
    then record t {
      completed_hosts = c.completed;
      failed_hosts = c.failed;
      status = TaskStatus.running;
      started_at = set_once t.started_at now;
    }
    else record t { completed_hosts = c.completed; failed_hosts = c.failed }

unfoldable pub update_progress : Time → Task → Task
unfolding count_commands with_host_counts
update_progress now t =
    with_host_counts (count_commands t.commands (record { completed = 0; failed = 0; running = 0 }))
      now t
