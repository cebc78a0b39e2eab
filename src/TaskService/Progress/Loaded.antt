-- ===== src/TaskService/Progress/Loaded.antt =====
-- UpdateProgress against updateTaskProgressInTransaction.
use devops_manager.Prelude.{◌+◌, ◌≡◌, refl, Time, List, [], ◌∷◌, ◌++◌, count_where-append, arith}
use devops_manager.Models.CommandHost.{CommandHost, CommandHostStatus}
use devops_manager.Models.Command.{Command}
use devops_manager.Models.Task.{Task}
use devops_manager.Models.Counting.{
  HostCounts, count_status, count_hosts, count_commands, with_host_counts, update_progress,
}
use devops_manager.TaskService.Tally.{count_of, count_statuses, same}
use devops_manager.TaskService.Tally.Laws.{
  IsGroupOrder, FailsOnlyBy, failures, is_failure, count_statuses-counter, count_statuses-failed,
}
use devops_manager.TaskService.Progress.{apply_counts, verdict}

-- The host rows that were loaded.
abbrev pub loaded_rows : List Command → List CommandHost
loaded_rows [] = []
loaded_rows (c ∷ cs) = c.command_hosts ++ loaded_rows cs

abbrev plus : HostCounts → List CommandHost → HostCounts
plus c rows = record {
  completed = c.completed + count_of CommandHostStatus.completed rows;
  failed = c.failed + failures rows;
  running = c.running + count_of CommandHostStatus.running rows;
}

count_hosts-plus : (rows : List CommandHost) (c : HostCounts) → count_hosts rows c ≡ plus c rows
unfolding count_hosts same
count_hosts-plus [] c = ground arith
count_hosts-plus (ch ∷ chs) c = ground (arith, count_hosts-plus chs (count_status ch.status c))

count_commands-plus :
    (cs : List Command) (c : HostCounts) → count_commands cs c ≡ plus c (loaded_rows cs)
unfolding count_commands
count_commands-plus [] c = ground arith
count_commands-plus (cmd ∷ cmds) c =
    rw
      (
        count_commands-plus cmds (count_hosts cmd.command_hosts c),
        count_hosts-plus cmd.command_hosts c,
        count_where-append (λ ch. same CommandHostStatus.completed ch.status) cmd.command_hosts
            (loaded_rows cmds),
        count_where-append (λ ch. same CommandHostStatus.running ch.status) cmd.command_hosts
            (loaded_rows cmds),
        count_where-append (λ ch. is_failure ch.status) cmd.command_hosts (loaded_rows cmds),
      )
      (ground arith)

-- Where the failures among the loaded rows are of one kind, none of them is canceled, and the database
-- gives each status one group, UpdateProgress sets the counters and the status that
-- updateTaskProgressInTransaction would set for the same rows.
pub update_progress-agrees :
    (order : List CommandHostStatus) (k : CommandHostStatus) (t : Task) (now : Time)
    → IsGroupOrder order
    → FailsOnlyBy (loaded_rows t.commands) k
    → count_of CommandHostStatus.canceled (loaded_rows t.commands) ≡ 0
    → let u = apply_counts now (count_statuses order (loaded_rows t.commands)) t t in
      ((update_progress now t).status ≡ u.status)
      × ((update_progress now t).completed_hosts ≡ u.completed_hosts)
      × ((update_progress now t).failed_hosts ≡ u.failed_hosts)
unfolding update_progress with_host_counts apply_counts verdict
update_progress-agrees order k t now once only no_cancel =
    let rows = loaded_rows t.commands in
    let zero_counts : HostCounts = record { completed = 0; failed = 0; running = 0 } in
    let done = count_statuses-counter order rows once CommandHostStatus.completed refl in
    let busy = count_statuses-counter order rows once CommandHostStatus.running refl in
    let canceled = count_statuses-counter order rows once CommandHostStatus.canceled refl in
    let failed = count_statuses-failed order rows once k only in
    (
      rw (count_commands-plus t.commands zero_counts)
          (ground (arith, done, busy, canceled, failed, no_cancel)),
      rw (count_commands-plus t.commands zero_counts)
          (ground (arith, done, busy, canceled, failed, no_cancel)),
      rw (count_commands-plus t.commands zero_counts)
          (ground (arith, done, busy, canceled, failed, no_cancel)),
    )
