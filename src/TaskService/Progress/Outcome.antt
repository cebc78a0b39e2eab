-- ===== src/TaskService/Progress/Outcome.antt =====
-- The verdict on a task, against the rows of its hosts.
use devops_manager.Prelude.{
  ℕ, ◌+◌, ◌≡◌, ◌≢◌, ◌<◌, refl, true, false, List, [], ◌∷◌, if◌then◌else◌, ◌==◌, ◌&&◌, length,
  count_where, arith, Time, some, ◌∙◌,
}
use devops_manager.Models.CommandHost.{CommandHost, CommandHostStatus, is_unfinished}
use devops_manager.Models.Task.{Task, TaskStatus}
use devops_manager.TaskService.Tally.{count_of, same, count_statuses}
use devops_manager.TaskService.Tally.Laws.{
  IsGroupOrder, FailsOnlyBy, failures, is_failure, count_statuses-counter, count_statuses-failed,
  count_statuses-failed_short,
}
use devops_manager.TaskService.Progress.{apply_counts, verdict, finished, under_way, unchanged}

abbrev pub unfinished : List CommandHost → ℕ
unfinished rows = count_where (λ ch. is_unfinished ch.status) rows

-- Every row is unfinished, completed, failed or canceled.
rows-split :
    (rows : List CommandHost)
    → unfinished rows
        + count_of CommandHostStatus.completed rows
        + failures rows
        + count_of CommandHostStatus.canceled rows
      ≡ length rows
unfolding same is_unfinished
rows-split [] = refl
rows-split (ch ∷ rows) = ground (arith, rows-split rows)

-- The status that a task with these rows should end with.
abbrev pub final_status : List CommandHost → TaskStatus
final_status rows =
    if count_of CommandHostStatus.canceled rows == 0
    then (if failures rows == 0 then TaskStatus.completed else TaskStatus.failed)
    else TaskStatus.canceled

module _ (order : List CommandHostStatus) (rows : List CommandHost)
    (once : IsGroupOrder order) where
  -- Where all failures have one status, and the task counts its rows: it is finished if no host is
  -- pending or running, with the status that its hosts call for; else it is under way if a host
  -- runs or is completed, and unchanged if not.
  pub verdict-finished :
      (k : CommandHostStatus)
      → FailsOnlyBy rows k
      → verdict (count_statuses order rows) (length rows) ≡ (
          if unfinished rows == 0
          then finished (final_status rows)
          else if count_of CommandHostStatus.running rows == 0
              && count_of CommandHostStatus.completed rows == 0
          then unchanged
          else under_way)
  unfolding verdict
  verdict-finished k only = ground (
    arith,
    rows-split rows,
    count_statuses-failed order rows once k only,
    count_statuses-counter order rows once CommandHostStatus.completed refl,
    count_statuses-counter order rows once CommandHostStatus.canceled refl,
    count_statuses-counter order rows once CommandHostStatus.running refl,
  )

  -- Where hosts have failed in two ways, the task is not finished, though every host may be.
  pub verdict-mixed_failures :
      (j k : CommandHostStatus) (s : TaskStatus)
      → is_failure j ≡ true
      → is_failure k ≡ true
      → same j k ≡ false
      → 0 < count_of j rows
      → 0 < count_of k rows
      → verdict (count_statuses order rows) (length rows) ≢ finished s
  unfolding verdict
  verdict-mixed_failures j k s hj hk differ pj pk = ground (
    arith,
    rows-split rows,
    count_statuses-failed_short order rows once j k hj hk differ pj pk,
    count_statuses-counter order rows once CommandHostStatus.completed refl,
    count_statuses-counter order rows once CommandHostStatus.canceled refl,
  )

-- A task whose hosts are all through is given its counts, its status and its end.
pub apply_counts-finished :
    (now : Time) (t : Task) (order : List CommandHostStatus) (rows : List CommandHost)
    → IsGroupOrder order
    → (k : CommandHostStatus) → t.total_hosts ≡ length rows
    → unfinished rows ≡ 0
    → FailsOnlyBy rows k
    → apply_counts now (count_statuses order rows) t t ≡ record t {
      completed_hosts = count_of CommandHostStatus.completed rows;
      failed_hosts = failures rows;
      updated_at = now;
      status = final_status rows;
      finished_at = some now;
    }
unfolding apply_counts
apply_counts-finished now t order rows once k total settled only =
    let finishes : verdict (count_statuses order rows) t.total_hosts
        ≡ finished (final_status rows) =
      rw total (verdict-finished order rows once k only ∙ rw settled) in
    rw (finishes, apply_counts)
      (rw (
        count_statuses-counter order rows once CommandHostStatus.completed refl,
        count_statuses-failed order rows once k only,
      ))
