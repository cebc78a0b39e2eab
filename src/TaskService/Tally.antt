-- ===== src/TaskService/Tally.antt =====
-- The counts by status in updateTaskProgressInTransaction, and in GetTaskStatus: a GROUP BY
-- query, and the loop with the switch over its rows.
pub mod Laws
use devops_manager.Prelude.{
  ℕ, ◌+◌, Bool, true, false, List, [], ◌∷◌, if◌then◌else◌, ◌==◌, count_where,
}
use devops_manager.Models.CommandHost.{CommandHost, CommandHostStatus}

pub record Counts : Type 0 where
  pub completed : ℕ
  pub failed : ℕ
  pub running : ℕ
  pub pending : ℕ
  pub canceled : ℕ

abbrev pub no_counts : Counts
no_counts = record { completed = 0; failed = 0; running = 0; pending = 0; canceled = 0 }

unfoldable pub same : CommandHostStatus → CommandHostStatus → Bool
same CommandHostStatus.pending CommandHostStatus.pending = true
same CommandHostStatus.running CommandHostStatus.running = true
same CommandHostStatus.failed CommandHostStatus.failed = true
same CommandHostStatus.exec_failed CommandHostStatus.exec_failed = true
same CommandHostStatus.timeout CommandHostStatus.timeout = true
same CommandHostStatus.canceled CommandHostStatus.canceled = true
same CommandHostStatus.completed CommandHostStatus.completed = true
same _ _ = false

-- How many rows have a status.
abbrev pub count_of : CommandHostStatus → List CommandHost → ℕ
count_of k rows = count_where (λ ch. same k ch.status) rows

-- `SELECT status, COUNT(*) … GROUP BY status`: a group for each status that occurs.
unfoldable pub groups : List CommandHostStatus → List CommandHost → List (CommandHostStatus × ℕ)
groups [] rows = []
groups (k ∷ ks) rows =
    if count_of k rows == 0 then groups ks rows else (k, count_of k rows) ∷ groups ks rows

-- The switch: an assignment, also where a counter has been assigned before.
unfoldable pub assign : CommandHostStatus → ℕ → Counts → Counts
assign CommandHostStatus.completed n c = record c { completed = n }
assign CommandHostStatus.failed n c = record c { failed = n }
assign CommandHostStatus.exec_failed n c = record c { failed = n }
assign CommandHostStatus.timeout n c = record c { failed = n }
assign CommandHostStatus.running n c = record c { running = n }
assign CommandHostStatus.pending n c = record c { pending = n }
assign CommandHostStatus.canceled n c = record c { canceled = n }

unfoldable pub tally : List (CommandHostStatus × ℕ) → Counts → Counts
unfolding assign
tally [] c = c
tally ((k, n) ∷ gs) c = tally gs (assign k n c)

-- The counts that a task's rows are given.
unfoldable pub count_statuses : List CommandHostStatus → List CommandHost → Counts
count_statuses order rows = tally (groups order rows) no_counts
