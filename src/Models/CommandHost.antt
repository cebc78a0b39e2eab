-- ===== src/Models/CommandHost.antt =====
-- api/models/command_host.go: a row of the table commands_hosts, and its methods.
-- Identifiers are only compared, and stand as numbers. The primary key is the place in the table.
use devops_manager.Prelude.{
  ℕ, ℤ, pos, String, Bool, true, false, Option, some, Time, sub, milliseconds, is_zero,
}

-- `failed` is a command that could not be sent, `exec_failed` one that ran and failed.
pub data CommandHostStatus : Type 0 where
  pending running failed exec_failed timeout canceled completed : CommandHostStatus

pub record CommandHost : Type 0 where
  pub command_id : ℕ
  pub host_id : ℕ
  pub status : CommandHostStatus
  pub stdout : String
  pub stderr : String
  pub exit_code : ℤ
  pub started_at : Option Time
  pub finished_at : Option Time
  pub error_message : String
  pub execution_time : Option ℤ
  pub created_at : Time
  pub updated_at : Time

unfoldable pub is_completed : CommandHostStatus → Bool
is_completed CommandHostStatus.completed = true
is_completed CommandHostStatus.failed = true
is_completed CommandHostStatus.exec_failed = true
is_completed CommandHostStatus.timeout = true
is_completed CommandHostStatus.canceled = true
is_completed _ = false

unfoldable pub is_running : CommandHostStatus → Bool
is_running CommandHostStatus.running = true
is_running _ = false

unfoldable pub is_pending : CommandHostStatus → Bool
is_pending CommandHostStatus.pending = true
is_pending _ = false

-- The statuses that `status IN (?)` names in CancelTask and HandleAgentDisconnection.
unfoldable pub is_unfinished : CommandHostStatus → Bool
is_unfinished CommandHostStatus.pending = true
is_unfinished CommandHostStatus.running = true
is_unfinished _ = false

unfoldable pub is_success : CommandHost → Bool
is_success ch = elim ch.status [ CommandHostStatus.completed ↦ is_zero ch.exit_code | _ ↦ false ]

-- Zero unless both ends are set.
unfoldable pub duration : Option Time → Option Time → ℤ
duration (some s) (some f) = sub f s
duration _ _ = pos 0

-- The value that `UpdateExecutionTime` stores, given the value before.
unfoldable pub execution_time : Option Time → Option Time → Option ℤ → Option ℤ
execution_time (some s) (some f) before = some (milliseconds (sub f s))
execution_time _ _ before = before

unfoldable pub update_execution_time : CommandHost → CommandHost
unfolding execution_time
update_execution_time ch = record ch {
  execution_time = execution_time ch.started_at ch.finished_at ch.execution_time;
}
