-- ===== src/Models/Command.antt =====
-- api/models/command.go: a row of the table commands, and its methods. `deleted_at` is gorm's mark
-- of a soft deletion. `command_hosts` is filled by GetTask, and is no column.
use devops_manager.Prelude.{
  ℕ, ℤ, String, Bool, true, false, Option, none, some, Time, List, is_zero, if◌then◌else◌,
}
use devops_manager.Models.CommandHost.{CommandHost}
use devops_manager.Models.CommandResult.{ProtoResult, or_else}

pub data CommandStatus : Type 0 where
  pending running completed failed timeout canceled : CommandStatus

pub record Command : Type 0 where
  pub command_id : ℕ
  pub task_id : Option ℕ
  pub host_id : ℕ
  pub command : String
  pub parameters : String
  pub timeout : ℤ
  pub status : CommandStatus
  pub stdout : String
  pub stderr : String
  pub exit_code : Option ℤ
  pub started_at : Option Time
  pub finished_at : Option Time
  pub error_msg : String
  pub created_at : Time
  pub updated_at : Time
  pub deleted_at : Option Time
  pub command_hosts : List CommandHost

unfoldable pub is_completed : CommandStatus → Bool
is_completed CommandStatus.completed = true
is_completed CommandStatus.failed = true
is_completed CommandStatus.timeout = true
is_completed CommandStatus.canceled = true
is_completed _ = false

unfoldable pub is_running : CommandStatus → Bool
is_running CommandStatus.running = true
is_running _ = false

unfoldable pub is_pending : CommandStatus → Bool
is_pending CommandStatus.pending = true
is_pending _ = false

-- The statuses that `status IN (?)` names in CancelTask and HandleAgentDisconnection.
unfoldable pub is_unfinished : CommandStatus → Bool
is_unfinished CommandStatus.pending = true
is_unfinished CommandStatus.running = true
is_unfinished _ = false

-- The statuses that `status IN (?)` names in RetryFailedCommand.
unfoldable pub is_retryable : CommandStatus → Bool
is_retryable CommandStatus.failed = true
is_retryable CommandStatus.timeout = true
is_retryable _ = false

-- The status after UpdateFromProtobufResult, from the status before.
unfoldable pub status_after : CommandStatus → Option Time → Option Time → ℤ → CommandStatus
status_after old started (some f) code =
    if is_zero code then CommandStatus.completed else CommandStatus.failed
status_after old (some s) none code = CommandStatus.running
status_after old none none code = old

unfoldable pub update_from_protobuf_result : Command → ProtoResult → Command
unfolding status_after
update_from_protobuf_result c m = record c {
  stdout = m.stdout;
  stderr = m.stderr;
  error_msg = m.error_message;
  exit_code = some m.exit_code;
  started_at = or_else m.started_at c.started_at;
  finished_at = or_else m.finished_at c.finished_at;
  status = status_after c.status m.started_at m.finished_at m.exit_code;
}
