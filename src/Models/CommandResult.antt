-- ===== src/Models/CommandResult.antt =====
-- api/models/command_result.go: a row of the table command_results and its conversions.
-- `ProtoResult` is the message CommandResult of the protobuf package, as the conversions read it.
use devops_manager.Prelude.{ℕ, ℤ, String, Bool, Option, none, some, Time, is_zero, if◌then◌else◌}
use devops_manager.Models.CommandHost.{CommandHost, CommandHostStatus, execution_time}

pub record CommandResult : Type 0 where
  pub command_id : ℕ
  pub host_id : ℕ
  pub stdout : String
  pub stderr : String
  pub exit_code : ℤ
  pub started_at : Option Time
  pub finished_at : Option Time
  pub error_message : String
  pub execution_time : Option ℤ
  pub created_at : Time
  pub updated_at : Time

pub record ProtoResult : Type 0 where
  pub command_id : ℕ
  pub host_id : ℕ
  pub stdout : String
  pub stderr : String
  pub exit_code : ℤ
  pub started_at : Option Time
  pub finished_at : Option Time
  pub error_message : String

unfoldable pub to_protobuf : CommandResult → ProtoResult
to_protobuf cr = record {
  command_id = cr.command_id;
  host_id = cr.host_id;
  stdout = cr.stdout;
  stderr = cr.stderr;
  exit_code = cr.exit_code;
  started_at = cr.started_at;
  finished_at = cr.finished_at;
  error_message = cr.error_message;
}

-- What a field keeps where the message leaves it unset.
abbrev pub or_else {ℓ} : {A : Type ℓ} → Option A → Option A → Option A
or_else (some a) old = some a
or_else none old = old

-- The execution time is computed only where the message has a finish time, from the start time
-- that the result then has.
unfoldable pub computed_time : Option Time → Option Time → Option ℤ → Option ℤ
unfolding execution_time
computed_time none started old = old
computed_time (some f) started old = execution_time started (some f) old

unfoldable pub from_protobuf : CommandResult → ProtoResult → CommandResult
unfolding computed_time
from_protobuf cr m = record cr {
  command_id = m.command_id;
  host_id = m.host_id;
  stdout = m.stdout;
  stderr = m.stderr;
  exit_code = m.exit_code;
  error_message = m.error_message;
  started_at = or_else m.started_at cr.started_at;
  finished_at = or_else m.finished_at cr.finished_at;
  execution_time =
      computed_time m.finished_at (or_else m.started_at cr.started_at) cr.execution_time;
}

unfoldable pub is_success : CommandResult → Bool
is_success cr = is_zero cr.exit_code

-- The status that the times and the exit code of a result stand for.
unfoldable pub host_status : Option Time → Option Time → ℤ → CommandHostStatus
host_status started (some f) code =
    if is_zero code then CommandHostStatus.completed else CommandHostStatus.exec_failed
host_status (some s) none code = CommandHostStatus.running
host_status none none code = CommandHostStatus.pending

unfoldable pub to_command_host : CommandResult → CommandHost
unfolding host_status
to_command_host cr = record {
  command_id = cr.command_id;
  host_id = cr.host_id;
  status = host_status cr.started_at cr.finished_at cr.exit_code;
  stdout = cr.stdout;
  stderr = cr.stderr;
  exit_code = cr.exit_code;
  started_at = cr.started_at;
  finished_at = cr.finished_at;
  error_message = cr.error_message;
  execution_time = cr.execution_time;
  created_at = cr.created_at;
  updated_at = cr.updated_at;
}

unfoldable pub from_command_host : CommandHost → CommandResult
from_command_host ch = record {
  command_id = ch.command_id;
  host_id = ch.host_id;
  stdout = ch.stdout;
  stderr = ch.stderr;
  exit_code = ch.exit_code;
  started_at = ch.started_at;
  finished_at = ch.finished_at;
  error_message = ch.error_message;
  execution_time = ch.execution_time;
  created_at = ch.created_at;
  updated_at = ch.updated_at;
}
