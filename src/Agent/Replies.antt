-- ===== src/Agent/Replies.antt =====
-- handleCommand of agent/pkg/controller/grpc_task_controller.go: what the agent answers to a command.
pub mod Silent
use devops_manager.Prelude.{
  ℕ, ℤ, pos, negsuc, String, Bool, true, false, Option, none, some, ltb, ◌%◌, ◌-◌, if◌then◌else◌,
}
use devops_manager.Models.CommandResult.{ProtoResult}
use devops_manager.Models.CommandContent.{CommandContent}
use devops_manager.Agent.Tasks.{
  TaskExecution, CommandResult, Awaited, gives, task_canceled, task_timeout, Refusal,
}

-- How ExecuteTask ends for its caller: refused, or as its wait does. `text` is the error's message.
pub data Executed : Type 0 where
  result : CommandResult → Executed
  error : (text : String) → Executed

-- What the wait of ExecuteTask gives its caller.
unfoldable pub executed : Awaited → Executed
executed (gives r) = result r
executed task_canceled = error "task canceled"
executed task_timeout = error "task timeout"

-- `int32(n)`
unfoldable pub to_int32 : ℤ → ℤ
to_int32 (pos n) =
    if ltb (n % 4294967296) 2147483648
    then pos (n % 4294967296)
    else negsuc (4294967295 - n % 4294967296)
to_int32 (negsuc n) =
    if ltb (n % 4294967296) 2147483648
    then negsuc (n % 4294967296)
    else pos (4294967295 - n % 4294967296)

-- The reply. Its times are not set.
unfoldable pub reply : CommandContent → Executed → ProtoResult
unfolding to_int32
reply cmd (error text) = record {
  command_id = cmd.command_id;
  host_id = cmd.host_id;
  stdout = "";
  stderr = text;
  exit_code = negsuc 0;
  started_at = none;
  finished_at = none;
  error_message = text;
}
reply cmd (result r) = record {
  command_id = cmd.command_id;
  host_id = cmd.host_id;
  stdout = r.stdout;
  stderr = r.stderr;
  exit_code = to_int32 r.exit_code;
  started_at = none;
  finished_at = none;
  error_message = r.error;
}

-- ConvertToProtobuf of an execution; its times are not set either.
unfoldable pub convert_to_protobuf : TaskExecution → ProtoResult
unfolding to_int32
convert_to_protobuf e = elim e.result [
  | none ↦ record {
    command_id = e.task_id;
    host_id = 0;
    stdout = "";
    stderr = "";
    exit_code = pos 0;
    started_at = none;
    finished_at = none;
    error_message = "";
  }
  | some r ↦ record {
    command_id = e.task_id;
    host_id = 0;
    stdout = r.stdout;
    stderr = r.stderr;
    exit_code = to_int32 r.exit_code;
    started_at = none;
    finished_at = none;
    error_message = r.error;
  }
]

-- `panics` is the dereference of the nil `result` in the call of LogGRPCResponse.
pub data Ending : Type 0 where
  returns panics : Ending

unfoldable pub handle_command :
    (sends : Bool) → CommandContent → Executed → Option ProtoResult × Ending
unfolding reply
handle_command false cmd x = (none, returns)
handle_command true cmd (result r) = (some (reply cmd (result r)), returns)
handle_command true cmd (error text) = (some (reply cmd (error text)), panics)
