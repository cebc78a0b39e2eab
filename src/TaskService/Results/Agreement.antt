-- ===== src/TaskService/Results/Agreement.antt =====
-- The three places that derive a status from a result's times and exit code.
use devops_manager.Prelude.{◌≡◌, none, arith}
use devops_manager.Models.CommandHost.{CommandHostStatus}
use devops_manager.Models.CommandResult.{
  CommandResult, ProtoResult, from_protobuf, to_command_host, host_status,
}
use devops_manager.Models.Command.{Command, update_from_protobuf_result, status_after}
use devops_manager.TaskService.Results.{reported_status, reported_host_status}

-- For a message that is read into a result with no times, HandleCommandResult sets a command's
-- status as UpdateFromProtobufResult does, and the status of a pending host row as ToCommandHost does.
pub reported-agree :
    (fresh : CommandResult) (m : ProtoResult) (c : Command)
    → fresh.started_at ≡ none
    → fresh.finished_at ≡ none
    → (reported_status (from_protobuf fresh m) c.status ≡ (update_from_protobuf_result c m).status)
      × (reported_host_status (from_protobuf fresh m) CommandHostStatus.pending
          ≡ (to_command_host (from_protobuf fresh m)).status)
unfolding reported_status reported_host_status from_protobuf to_command_host host_status
    update_from_protobuf_result status_after
reported-agree fresh m c h k = (ground arith, ground arith)
