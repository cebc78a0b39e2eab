-- ===== src/Models/RoundTrip.antt =====
-- The conversions of a result to a message or a host row, and of a command to its content, and back.
use devops_manager.Prelude.{
  ℕ, ◌≡◌, ◌<◌, ◌≤◌, ◌*◌, refl, ap, pos, none, max_int64, of_seconds, whole_seconds, to_int64_small,
  arith,
}
use devops_manager.Models.CommandResult.{
  CommandResult, ProtoResult, to_protobuf, from_protobuf, to_command_host, from_command_host,
}
use devops_manager.Models.Command.{Command, CommandStatus}
use devops_manager.Models.CommandContent.{
  to_protobuf_content, from_protobuf_content, content_timeout, content_time,
}

-- A message that is read into a result with no times, and written again, is the same message; and a
-- result that is made a host row, and a result again, is the same result.
pub to_protobuf-from_protobuf :
    (fresh r : CommandResult) (m : ProtoResult)
    → fresh.started_at ≡ none
    → fresh.finished_at ≡ none
    → (to_protobuf (from_protobuf fresh m) ≡ m) × (from_command_host (to_command_host r) ≡ r)
unfolding to_protobuf from_protobuf to_command_host from_command_host
to_protobuf-from_protobuf fresh r m h k = (ground arith, refl)

whole_seconds-of_seconds :
    (seconds : ℕ)
    → seconds * 1000000000 ≤ max_int64
    → whole_seconds (of_seconds (pos seconds)) ≡ pos seconds
unfolding of_seconds whole_seconds
whole_seconds-of_seconds seconds within =
    rw (to_int64_small (seconds * 1000000000) within, whole_seconds) (ap pos (omega arith))

-- A command whose timeout is above 0 and within the range of int64 in nanoseconds gets back, from the
-- content that it is sent as, its identifiers, its text, its parameters, its timeout and its time of
-- creation, whatever it is read into; and its status is pending.
pub from_protobuf_content-to_protobuf_content :
    (fresh c : Command) (seconds : ℕ)
    → c.timeout ≡ pos seconds
    → 0 < seconds
    → seconds * 1000000000 ≤ max_int64
    → let d = from_protobuf_content fresh (to_protobuf_content c) in
      (d.command_id ≡ c.command_id)
      × (d.host_id ≡ c.host_id)
      × (d.command ≡ c.command)
      × (d.parameters ≡ c.parameters)
      × (d.timeout ≡ c.timeout)
      × (d.created_at ≡ c.created_at)
      × (d.status ≡ CommandStatus.pending)
unfolding from_protobuf_content to_protobuf_content content_timeout content_time of_seconds
    whole_seconds
from_protobuf_content-to_protobuf_content fresh c seconds e above within = (
  refl,
  refl,
  refl,
  refl,
  rw e (ground (arith, above, whole_seconds-of_seconds seconds within)),
  refl,
  refl,
)
