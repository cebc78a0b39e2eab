-- ===== src/Models/CommandContent.antt =====
-- api/models/command.go: a command as the message CommandContent of the protobuf package, and back. A
-- duration is a number of nanoseconds.
use devops_manager.Prelude.{
  ℕ, ℤ, String, Option, none, some, Time, is_positive, of_seconds, whole_seconds, if◌then◌else◌,
}
use devops_manager.Models.Command.{Command, CommandStatus}

pub record CommandContent : Type 0 where
  pub command_id : ℕ
  pub host_id : ℕ
  pub command : String
  pub parameters : String
  pub timeout : Option ℤ
  pub created_at : Option Time

unfoldable pub to_protobuf_content : Command → CommandContent
unfolding of_seconds
to_protobuf_content c = record {
  command_id = c.command_id;
  host_id = c.host_id;
  command = c.command;
  parameters = c.parameters;
  timeout = (if is_positive c.timeout then some (of_seconds c.timeout) else none);
  created_at = some c.created_at;
}

-- The timeout and the creation time, where the message has them.
unfoldable pub content_timeout : Option ℤ → ℤ → ℤ
unfolding whole_seconds
content_timeout none old = old
content_timeout (some d) old = whole_seconds d

unfoldable pub content_time : Option Time → Time → Time
content_time none old = old
content_time (some t) old = t

unfoldable pub from_protobuf_content : Command → CommandContent → Command
unfolding content_timeout content_time
from_protobuf_content c m = record c {
  command_id = m.command_id;
  host_id = m.host_id;
  command = m.command;
  status = CommandStatus.pending;
  parameters = m.parameters;
  timeout = content_timeout m.timeout c.timeout;
  created_at = content_time m.created_at c.created_at;
}
