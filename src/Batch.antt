-- ===== src/Batch.antt =====
-- The batches of status updates: BatchUpdateCommandHostStatus and BatchUpdateCommandStatus of
-- server/pkg/service/database_optimizer.go, and the loop and the queue that fill them in
-- server/pkg/service/task_service.go. A key of the groups joins a status and a text by a sign that no
-- status ends at, so that it stands for the pair. The groups are run in the order that Go gives a map,
-- which is the argument `shuffle`. The statuses that the queue is given are those of the rows.
pub mod Groups
pub mod Queue
use devops_manager.Prelude.{
  ℕ, ℤ, Bool, true, false, not, String, Option, none, some, Time, List, [], ◌∷◌, ◌++◌, ◌&&◌, ltb,
  leb, length, elem, if◌then◌else◌,
}
use text.Mathlib.Text.{◌==◌ as str_eq}
use devops_manager.Models.CommandHost.{CommandHost, CommandHostStatus}
use devops_manager.Models.Command.{Command, CommandStatus}
use devops_manager.Db.{
  Action, Session, write, return, attempt, ◌>>=◌, ◌>>◌, transaction, statement, update_commands,
  update_hosts,
}
use devops_manager.TaskService.Tally.{same}

pub record CommandHostStatusUpdate : Type 0 where
  pub command_id : ℕ
  pub status : CommandHostStatus
  pub finished_at : Option Time
  pub error_message : String
  pub exit_code : Option ℤ
  pub execution_time : Option ℤ

pub record CommandStatusUpdate : Type 0 where
  pub command_id : ℕ
  pub status : CommandStatus
  pub finished_at : Option Time
  pub error_msg : String
  pub exit_code : Option ℤ

unfoldable pub same_status : CommandStatus → CommandStatus → Bool
same_status CommandStatus.pending CommandStatus.pending = true
same_status CommandStatus.running CommandStatus.running = true
same_status CommandStatus.completed CommandStatus.completed = true
same_status CommandStatus.failed CommandStatus.failed = true
same_status CommandStatus.timeout CommandStatus.timeout = true
same_status CommandStatus.canceled CommandStatus.canceled = true
same_status _ _ = false

unfoldable pub same_host_key : CommandHostStatusUpdate → CommandHostStatusUpdate → Bool
unfolding same
same_host_key u v = same u.status v.status && str_eq u.error_message v.error_message

unfoldable pub same_command_key : CommandStatusUpdate → CommandStatusUpdate → Bool
unfolding same_status
same_command_key u v = same_status u.status v.status && str_eq u.error_msg v.error_msg

-- The two maps: of each key the identifiers that came with it, and the last update.
module _ {ℓ} {U : Type ℓ} (same_key : U → U → Bool) (id_of : U → ℕ) where
  unfoldable pub add_to_group : U → List (List ℕ × U) → List (List ℕ × U)
  add_to_group u [] = (id_of u ∷ [], u) ∷ []
  add_to_group u ((ids, v) ∷ gs) =
      if same_key v u then (ids ++ id_of u ∷ [], u) ∷ gs else (ids, v) ∷ add_to_group u gs

  unfoldable pub grouped : List U → List (List ℕ × U) → List (List ℕ × U)
  unfolding add_to_group
  grouped [] gs = gs
  grouped (u ∷ us) gs = grouped us (add_to_group u gs)

-- A field that is written only where the update has a value for it.
abbrev pub or_old {ℓ} : {A : Type ℓ} → Option A → A → A
or_old none old = old
or_old (some a) old = a

abbrev pub or_none {ℓ} : {A : Type ℓ} → Option A → Option A → Option A
or_none none old = old
or_none (some a) old = some a

abbrev pub or_text : String → String → String
or_text new old = if str_eq new "" then old else new

unfoldable pub host_fields : CommandHostStatusUpdate → Time → CommandHost → CommandHost
host_fields u now ch = record ch {
  status = u.status;
  updated_at = now;
  finished_at = or_none u.finished_at ch.finished_at;
  error_message = or_text u.error_message ch.error_message;
  exit_code = or_old u.exit_code ch.exit_code;
  execution_time = or_none u.execution_time ch.execution_time;
}

unfoldable pub command_fields : CommandStatusUpdate → Time → Command → Command
command_fields u now c = record c {
  status = u.status;
  updated_at = now;
  finished_at = or_none u.finished_at c.finished_at;
  error_msg = or_text u.error_msg c.error_msg;
  exit_code = or_none u.exit_code c.exit_code;
}

unfoldable pub write_host_groups :
    List (List ℕ × CommandHostStatusUpdate) → Time → Action (Unit {0})
unfolding statement host_fields
write_host_groups [] now = return tt
write_host_groups ((ids, u) ∷ gs) now = do
  write (update_hosts (λ ch. elem ch.command_id ids) (host_fields u now))
  write_host_groups gs now

unfoldable pub write_command_groups : List (List ℕ × CommandStatusUpdate) → Time → Action (Unit {0})
unfolding statement command_fields
write_command_groups [] now = return tt
write_command_groups ((ids, u) ∷ gs) now = do
  write (update_commands (λ c. elem c.command_id ids) (command_fields u now))
  write_command_groups gs now

unfoldable pub batch_update_command_host_status :
    (shuffle : List (List ℕ × CommandHostStatusUpdate) → List (List ℕ × CommandHostStatusUpdate))
    → List CommandHostStatusUpdate
    → Time
    → Action (Unit {0})
unfolding transaction write_host_groups grouped same_host_key
batch_update_command_host_status shuffle [] now = return tt
batch_update_command_host_status shuffle (u ∷ us) now =
    transaction
      (write_host_groups (shuffle (grouped same_host_key (λ v. v.command_id) (u ∷ us) [])) now)

unfoldable pub batch_update_command_status :
    (shuffle : List (List ℕ × CommandStatusUpdate) → List (List ℕ × CommandStatusUpdate))
    → List CommandStatusUpdate
    → Time
    → Action (Unit {0})
unfolding transaction write_command_groups grouped same_command_key
batch_update_command_status shuffle [] now = return tt
batch_update_command_status shuffle (u ∷ us) now =
    transaction (
      write_command_groups (shuffle (grouped same_command_key (λ v. v.command_id) (u ∷ us) [])) now)
