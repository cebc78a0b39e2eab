-- ===== src/Batch/Queue.antt =====
-- QueueBatchUpdate and startBatchUpdateProcessor of server/pkg/service/task_service.go: updates wait in
-- a channel, from which the loop collects them into batches.
use devops_manager.Prelude.{
  ℕ, ℤ, ◌≡◌, ◌<◌, refl, String, Option, Time, List, [], ◌∷◌, ◌++◌, ltb, leb, length, if◌then◌else◌,
  arith,
}
use devops_manager.Models.CommandHost.{CommandHostStatus}
use devops_manager.Models.Command.{CommandStatus}
use devops_manager.Db.{Session, attempt}
use devops_manager.Batch.{
  CommandHostStatusUpdate, CommandStatusUpdate, batch_update_command_host_status,
  batch_update_command_status,
}

pub record BatchCommandHostUpdate : Type 0 where
  pub command_id : ℕ
  pub host_id : ℕ
  pub status : CommandHostStatus
  pub finished_at : Option Time
  pub error_message : String
  pub exit_code : Option ℤ
  pub execution_time : Option ℤ

pub record BatchCommandUpdate : Type 0 where
  pub command_id : ℕ
  pub status : CommandStatus
  pub finished_at : Option Time
  pub error_msg : String
  pub exit_code : Option ℤ

pub data BatchUpdate : Type 0 where
  command_host : BatchCommandHostUpdate → BatchUpdate
  command : BatchCommandUpdate → BatchUpdate

-- The identifier of the host is left out.
unfoldable pub to_host_update : BatchCommandHostUpdate → CommandHostStatusUpdate
to_host_update u = record {
  command_id = u.command_id;
  status = u.status;
  finished_at = u.finished_at;
  error_message = u.error_message;
  exit_code = u.exit_code;
  execution_time = u.execution_time;
}

unfoldable pub to_command_update : BatchCommandUpdate → CommandStatusUpdate
to_command_update u = record {
  command_id = u.command_id;
  status = u.status;
  finished_at = u.finished_at;
  error_msg = u.error_msg;
  exit_code = u.exit_code;
}

-- The channel, and the variables of the loop.
pub record Processor : Type 0 where
  pub batch_update_queue : List BatchUpdate
  pub command_host_updates : List CommandHostStatusUpdate
  pub command_updates : List CommandStatusUpdate

-- Both batches are below a size.
abbrev pub IsBounded : ℕ → Processor → Type 0
IsBounded size p = (length p.command_host_updates < size) × (length p.command_updates < size)

module _
    (shuffle_hosts : List (List ℕ × CommandHostStatusUpdate)
      → List (List ℕ × CommandHostStatusUpdate))
    (shuffle_commands : List (List ℕ × CommandStatusUpdate)
      → List (List ℕ × CommandStatusUpdate)) where
  -- Errors are only logged.
  unfoldable pub process_batch_command_host_updates :
      List CommandHostStatusUpdate → Time → Session → Session
  unfolding batch_update_command_host_status
  process_batch_command_host_updates us now s =
      (attempt (batch_update_command_host_status shuffle_hosts us now) s).1

  unfoldable pub process_batch_command_updates : List CommandStatusUpdate → Time → Session → Session
  unfolding batch_update_command_status
  process_batch_command_updates us now s =
      (attempt (batch_update_command_status shuffle_commands us now) s).1

  abbrev pub process_now : BatchUpdate → Time → Session → Session
  process_now (command_host u) now s =
      process_batch_command_host_updates (to_host_update u ∷ []) now s
  process_now (command u) now s = process_batch_command_updates (to_command_update u ∷ []) now s

  -- Where the channel is full, the update is processed at once.
  unfoldable pub queue_batch_update :
      (capacity : ℕ) → BatchUpdate → Time → Processor × Session → Processor × Session
  unfolding process_batch_command_host_updates process_batch_command_updates to_host_update
      to_command_update
  queue_batch_update capacity u now (p, s) =
      if ltb (length p.batch_update_queue) capacity
      then (record p { batch_update_queue = p.batch_update_queue ++ u ∷ [] }, s)
      else (p, process_now u now s)

  abbrev pub collected : BatchUpdate → Processor → Processor
  collected (command_host u) p = record p {
    command_host_updates = p.command_host_updates ++ to_host_update u ∷ [];
  }
  collected (command u) p = record p {
    command_updates = p.command_updates ++ to_command_update u ∷ [];
  }

  -- The updates that make a batch of `size` or more are processed.
  unfoldable pub flush_hosts : (size : ℕ) → Time → Processor × Session → Processor × Session
  unfolding process_batch_command_host_updates
  flush_hosts size now (p, s) =
      if leb size (length p.command_host_updates)
      then (
        record p { command_host_updates = [] },
        process_batch_command_host_updates p.command_host_updates now s,
      )
      else (p, s)

  unfoldable pub flush_commands : (size : ℕ) → Time → Processor × Session → Processor × Session
  unfolding process_batch_command_updates
  flush_commands size now (p, s) =
      if leb size (length p.command_updates)
      then (
        record p { command_updates = [] },
        process_batch_command_updates p.command_updates now s,
      )
      else (p, s)

  -- A round of the loop on an update, where one waits.
  unfoldable pub receive : (batch_size : ℕ) → Time → Processor × Session → Processor × Session
  unfolding flush_hosts flush_commands to_host_update to_command_update
  receive batch_size now (p, s) = elim p.batch_update_queue [
    | [] ↦ (p, s)
    | u ∷ us ↦
        flush_commands batch_size now
          (flush_hosts batch_size now (collected u (record p { batch_update_queue = us }), s))
  ]

  -- A round of the loop on a tick.
  unfoldable pub tick : Time → Processor × Session → Processor × Session
  unfolding flush_hosts flush_commands
  tick now ps = flush_commands 1 now (flush_hosts 1 now ps)

  flush-IsBounded :
      (size : ℕ) (now : Time) (p : Processor) (s : Session)
      → 0 < size
      → IsBounded size (flush_commands size now (flush_hosts size now (p, s))).0
  unfolding flush_hosts flush_commands
  flush-IsBounded size now p s some_room = (ground (arith, some_room), ground (arith, some_room))

  receive-waiting :
      (batch_size : ℕ) (now : Time) (p : Processor) (s : Session) (q : List BatchUpdate)
      → p.batch_update_queue ≡ q
      → 0 < batch_size
      → IsBounded batch_size p
      → IsBounded batch_size (receive batch_size now (p, s)).0
  unfolding receive
  receive-waiting batch_size now p s [] e some_room bounded = rw (e, receive) bounded
  receive-waiting batch_size now p s (u ∷ us) e some_room bounded =
      rw (e, receive)
        (flush-IsBounded batch_size now (collected u (record p { batch_update_queue = us })) s
          some_room)

  -- With a batch size above 0, the loop never goes into a round with a batch that has reached the
  -- size: each round on an update and each tick leaves both batches below it.
  pub receive-IsBounded :
      (batch_size : ℕ) (now : Time) (p : Processor) (s : Session)
      → 0 < batch_size
      → IsBounded batch_size p
      → IsBounded batch_size (receive batch_size now (p, s)).0
        × IsBounded batch_size (tick now (p, s)).0
  unfolding receive tick
  receive-IsBounded batch_size now p s some_room bounded =
      let empty = flush-IsBounded 1 now p s (omega arith) in
      (
        receive-waiting batch_size now p s p.batch_update_queue refl some_room bounded,
        (omega (arith, empty.0, some_room), omega (arith, empty.1, some_room)),
      )
