-- ===== src/Dispatch/Streams.antt =====
-- What the end of a stream and a send that fails take from the pool.
use devops_manager.Prelude.{
  ℕ, ◌≡◌, Bool, true, false, Option, none, some, Time, List, [], ◌∷◌, ◌==◌, ◌&&◌, All,
  if◌then◌else◌, arith, Option-cases, Bool-cases, inl, inr, All-update_where,
}
use devops_manager.Models.CommandHost.{CommandHost, CommandHostStatus}
use devops_manager.Models.CommandHost as Hosts
use devops_manager.Models.CommandContent.{CommandContent}
use devops_manager.Models.Command.{Command}
use devops_manager.Db.{Db, Session, Message, quiet}
use devops_manager.ConnectionPool.{
  AgentConnection, ConnectionPool, find_connection, put, add_connection, get_connection,
  update_last_ping,
}
use devops_manager.TaskService.Failures.{handle_host_connection_change}
use devops_manager.Dispatch.{
  Controller, Stream, CommandMessage, Sending, opened, on_message, on_result, on_content, on_closed,
  greeted, pinged, register_agent, send_command_to_agent, connection_changed,
}
use devops_manager.Dispatch.Pool.{get-removed, on_message-IsSound}
use devops_manager.Dispatch.History.{Event, after, after-IsSound}

find-put :
    (id : ℕ) (c : AgentConnection) (cs : List AgentConnection)
    → find_connection id (put c cs) ≡ (if c.agent_id == id then some c else find_connection id cs)
unfolding put
find-put id c [] = ground arith
find-put id c (d ∷ ds) = ground (arith, find-put id c ds)

-- The stream on which the pool reaches an agent.
abbrev pub stream_of : Option AgentConnection → Option ℕ
stream_of none = none
stream_of (some conn) = some conn.stream

abbrev added : (id stream now context : ℕ) → AgentConnection
added id stream now context = record {
  agent_id = id;
  stream = stream;
  connected_at = now;
  last_ping = now;
  is_active = true;
  context = context;
}

get-added :
    (id stream now : ℕ) (p : ConnectionPool)
    → stream_of (get_connection id (update_last_ping id now (add_connection id stream now p)))
      ≡ some stream
unfolding get_connection update_last_ping add_connection
get-added id stream now p =
    let c = added id stream now p.contexts in
    ground (arith, find-put id c p.connections, find-put id c (put c p.connections))

-- A heartbeat on a new stream, which registers the agent.
abbrev pub heartbeat : CommandContent → CommandMessage
heartbeat m = record { command_result = none; command_content = some m }

-- Whatever has happened to the controller: where an agent that has one stream opens another, its
-- first heartbeat there makes the new stream the one on which commands are sent. When the old stream
-- then ends, GetConnection finds no connection of the agent any more.
pub on_closed-drops_newer :
    (session : Session) (es : List (Event × Time)) (old : Stream) (stream : ℕ) (m : CommandContent)
    (now later : Time)
    → (old.agent_id == 0) ≡ false
    → m.host_id ≡ old.agent_id
    → let c = (on_message (heartbeat m) (opened stream) now (after session es)).1 in
      (stream_of (get_connection old.agent_id c.pool) ≡ some stream)
      × (get_connection old.agent_id (on_closed old later c).pool ≡ none)
unfolding on_closed
on_closed-drops_newer session es old stream m now later named same_agent =
    let before = after session es in
    let c = (on_message (heartbeat m) (opened stream) now before).1 in
    (
      rw (← same_agent) (
          unfold on_message on_result on_content greeted pinged register_agent in
          get-added m.host_id stream now before.pool),
      rw (named, on_closed)
          (get-removed old.agent_id c.pool (
            on_message-IsSound (heartbeat m) (opened stream) now before
              (after-IsSound session es))),
    )

running_lost :
    (id : ℕ) (now : Time) (db : Db) (disp : Bool) (order : List CommandHostStatus)
    (out : List Message)
    → All
        (λ ch. ch.host_id == id && Hosts.is_running ch.status ≡ false)
        (connection_changed id false now (quiet db disp order out)).db.command_hosts
unfolding connection_changed handle_host_connection_change Hosts.is_running
running_lost id now db disp order out =
    All-update_where (λ ch. ch.host_id == id && Hosts.is_running ch.status ≡ false)
      (λ ch. ch.host_id == id && Hosts.is_running ch.status)
      (λ ch. record ch {
        status = CommandHostStatus.failed;
        error_message = "Host connection lost";
        updated_at = now;
      })
      db.command_hosts (λ ch. ground arith)

-- Where a send to an agent fails and no statement does, the pool has no connection of the agent any
-- more, and none of its host rows is running.
pub send_command_to_agent-lost :
    (session : Session) (es : List (Event × Time)) (sends : ℕ → Bool) (id : ℕ) (command : Command)
    (now : Time) (db : Db) (disp : Bool) (order : List CommandHostStatus) (out : List Message)
    → let c : Controller = record {
      pool = (after session es).pool;
      session = quiet db disp order out;
    } in
      (send_command_to_agent sends id command now c).0 ≡ Sending.send_failed
      → (get_connection id (send_command_to_agent sends id command now c).1.pool ≡ none)
        × All
            (λ ch. ch.host_id == id && Hosts.is_running ch.status ≡ false)
            (send_command_to_agent sends id command now c).1.session.db.command_hosts
unfolding send_command_to_agent
send_command_to_agent-lost session es sends id command now db disp order out failed =
    let p : ConnectionPool = (after session es).pool in
    elim (Option-cases (get_connection id p)) [
      | inl e ↦ cc (rw (e, send_command_to_agent) at failed)
      | inr (conn, e) ↦ elim (Bool-cases (sends conn.stream)) [
        | inl fine ↦ cc (rw (e, fine, send_command_to_agent) at failed)
        | inr fails ↦
            rw (e, send_command_to_agent)
              (rw fails (
                get-removed id p (after-IsSound session es),
                running_lost id now db disp order out,
              ))
      ]
    ]
