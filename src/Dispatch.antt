-- ===== src/Dispatch.antt =====
-- GRPCTaskController of server/pkg/controller/grpc_task_controller.go: the streams on which agents
-- connect, the commands that are sent on them, and what the task service is told. The identifier 0
-- stands for the empty text. Whether `Stream.Send` succeeds on a stream is the argument `sends`.
pub mod Pool
pub mod History
pub mod Streams
use devops_manager.Prelude.{
  ℕ, pos, Bool, true, false, Option, none, some, Time, List, [], ◌∷◌, ◌++◌, map, ◌==◌, ◌||◌, ◌-◌,
  if◌then◌else◌,
}
use devops_manager.Models.CommandResult.{CommandResult, ProtoResult, from_protobuf}
use devops_manager.Models.CommandContent.{CommandContent, to_protobuf_content}
use devops_manager.Models.Command.{Command}
use devops_manager.Db.{Session}
use devops_manager.ConnectionPool.{
  AgentConnection, ConnectionPool, new_connection_pool, add_connection, remove_connection,
  get_connection, get_active_connections, update_last_ping, stop,
}
use devops_manager.TaskService.Results.{handle_command_result}
use devops_manager.TaskService.Failures.{handle_host_connection_change}

-- The pool, and the state of the task service.
pub record Controller : Type 0 where
  pub pool : ConnectionPool
  pub session : Session

-- The variables of a call of ConnectForCommands.
pub record Stream : Type 0 where
  pub stream : ℕ
  pub agent_id : ℕ
  pub is_registered : Bool

pub record CommandMessage : Type 0 where
  pub command_result : Option ProtoResult
  pub command_content : Option CommandContent

abbrev pub opened : ℕ → Stream
opened stream = record { stream = stream; agent_id = 0; is_registered = false }

-- The error of HandleHostConnectionChange is dropped.
unfoldable pub connection_changed : ℕ → Bool → Time → Session → Session
unfolding handle_host_connection_change
connection_changed agent_id connected now s =
    (handle_host_connection_change agent_id connected now s).1

-- `&CommandResult{}`, and FromProtobuf on it.
unfoldable pub create_command_result_from_protobuf : ProtoResult → CommandResult
unfolding from_protobuf
create_command_result_from_protobuf m =
    from_protobuf
      (record {
        command_id = 0;
        host_id = 0;
        stdout = "";
        stderr = "";
        exit_code = pos 0;
        started_at = none;
        finished_at = none;
        error_message = "";
        execution_time = none;
        created_at = 0;
        updated_at = 0;
      })
      m

-- A result without identifiers is dropped, and so is the error of HandleCommandResult.
unfoldable pub handle_result : ProtoResult → Time → Session → Session
unfolding create_command_result_from_protobuf handle_command_result
handle_result m now s =
    if m.command_id == 0 || m.host_id == 0
    then s
    else (handle_command_result (create_command_result_from_protobuf m) now s).1

unfoldable pub register_agent : (agent_id stream : ℕ) → Time → Controller → Controller
unfolding add_connection connection_changed
register_agent agent_id stream now c = record {
  pool = add_connection agent_id stream now c.pool;
  session = connection_changed agent_id true now c.session;
}

-- The first message on a stream registers its agent, and each renews the time of the last one.
unfoldable pub greeted : ℕ → Stream → Time → Controller → Stream × Controller
unfolding register_agent
greeted agent_id s now c = if s.is_registered then (s, c) else (
  record s { agent_id = agent_id; is_registered = true },
  register_agent agent_id s.stream now c,
)

unfoldable pub pinged : Stream → Time → Controller → Controller
unfolding update_last_ping
pinged s now c = record c { pool = update_last_ping s.agent_id now c.pool }

unfoldable pub on_result : Option ProtoResult → Stream → Time → Controller → Stream × Controller
unfolding greeted pinged handle_result
on_result none s now c = (s, c)
on_result (some r) s now c =
    let (s', c') = greeted r.host_id s now c in
    let p = pinged s' now c' in (s', record p { session = handle_result r now p.session })

unfoldable pub on_content : Option CommandContent → Stream → Time → Controller → Stream × Controller
unfolding greeted pinged
on_content none s now c = (s, c)
on_content (some m) s now c = let (s', c') = greeted m.host_id s now c in (s', pinged s' now c')

-- A round of the loop of ConnectForCommands on a message.
unfoldable pub on_message : CommandMessage → Stream → Time → Controller → Stream × Controller
unfolding on_result on_content
on_message m s now c =
    let (s', c') = on_result m.command_result s now c in on_content m.command_content s' now c'

-- The end of the loop, where Recv returns an error.
unfoldable pub on_closed : Stream → Time → Controller → Controller
unfolding remove_connection connection_changed
on_closed s now c = if s.agent_id == 0 then c else record {
  pool = remove_connection s.agent_id c.pool;
  session = connection_changed s.agent_id false now c.session;
}

pub data Sending : Type 0 where
  sent : (stream : ℕ) → CommandContent → Sending
  not_connected send_failed : Sending

unfoldable pub send_command_to_agent :
    (sends : ℕ → Bool) → ℕ → Command → Time → Controller → Sending × Controller
unfolding get_connection to_protobuf_content remove_connection connection_changed
send_command_to_agent sends host_id command now c = elim (get_connection host_id c.pool) [
  | none ↦ (Sending.not_connected, c)
  | some conn ↦ elim (sends conn.stream) [
    | true ↦ (Sending.sent conn.stream (to_protobuf_content command), c)
    | false ↦ (
      Sending.send_failed,
      record {
        pool = remove_connection host_id c.pool;
        session = connection_changed host_id false now c.session;
      },
    )
  ]
]

-- The task service is not told of a heartbeat that fails.
unfoldable pub send_heartbeat_to_agent :
    (sends : ℕ → Bool) → ℕ → CommandContent → Controller → Sending × Controller
unfolding get_connection remove_connection
send_heartbeat_to_agent sends agent_id heartbeat c = elim (get_connection agent_id c.pool) [
  | none ↦ (Sending.not_connected, c)
  | some conn ↦ elim (sends conn.stream) [
    | true ↦ (Sending.sent conn.stream heartbeat, c)
    | false ↦ (Sending.send_failed, record c { pool = remove_connection agent_id c.pool })
  ]
]

-- The loop over a copy of the active connections.
unfoldable pub broadcast :
    (sends : ℕ → Bool) → List AgentConnection → ConnectionPool → List (ℕ × Bool) × ConnectionPool
unfolding remove_connection
broadcast sends [] p = ([], p)
broadcast sends (conn ∷ conns) p =
    let done = sends conn.stream in
    let (results, p') =
      broadcast sends conns (if done then p else remove_connection conn.agent_id p) in
    ((conn.agent_id, done) ∷ results, p')

unfoldable pub broadcast_to_all_agents :
    (sends : ℕ → Bool) → Controller → List (ℕ × Bool) × Controller
unfolding get_active_connections broadcast
broadcast_to_all_agents sends c =
    let (results, p) = broadcast sends (get_active_connections c.pool) c.pool in
    (results, record c { pool = p })

-- DisconnectAgent is three steps between which other calls may run: GetConnection, the call of Cancel on
-- the connection that it found, which does not hold the mutex of the pool, and the rest. The context is
-- canceled again by RemoveConnection; a second call has no effect in Go.
unfoldable pub cancel_found : AgentConnection → Controller → Controller
cancel_found conn c = record c {
  pool = record c.pool { canceled = c.pool.canceled ++ conn.context ∷ [] };
}

unfoldable pub disconnect_found : ℕ → Time → Controller → Controller
unfolding remove_connection connection_changed
disconnect_found agent_id now c = record c {
  pool = remove_connection agent_id c.pool;
  session = connection_changed agent_id false now c.session;
}

-- The steps one after the other.
unfoldable pub disconnect_agent : ℕ → Time → Controller → Bool × Controller
unfolding get_connection cancel_found disconnect_found
disconnect_agent agent_id now c = elim (get_connection agent_id c.pool) [
  | none ↦ (false, c)
  | some conn ↦ (true, disconnect_found agent_id now (cancel_found conn c))
]

unfoldable pub get_connected_agents : Controller → List ℕ
unfolding get_active_connections
get_connected_agents c = map (λ conn. conn.agent_id) (get_active_connections c.pool)

unfoldable pub shutdown : Controller → Controller
unfolding stop
shutdown c = record c { pool = stop c.pool }
