-- ===== src/Dispatch/History.antt =====
-- The controller after any sequence of events.
use devops_manager.Prelude.{ℕ, ◌≤◌, ◌≡◌, Bool, none, some, Time, List, [], ◌∷◌, arith}
use devops_manager.Models.CommandContent.{CommandContent}
use devops_manager.Models.Command.{Command}
use devops_manager.Db.{Session}
use devops_manager.ConnectionPool.{
  AgentConnection, ConnectionPool, new_connection_pool, get_connection, get_active_connections,
  check_connection_health, add_connection, remove_connection, update_last_ping,
}
use devops_manager.ConnectionPool.Contexts.{cancels}
use devops_manager.ConnectionPool.History.{held_where-found}
use devops_manager.Dispatch.{
  Controller, Stream, CommandMessage, on_message, on_closed, send_command_to_agent,
  send_heartbeat_to_agent, broadcast_to_all_agents, cancel_found, disconnect_found, shutdown,
}
use devops_manager.Dispatch.Pool.{
  IsSound, new_connection_pool-IsSound, on_message-IsSound, on_closed-IsSound,
  send_command_to_agent-IsSound, send_heartbeat_to_agent-IsSound, broadcast-IsSound,
  cancel_found-IsSound, disconnect_found-IsSound, shutdown-IsSound, add_connection-IsSound,
  remove_connection-IsSound, update_last_ping-IsSound, check_connection_health-IsSound,
  get_connection-find, get-removed,
}

-- What can happen to the controller: a message or the end of a stream, whose variables may be any, a
-- call of one of its methods, a check by the heartbeat monitor, or its end. A call of DisconnectAgent is
-- two events, its call of Cancel and the rest: the connection that its GetConnection found may be any.
-- Each operation of the pool that holds its mutex is an event on its own, too, so that the calls of
-- several goroutines, in which others run between two operations, are sequences of events.
pub data Event : Type 0 where
  receives : CommandMessage → Stream → Event
  closes : Stream → Event
  sends_command : (sends : ℕ → Bool) → ℕ → Command → Event
  sends_heartbeat : (sends : ℕ → Bool) → ℕ → CommandContent → Event
  broadcasts : (sends : ℕ → Bool) → Event
  cancels_found : AgentConnection → Event
  removes_found : ℕ → Event
  checks shuts_down : Event
  adds : (agent_id stream : ℕ) → Event
  removes pings : ℕ → Event

abbrev pub apply_event : Event × Time → Controller → Controller
apply_event (receives m s, now) c = (on_message m s now c).1
apply_event (closes s, now) c = on_closed s now c
apply_event (sends_command sends id command, now) c =
    (send_command_to_agent sends id command now c).1
apply_event (sends_heartbeat sends id m, now) c = (send_heartbeat_to_agent sends id m c).1
apply_event (broadcasts sends, now) c = (broadcast_to_all_agents sends c).1
apply_event (cancels_found conn, now) c = cancel_found conn c
apply_event (removes_found id, now) c = disconnect_found id now c
apply_event (checks, now) c = record c { pool = check_connection_health now c.pool }
apply_event (shuts_down, now) c = shutdown c
apply_event (adds id stream, now) c = record c { pool = add_connection id stream now c.pool }
apply_event (removes id, now) c = record c { pool = remove_connection id c.pool }
apply_event (pings id, now) c = record c { pool = update_last_ping id now c.pool }

-- The last event stands first.
unfoldable pub after : Session → List (Event × Time) → Controller
after session [] = record { pool = new_connection_pool; session = session }
after session (e ∷ es) = apply_event e (after session es)

-- The contexts that calls of DisconnectAgent canceled.
abbrev pub canceled_early : List (Event × Time) → List ℕ
canceled_early [] = []
canceled_early ((cancels_found conn, now) ∷ es) = conn.context ∷ canceled_early es
canceled_early ((receives m s, now) ∷ es) = canceled_early es
canceled_early ((closes s, now) ∷ es) = canceled_early es
canceled_early ((sends_command sends id command, now) ∷ es) = canceled_early es
canceled_early ((sends_heartbeat sends id m, now) ∷ es) = canceled_early es
canceled_early ((broadcasts sends, now) ∷ es) = canceled_early es
canceled_early ((removes_found id, now) ∷ es) = canceled_early es
canceled_early ((checks, now) ∷ es) = canceled_early es
canceled_early ((shuts_down, now) ∷ es) = canceled_early es
canceled_early ((adds id stream, now) ∷ es) = canceled_early es
canceled_early ((removes id, now) ∷ es) = canceled_early es
canceled_early ((pings id, now) ∷ es) = canceled_early es

pub after-IsSound :
    (session : Session) (es : List (Event × Time))
    → IsSound (canceled_early es) (after session es).pool
unfolding after broadcast_to_all_agents
after-IsSound session [] = new_connection_pool-IsSound
after-IsSound session ((receives m s, now) ∷ es) =
    on_message-IsSound m s now (after session es) (after-IsSound session es)
after-IsSound session ((closes s, now) ∷ es) =
    on_closed-IsSound s now (after session es) (after-IsSound session es)
after-IsSound session ((sends_command sends id command, now) ∷ es) =
    send_command_to_agent-IsSound sends id command now (after session es) (after-IsSound session es)
after-IsSound session ((sends_heartbeat sends id m, now) ∷ es) =
    send_heartbeat_to_agent-IsSound sends id m (after session es) (after-IsSound session es)
after-IsSound session ((broadcasts sends, now) ∷ es) =
    broadcast-IsSound sends (get_active_connections (after session es).pool) (after session es).pool
      (after-IsSound session es)
after-IsSound session ((cancels_found conn, now) ∷ es) =
    cancel_found-IsSound conn (after session es) (after-IsSound session es)
after-IsSound session ((removes_found id, now) ∷ es) =
    disconnect_found-IsSound id now (after session es) (after-IsSound session es)
after-IsSound session ((checks, now) ∷ es) =
    check_connection_health-IsSound now (after session es).pool (after-IsSound session es)
after-IsSound session ((shuts_down, now) ∷ es) =
    shutdown-IsSound (after session es) (after-IsSound session es)
after-IsSound session ((adds id stream, now) ∷ es) =
    add_connection-IsSound id stream now (after session es).pool (after-IsSound session es)
after-IsSound session ((removes id, now) ∷ es) =
    remove_connection-IsSound id (after session es).pool (after-IsSound session es)
after-IsSound session ((pings id, now) ∷ es) =
    update_last_ping-IsSound id now (after session es).pool (after-IsSound session es)

-- Whatever has happened to the controller, also streams of one agent that overlap, sends that fail and
-- calls of DisconnectAgent between whose steps other calls run: the context of a connection that
-- GetConnection returns, and so of one on which a command is sent, has been canceled at most as often
-- as calls of DisconnectAgent have canceled it, and never where none has. So neither a new stream, nor
-- a removal, nor the check of the connections leaves a connection in the pool that it canceled; and
-- the last step of DisconnectAgent leaves no connection of the agent.
pub get_connection-canceled :
    (session : Session) (es : List (Event × Time)) (id : ℕ) (conn : AgentConnection) (later : Time)
    → get_connection id (after session es).pool ≡ some conn
    → (cancels conn.context (after session es).pool.canceled
        ≤ cancels conn.context (canceled_early es))
      × (get_connection id (disconnect_found id later (after session es)).pool ≡ none)
unfolding disconnect_found
get_connection-canceled session es id conn later e =
    let p : ConnectionPool = (after session es).pool in
    (
      ground (
        arith,
        (after-IsSound session es).owned conn.context,
        held_where-found id p.connections conn (get_connection-find id p conn e),
      ),
      get-removed id p (after-IsSound session es),
    )
