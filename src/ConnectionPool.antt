-- ===== src/ConnectionPool.antt =====
-- ConnectionPool of server/pkg/controller/grpc_task_controller.go: the streams of the agents, one
-- for each agent, and the contexts that end with them. The key of the map is a field of the entry.
-- Contexts are numbered as they are made, and `canceled` holds those that were canceled, in order.
-- Every operation holds the mutex from its first line to its last.
pub mod Contexts
pub mod History
pub mod Health
use devops_manager.Prelude.{
  ℕ, ◌+◌, pos, Bool, true, false, Option, none, some, Time, sub, ltℤ, List, [], ◌∷◌, ◌++◌, map,
  ◌==◌, ◌&&◌, first, select, if◌then◌else◌,
}

pub record AgentConnection : Type 0 where
  pub agent_id : ℕ
  pub stream : ℕ
  pub connected_at : Time
  pub last_ping : Time
  pub is_active : Bool
  pub context : ℕ

pub record ConnectionPool : Type 0 where
  pub connections : List AgentConnection
  pub connection_timeout : ℕ
  pub contexts : ℕ
  pub canceled : List ℕ

abbrev pub find_connection : ℕ → List AgentConnection → Option AgentConnection
find_connection id cs = first (λ c. c.agent_id == id) cs

-- `connections[id] = conn`
unfoldable pub put : AgentConnection → List AgentConnection → List AgentConnection
put c [] = c ∷ []
put c (d ∷ ds) = if d.agent_id == c.agent_id then c ∷ ds else d ∷ put c ds

-- `delete(connections, id)`
unfoldable pub delete : ℕ → List AgentConnection → List AgentConnection
delete id [] = []
delete id (d ∷ ds) = if d.agent_id == id then ds else d ∷ delete id ds

-- The calls of Cancel on an entry that a lookup finds.
abbrev pub context_of : Option AgentConnection → List ℕ
context_of none = []
context_of (some c) = c.context ∷ []

unfoldable pub new_connection_pool : ConnectionPool
new_connection_pool = record {
  connections = [];
  connection_timeout = 90000000000;
  contexts = 0;
  canceled = [];
}

unfoldable pub add_connection : ℕ → (stream : ℕ) → Time → ConnectionPool → ConnectionPool
unfolding put
add_connection id stream now p = record p {
  connections =
      put
        (record {
          agent_id = id;
          stream = stream;
          connected_at = now;
          last_ping = now;
          is_active = true;
          context = p.contexts;
        })
        p.connections;
  contexts = p.contexts + 1;
  canceled = p.canceled ++ context_of (find_connection id p.connections);
}

unfoldable pub remove_connection : ℕ → ConnectionPool → ConnectionPool
unfolding delete
remove_connection id p = elim (find_connection id p.connections) [
  | none ↦ p
  | some c ↦ record p {
    connections = delete id p.connections;
    canceled = p.canceled ++ c.context ∷ [];
  }
]

unfoldable pub get_connection : ℕ → ConnectionPool → Option AgentConnection
get_connection id p = elim (find_connection id p.connections) [
  | none ↦ none
  | some c ↦ if c.is_active then some c else none
]

unfoldable pub get_active_connections : ConnectionPool → List AgentConnection
get_active_connections p = select (λ c. c.is_active) p.connections

-- The entry is changed in place.
unfoldable pub update_last_ping : ℕ → Time → ConnectionPool → ConnectionPool
unfolding put
update_last_ping id now p = elim (find_connection id p.connections) [
  | none ↦ p
  | some c ↦ record p {
    connections = put (record c { last_ping = now; is_active = true }) p.connections;
  }
]

unfoldable pub is_stale : ConnectionPool → Time → AgentConnection → Bool
is_stale p now c = ltℤ (pos p.connection_timeout) (sub now c.last_ping)

unfoldable pub mark_stale : ConnectionPool → Time → AgentConnection → AgentConnection
unfolding is_stale
mark_stale p now c = if is_stale p now c then record c { is_active = false } else c

-- The second loop: each entry of the list of agents is looked up again, canceled and deleted.
unfoldable pub remove_all : List ℕ → ConnectionPool → ConnectionPool
unfolding remove_connection
remove_all [] p = p
remove_all (id ∷ ids) p = remove_all ids (remove_connection id p)

unfoldable pub check_connection_health : Time → ConnectionPool → ConnectionPool
unfolding mark_stale remove_all is_stale
check_connection_health now p =
    remove_all (map (λ c. c.agent_id) (select (is_stale p now) p.connections))
      (record p { connections = map (mark_stale p now) p.connections })

unfoldable pub stop : ConnectionPool → ConnectionPool
stop p = record p { connections = []; canceled = p.canceled ++ map (λ c. c.context) p.connections }
