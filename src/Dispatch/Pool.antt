-- ===== src/Dispatch/Pool.antt =====
-- The pool under every operation of the controller, and under each step of DisconnectAgent, which
-- cancels the context of a connection that may be in the pool for some time yet.
use devops_manager.Prelude.{
  ℕ, ◌+◌, ◌≤◌, ◌≡◌, Bool, none, true, some, List, [], ◌∷◌, map, ◌==◌, ltb, select, if◌then◌else◌,
  count_where-append, arith, Option-cases, Bool-cases, inl, inr,
}
use devops_manager.Models.CommandContent.{CommandContent}
use devops_manager.Models.Command.{Command}
use devops_manager.ConnectionPool.{
  AgentConnection, ConnectionPool, find_connection, context_of, new_connection_pool, add_connection,
  remove_connection, get_connection, update_last_ping, mark_stale, is_stale, remove_all,
  check_connection_health,
}
use devops_manager.ConnectionPool.Contexts.{
  held, cancels, entries, held-put, held-delete, entries-put, entries-delete, find-agent_id,
  held-mark, entries-mark,
}
use devops_manager.ConnectionPool.Health.{find-remove_connection}
use devops_manager.ConnectionPool.History.{count-contexts}
use devops_manager.Dispatch.{
  Controller, Stream, CommandMessage, on_message, on_result, on_content, on_closed, greeted, pinged,
  register_agent, send_command_to_agent, send_heartbeat_to_agent, broadcast, cancel_found,
  disconnect_found, shutdown,
}

-- Each context that was made is held by one connection or was canceled once by the pool itself, and
-- other cancels of a context are those of DisconnectAgent, which `early` lists; no agent has two
-- connections.
pub record IsSound (early : List ℕ) (p : ConnectionPool) : Type 0 where
  pub owned :
      (x : ℕ)
      → held x p.connections + cancels x p.canceled
        ≡ (if ltb x p.contexts then 1 else 0) + cancels x early
  pub distinct : (id : ℕ) → entries id p.connections ≤ 1

pub new_connection_pool-IsSound : IsSound [] new_connection_pool
unfolding new_connection_pool
new_connection_pool-IsSound = record { owned = λ x. ground arith; distinct = λ id. omega arith }

pub add_connection-IsSound :
    {early : List ℕ} (id stream now : ℕ) (p : ConnectionPool)
    → IsSound early p
    → IsSound early (add_connection id stream now p)
unfolding add_connection
add_connection-IsSound id stream now p v =
    let new : AgentConnection = record {
      agent_id = id;
      stream = stream;
      connected_at = now;
      last_ping = now;
      is_active = true;
      context = p.contexts;
    } in
    record {
      owned = λ x. ground (
        arith,
        held-put x new p.connections,
        count_where-append (λ y. y == x) p.canceled (context_of (find_connection id p.connections)),
        v.owned x,
      );
      distinct = λ j. ground (arith, entries-put j new p.connections, v.distinct j);
    }

pub remove_connection-IsSound :
    {early : List ℕ} (id : ℕ) (p : ConnectionPool)
    → IsSound early p
    → IsSound early (remove_connection id p)
unfolding remove_connection
remove_connection-IsSound id p v = elim (Option-cases (find_connection id p.connections)) [
  | inl e ↦ rw (e, remove_connection) v
  | inr (c, e) ↦
      rw (e, remove_connection)
        (record {
          owned = λ x. ground (
            arith,
            held-delete x id p.connections,
            count_where-append (λ y. y == x) p.canceled (c.context ∷ []),
            v.owned x,
          );
          distinct = λ j. ground (arith, entries-delete j id p.connections, v.distinct j);
        })
]

pub update_last_ping-IsSound :
    {early : List ℕ} (id now : ℕ) (p : ConnectionPool)
    → IsSound early p
    → IsSound early (update_last_ping id now p)
unfolding update_last_ping
update_last_ping-IsSound id now p v = elim (Option-cases (find_connection id p.connections)) [
  | inl e ↦ rw (e, update_last_ping) v
  | inr (c, e) ↦
      rw (e, update_last_ping)
        (record {
          owned = λ x. ground (
            arith,
            held-put x (record c { last_ping = now; is_active = true }) p.connections,
            find-agent_id id p.connections c e,
            v.owned x,
          );
          distinct = λ j. ground (
            arith,
            entries-put j (record c { last_ping = now; is_active = true }) p.connections,
            v.distinct j,
          );
        })
]

remove_all-IsSound :
    {early : List ℕ} (ids : List ℕ) (p : ConnectionPool)
    → IsSound early p
    → IsSound early (remove_all ids p)
unfolding remove_all
remove_all-IsSound [] p v = v
remove_all-IsSound (id ∷ ids) p v =
    remove_all-IsSound ids (remove_connection id p) (remove_connection-IsSound id p v)

pub check_connection_health-IsSound :
    {early : List ℕ} (now : ℕ) (p : ConnectionPool)
    → IsSound early p
    → IsSound early (check_connection_health now p)
unfolding check_connection_health
check_connection_health-IsSound now p v =
    remove_all-IsSound (map (λ c. c.agent_id) (select (is_stale p now) p.connections))
      (record p { connections = map (mark_stale p now) p.connections })
      (record {
        owned = λ x. rw (held-mark x now p p.connections) (v.owned x);
        distinct = λ id. rw (entries-mark id now p p.connections) (v.distinct id);
      })

greeted-IsSound :
    {early : List ℕ} (agent_id : ℕ) (s : Stream) (now : ℕ) (c : Controller)
    → IsSound early c.pool
    → IsSound early (greeted agent_id s now c).1.pool
unfolding greeted register_agent
greeted-IsSound agent_id s now c v = elim (Bool-cases s.is_registered) [
  | inl e ↦ rw (e, greeted) v
  | inr e ↦ rw (e, greeted) (add_connection-IsSound agent_id s.stream now c.pool v)
]

on_result-IsSound :
    {early : List ℕ} (m : CommandMessage) (s : Stream) (now : ℕ) (c : Controller)
    → IsSound early c.pool
    → IsSound early (on_result m.command_result s now c).1.pool
unfolding on_result pinged
on_result-IsSound m s now c v = elim (Option-cases m.command_result) [
  | inl e ↦ rw (e, on_result) v
  | inr (r, e) ↦
      let g = greeted r.host_id s now c in
      rw (e, on_result)
        (update_last_ping-IsSound g.0.agent_id now g.1.pool (greeted-IsSound r.host_id s now c v))
]

on_content-IsSound :
    {early : List ℕ} (m : CommandMessage) (s : Stream) (now : ℕ) (c : Controller)
    → IsSound early c.pool
    → IsSound early (on_content m.command_content s now c).1.pool
unfolding on_content pinged
on_content-IsSound m s now c v = elim (Option-cases m.command_content) [
  | inl e ↦ rw (e, on_content) v
  | inr (r, e) ↦
      let g = greeted r.host_id s now c in
      rw (e, on_content)
        (update_last_ping-IsSound g.0.agent_id now g.1.pool (greeted-IsSound r.host_id s now c v))
]

pub on_message-IsSound :
    {early : List ℕ} (m : CommandMessage) (s : Stream) (now : ℕ) (c : Controller)
    → IsSound early c.pool
    → IsSound early (on_message m s now c).1.pool
unfolding on_message
on_message-IsSound m s now c v =
    let r = on_result m.command_result s now c in
    on_content-IsSound m r.0 now r.1 (on_result-IsSound m s now c v)

pub on_closed-IsSound :
    {early : List ℕ} (s : Stream) (now : ℕ) (c : Controller)
    → IsSound early c.pool
    → IsSound early (on_closed s now c).pool
unfolding on_closed
on_closed-IsSound s now c v = elim (Bool-cases (s.agent_id == 0)) [
  | inl e ↦ rw (e, on_closed) v
  | inr e ↦ rw (e, on_closed) (remove_connection-IsSound s.agent_id c.pool v)
]

pub send_command_to_agent-IsSound :
    {early : List ℕ} (sends : ℕ → Bool) (id : ℕ) (command : Command) (now : ℕ) (c : Controller)
    → IsSound early c.pool
    → IsSound early (send_command_to_agent sends id command now c).1.pool
unfolding send_command_to_agent
send_command_to_agent-IsSound sends id command now c v =
    elim (Option-cases (get_connection id c.pool)) [
      | inl e ↦ rw (e, send_command_to_agent) v
      | inr (conn, e) ↦ elim (Bool-cases (sends conn.stream)) [
        | inl ok ↦ rw (e, send_command_to_agent) (rw ok v)
        | inr fails ↦
            rw (e, send_command_to_agent) (rw fails (remove_connection-IsSound id c.pool v))
      ]
    ]

pub send_heartbeat_to_agent-IsSound :
    {early : List ℕ} (sends : ℕ → Bool) (id : ℕ) (m : CommandContent) (c : Controller)
    → IsSound early c.pool
    → IsSound early (send_heartbeat_to_agent sends id m c).1.pool
unfolding send_heartbeat_to_agent
send_heartbeat_to_agent-IsSound sends id m c v = elim (Option-cases (get_connection id c.pool)) [
  | inl e ↦ rw (e, send_heartbeat_to_agent) v
  | inr (conn, e) ↦ elim (Bool-cases (sends conn.stream)) [
    | inl ok ↦ rw (e, send_heartbeat_to_agent) (rw ok v)
    | inr fails ↦ rw (e, send_heartbeat_to_agent) (rw fails (remove_connection-IsSound id c.pool v))
  ]
]

pub broadcast-IsSound :
    {early : List ℕ} (sends : ℕ → Bool) (conns : List AgentConnection) (p : ConnectionPool)
    → IsSound early p
    → IsSound early (broadcast sends conns p).1
unfolding broadcast
broadcast-IsSound sends [] p v = v
broadcast-IsSound sends (conn ∷ conns) p v = elim (Bool-cases (sends conn.stream)) [
  | inl ok ↦ rw (ok, broadcast) (broadcast-IsSound sends conns p v)
  | inr fails ↦
      rw (fails, broadcast)
        (broadcast-IsSound sends conns (remove_connection conn.agent_id p)
          (remove_connection-IsSound conn.agent_id p v))
]

pub get_connection-find :
    (id : ℕ) (p : ConnectionPool) (c : AgentConnection)
    → get_connection id p ≡ some c
    → find_connection id p.connections ≡ some c
unfolding get_connection
get_connection-find id p c e = ground arith

-- The steps of DisconnectAgent.
pub cancel_found-IsSound :
    {early : List ℕ} (conn : AgentConnection) (c : Controller)
    → IsSound early c.pool
    → IsSound (conn.context ∷ early) (cancel_found conn c).pool
unfolding cancel_found
cancel_found-IsSound conn c v = record {
  owned = λ x.
      ground
        (arith, count_where-append (λ y. y == x) c.pool.canceled (conn.context ∷ []), v.owned x);
  distinct = λ j. v.distinct j;
}

pub disconnect_found-IsSound :
    {early : List ℕ} (id now : ℕ) (c : Controller)
    → IsSound early c.pool
    → IsSound early (disconnect_found id now c).pool
unfolding disconnect_found
disconnect_found-IsSound id now c v = remove_connection-IsSound id c.pool v

pub shutdown-IsSound :
    {early : List ℕ} (c : Controller) → IsSound early c.pool → IsSound early (shutdown c).pool
unfolding shutdown
shutdown-IsSound c v = record {
  owned = λ x. ground (
    arith,
    count_where-append (λ y. y == x) c.pool.canceled (map (λ d. d.context) c.pool.connections),
    count-contexts x c.pool.connections,
    v.owned x,
  );
  distinct = λ j. omega arith;
}

pub get-removed :
    {early : List ℕ} (id : ℕ) (p : ConnectionPool)
    → IsSound early p
    → get_connection id (remove_connection id p) ≡ none
unfolding get_connection
get-removed id p v = ground (arith, find-remove_connection id id p (v.distinct id))
