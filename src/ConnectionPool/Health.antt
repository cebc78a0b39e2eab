-- ===== src/ConnectionPool/Health.antt =====
-- What the heartbeat monitor leaves in the pool.
use devops_manager.Prelude.{
  ℕ, ◌≤◌, ◌≡◌, refl, false, Option, none, some, Time, List, [], ◌∷◌, map, ◌==◌, elem, ◌∙◌, select,
  if◌then◌else◌, arith, Option-cases, inl, inr,
}
use devops_manager.ConnectionPool.{
  AgentConnection, ConnectionPool, find_connection, delete, remove_connection, mark_stale, is_stale,
  remove_all, check_connection_health,
}
use devops_manager.ConnectionPool.Contexts.{
  IsValid, remove_connection-IsValid, marked-IsValid, entries,
}
use devops_manager.ConnectionPool.History.{Event, after, after-IsValid}

find-absent :
    (id : ℕ) (cs : List AgentConnection) → entries id cs ≡ 0 → find_connection id cs ≡ none
find-absent id [] h = refl
find-absent id (c ∷ cs) h = ground (arith, find-absent id cs)

find-delete :
    (id j : ℕ) (cs : List AgentConnection)
    → entries id cs ≤ 1
    → find_connection id (delete j cs) ≡ (if id == j then none else find_connection id cs)
unfolding delete
find-delete id j [] h = ground arith
find-delete id j (c ∷ cs) h = ground (arith, find-delete id j cs, find-absent id cs)

pub find-remove_connection :
    (id j : ℕ) (p : ConnectionPool)
    → entries id p.connections ≤ 1
    → find_connection id (remove_connection j p).connections
      ≡ (if id == j then none else find_connection id p.connections)
unfolding remove_connection
find-remove_connection id j p h = elim (Option-cases (find_connection j p.connections)) [
  | inl e ↦ rw (e, remove_connection) (ground arith)
  | inr (c, e) ↦ rw (e, remove_connection) (find-delete id j p.connections h)
]

find-remove_all :
    (id : ℕ) (ids : List ℕ) (p : ConnectionPool)
    → IsValid p
    → find_connection id (remove_all ids p).connections
      ≡ (if elem id ids then none else find_connection id p.connections)
unfolding remove_all
find-remove_all id [] p v = refl
find-remove_all id (j ∷ ids) p v = ground (
  arith,
  find-remove_all id ids (remove_connection j p) (remove_connection-IsValid j p v),
  find-remove_connection id j p (v.distinct id),
)

-- An entry that is found, if it is not stale.
abbrev pub unless_stale : ConnectionPool → Time → Option AgentConnection → Option AgentConnection
unless_stale p now none = none
unless_stale p now (some c) = if is_stale p now c then none else some c

abbrev stale_ids : ConnectionPool → Time → List AgentConnection → List ℕ
stale_ids p now cs = map (λ c. c.agent_id) (select (is_stale p now) cs)

stale_ids-absent :
    (id : ℕ) (p : ConnectionPool) (now : Time) (cs : List AgentConnection)
    → entries id cs ≡ 0
    → elem id (stale_ids p now cs) ≡ false
stale_ids-absent id p now [] h = refl
stale_ids-absent id p now (c ∷ cs) h = ground (arith, stale_ids-absent id p now cs)

find-marked :
    (id : ℕ) (p : ConnectionPool) (now : Time) (cs : List AgentConnection)
    → entries id cs ≤ 1
    → (if elem id (stale_ids p now cs)
        then none
        else find_connection id (map (mark_stale p now) cs))
      ≡ unless_stale p now (find_connection id cs)
unfolding mark_stale
find-marked id p now [] h = refl
find-marked id p now (c ∷ cs) h =
    ground (arith, find-marked id p now cs, stale_ids-absent id p now cs, find-absent id cs)

-- Whatever calls have been made of the pool, checkConnectionHealth takes out the connection of an
-- agent whose last ping is longer ago than the timeout, and keeps that of every other as it is.
pub check_connection_health-find :
    (es : List (Event × Time)) (id : ℕ) (now : Time)
    → find_connection id (check_connection_health now (after es)).connections
      ≡ unless_stale (after es) now (find_connection id (after es).connections)
unfolding check_connection_health
check_connection_health-find es id now =
    let p : ConnectionPool = after es in
    find-remove_all id (stale_ids p now p.connections)
      (record p { connections = map (mark_stale p now) p.connections })
      (marked-IsValid now p (after-IsValid es))
    ∙ find-marked id p now p.connections ((after-IsValid es).distinct id)
