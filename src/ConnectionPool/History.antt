-- ===== src/ConnectionPool/History.antt =====
-- The pool after any sequence of calls, and what holds of it.
use devops_manager.Prelude.{
  ℕ, ◌<◌, ◌≡◌, refl, some, Time, List, [], ◌∷◌, map, ◌==◌, ltb, if◌then◌else◌, count_where-append,
  arith, Option-cases, inl, inr,
}
use devops_manager.ConnectionPool.{
  AgentConnection, ConnectionPool, find_connection, new_connection_pool, add_connection,
  remove_connection, get_connection, update_last_ping, check_connection_health, stop,
}
use devops_manager.ConnectionPool.Contexts.{
  held, cancels, IsValid, new_connection_pool-IsValid, add_connection-IsValid,
  remove_connection-IsValid, update_last_ping-IsValid, check_connection_health-IsValid,
}

-- A call of an operation that changes the pool, and a sequence of calls from NewConnectionPool on.
pub data Event : Type 0 where
  connects : (id stream : ℕ) → Event
  disconnects pings : ℕ → Event
  checks : Event

abbrev pub apply_event : Event × Time → ConnectionPool → ConnectionPool
apply_event (connects id stream, now) p = add_connection id stream now p
apply_event (disconnects id, now) p = remove_connection id p
apply_event (pings id, now) p = update_last_ping id now p
apply_event (checks, now) p = check_connection_health now p

-- The last event stands first.
unfoldable pub after : List (Event × Time) → ConnectionPool
after [] = new_connection_pool
after (e ∷ es) = apply_event e (after es)

-- Whatever calls have been made of the pool, in whatever order: every context that was made is held
-- by one connection or was canceled once, and no agent has two connections.
pub after-IsValid : (es : List (Event × Time)) → IsValid (after es)
unfolding after
after-IsValid [] = new_connection_pool-IsValid
after-IsValid ((connects id stream, now) ∷ es) =
    add_connection-IsValid id stream now (after es) (after-IsValid es)
after-IsValid ((disconnects id, now) ∷ es) =
    remove_connection-IsValid id (after es) (after-IsValid es)
after-IsValid ((pings id, now) ∷ es) = update_last_ping-IsValid id now (after es) (after-IsValid es)
after-IsValid ((checks, now) ∷ es) =
    check_connection_health-IsValid now (after es) (after-IsValid es)

pub held_where-found :
    (id : ℕ) (cs : List AgentConnection) (c : AgentConnection)
    → find_connection id cs ≡ some c
    → 0 < held c.context cs
held_where-found id [] c e = cc
held_where-found id (d ∷ ds) c e = ground (arith, held_where-found id ds c)

-- Whatever calls have been made of the pool, the connection that GetConnection returns has a context
-- that was not canceled.
pub get_connection-live :
    (es : List (Event × Time)) (id : ℕ) (c : AgentConnection)
    → get_connection id (after es) ≡ some c
    → cancels c.context (after es).canceled ≡ 0
unfolding get_connection
get_connection-live es id c e = elim (Option-cases (find_connection id (after es).connections)) [
  | inl nothing ↦ ground arith
  | inr (d, found) ↦ ground (
    arith,
    (after-IsValid es).owned d.context,
    held_where-found id (after es).connections d found,
  )
]

pub count-contexts :
    (x : ℕ) (cs : List AgentConnection) → cancels x (map (λ c. c.context) cs) ≡ held x cs
count-contexts x [] = refl
count-contexts x (c ∷ cs) = ground (arith, count-contexts x cs)

-- Stop cancels what is left: whatever calls have been made of the pool, each context that was made
-- has then been canceled once.
pub stop-cancels :
    (es : List (Event × Time)) (x : ℕ)
    → cancels x (stop (after es)).canceled ≡ (if ltb x (after es).contexts then 1 else 0)
unfolding stop
stop-cancels es x = ground (
  arith,
  count_where-append (λ y. y == x) (after es).canceled
      (map (λ c. c.context) (after es).connections),
  count-contexts x (after es).connections,
  (after-IsValid es).owned x,
)
