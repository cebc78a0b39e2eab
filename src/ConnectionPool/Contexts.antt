-- ===== src/ConnectionPool/Contexts.antt =====
-- Contexts are made, held and canceled: what the operations of the pool keep.
use devops_manager.Prelude.{
  ℕ, ◌+◌, ◌≤◌, ◌≡◌, refl, true, some, List, [], ◌∷◌, map, ◌==◌, ◌-◌, ◌&&◌, ltb, select,
  if◌then◌else◌, count_where, count_where-append, arith, Option-cases, inl, inr,
}
use devops_manager.ConnectionPool.{
  AgentConnection, ConnectionPool, find_connection, put, delete, context_of, new_connection_pool,
  add_connection, remove_connection, update_last_ping, mark_stale, is_stale, remove_all,
  check_connection_health,
}

abbrev pub held : ℕ → List AgentConnection → ℕ
held x cs = count_where (λ c. c.context == x) cs

abbrev pub cancels : ℕ → List ℕ → ℕ
cancels x ys = count_where (λ y. y == x) ys

abbrev pub entries : ℕ → List AgentConnection → ℕ
entries id cs = count_where (λ c. c.agent_id == id) cs

pub held-put :
    (x : ℕ) (c : AgentConnection) (cs : List AgentConnection)
    → held x (put c cs) + cancels x (context_of (find_connection c.agent_id cs))
      ≡ held x cs + (if c.context == x then 1 else 0)
unfolding put
held-put x c [] = ground arith
held-put x c (d ∷ ds) = ground (arith, held-put x c ds)

pub held-delete :
    (x id : ℕ) (cs : List AgentConnection)
    → held x (delete id cs) + cancels x (context_of (find_connection id cs)) ≡ held x cs
unfolding delete
held-delete x id [] = ground arith
held-delete x id (d ∷ ds) = ground (arith, held-delete x id ds)

pub entries-put :
    (id : ℕ) (c : AgentConnection) (cs : List AgentConnection)
    → entries id (put c cs) ≡ (if c.agent_id == id && entries id cs == 0 then 1 else entries id cs)
unfolding put
entries-put id c [] = ground arith
entries-put id c (d ∷ ds) = ground (arith, entries-put id c ds)

pub entries-delete :
    (id j : ℕ) (cs : List AgentConnection)
    → entries id (delete j cs) ≡ (if id == j then entries id cs - 1 else entries id cs)
unfolding delete
entries-delete id j [] = ground arith
entries-delete id j (d ∷ ds) = ground (arith, entries-delete id j ds)

-- Every context that was made is held by one connection or was canceled once, and no agent has two
-- connections.
pub record IsValid (p : ConnectionPool) : Type 0 where
  pub owned :
      (x : ℕ) → held x p.connections + cancels x p.canceled ≡ (if ltb x p.contexts then 1 else 0)
  pub distinct : (id : ℕ) → entries id p.connections ≤ 1

pub new_connection_pool-IsValid : IsValid new_connection_pool
unfolding new_connection_pool
new_connection_pool-IsValid = record { owned = λ x. ground arith; distinct = λ id. omega arith }

pub add_connection-IsValid :
    (id stream now : ℕ) (p : ConnectionPool) → IsValid p → IsValid (add_connection id stream now p)
unfolding add_connection
add_connection-IsValid id stream now p v =
    let new : AgentConnection = record {
      agent_id = id;
      stream = stream;
      connected_at = now;
      last_ping = now;
      is_active = true;
      context = p.contexts;
    } in
    record {
      owned = λ x. ground (
        arith,
        held-put x new p.connections,
        count_where-append (λ y. y == x) p.canceled (context_of (find_connection id p.connections)),
        v.owned x,
      );
      distinct = λ j. ground (arith, entries-put j new p.connections, v.distinct j);
    }

pub remove_connection-IsValid :
    (id : ℕ) (p : ConnectionPool) → IsValid p → IsValid (remove_connection id p)
unfolding remove_connection
remove_connection-IsValid id p v = elim (Option-cases (find_connection id p.connections)) [
  | inl e ↦ rw (e, remove_connection) v
  | inr (c, e) ↦
      rw (e, remove_connection)
        (record {
          owned = λ x. ground (
            arith,
            held-delete x id p.connections,
            count_where-append (λ y. y == x) p.canceled (c.context ∷ []),
            v.owned x,
          );
          distinct = λ j. ground (arith, entries-delete j id p.connections, v.distinct j);
        })
]

pub find-agent_id :
    (id : ℕ) (cs : List AgentConnection) (c : AgentConnection)
    → find_connection id cs ≡ some c
    → c.agent_id ≡ id
find-agent_id id [] c e = cc
find-agent_id id (d ∷ ds) c e = ground (arith, find-agent_id id ds c)

pub update_last_ping-IsValid :
    (id now : ℕ) (p : ConnectionPool) → IsValid p → IsValid (update_last_ping id now p)
unfolding update_last_ping
update_last_ping-IsValid id now p v = elim (Option-cases (find_connection id p.connections)) [
  | inl e ↦ rw (e, update_last_ping) v
  | inr (c, e) ↦
      rw (e, update_last_ping)
        (record {
          owned = λ x. ground (
            arith,
            held-put x (record c { last_ping = now; is_active = true }) p.connections,
            find-agent_id id p.connections c e,
            v.owned x,
          );
          distinct = λ j. ground (
            arith,
            entries-put j (record c { last_ping = now; is_active = true }) p.connections,
            v.distinct j,
          );
        })
]

remove_all-IsValid : (ids : List ℕ) (p : ConnectionPool) → IsValid p → IsValid (remove_all ids p)
unfolding remove_all
remove_all-IsValid [] p v = v
remove_all-IsValid (id ∷ ids) p v =
    remove_all-IsValid ids (remove_connection id p) (remove_connection-IsValid id p v)

pub held-mark :
    (x now : ℕ) (p : ConnectionPool) (cs : List AgentConnection)
    → held x (map (mark_stale p now) cs) ≡ held x cs
unfolding mark_stale
held-mark x now p [] = refl
held-mark x now p (c ∷ cs) = ground (arith, held-mark x now p cs)

pub entries-mark :
    (id now : ℕ) (p : ConnectionPool) (cs : List AgentConnection)
    → entries id (map (mark_stale p now) cs) ≡ entries id cs
unfolding mark_stale
entries-mark id now p [] = refl
entries-mark id now p (c ∷ cs) = ground (arith, entries-mark id now p cs)

pub marked-IsValid :
    (now : ℕ) (p : ConnectionPool)
    → IsValid p
    → IsValid (record p { connections = map (mark_stale p now) p.connections })
marked-IsValid now p v = record {
  owned = λ x. rw (held-mark x now p p.connections) (v.owned x);
  distinct = λ id. rw (entries-mark id now p p.connections) (v.distinct id);
}

pub check_connection_health-IsValid :
    (now : ℕ) (p : ConnectionPool) → IsValid p → IsValid (check_connection_health now p)
unfolding check_connection_health
check_connection_health-IsValid now p v =
    remove_all-IsValid (map (λ c. c.agent_id) (select (is_stale p now) p.connections))
      (record p { connections = map (mark_stale p now) p.connections }) (marked-IsValid now p v)
