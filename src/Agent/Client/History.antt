-- ===== src/Agent/Client/History.antt =====
-- The connections of the agent over any sequence of events.
use devops_manager.Prelude.{
  ℕ, ◌<◌, ◌≡◌, refl, Bool, true, false, not, ◌||◌, ◌&&◌, ltb, ◌==◌, Option, none, some, List, [],
  ◌∷◌, inl, inr, elem, if◌then◌else◌, arith, Bool-cases,
}
use devops_manager.Agent.Client.{
  GrpcAgent, Code, new_agent, connect, manager_round, stop, mark_disconnected, call_server,
  with_closed, failed, CallResult, not_connected, settle,
}

-- A round of the manager, a call that ends with a status, and Stop; the manager can have a round left
-- when Stop is called.
pub data Event : Type 0 where
  round : (dial_succeeds : Bool) → Event
  call_fails : Code → Event
  stops : Event

unfoldable pub step : Event → GrpcAgent → GrpcAgent
unfolding manager_round stop call_server
step (round dial_succeeds) a = manager_round dial_succeeds a
step (call_fails c) a = (call_server {A = Unit {0}} (λ (s : Unit {0}). (failed c, s)) a tt).1
step stops a = stop a

abbrev pub run_all : List Event → GrpcAgent → GrpcAgent
run_all [] a = a
run_all (e ∷ es) a = run_all es (step e a)

-- The connection in use, where there is one.
abbrev pub is_conn : ℕ → Option ℕ → Bool
is_conn i none = false
is_conn i (some c) = i == c

abbrev pub is_open : Option ℕ → List ℕ → Bool
is_open none closed = false
is_open (some c) closed = not (elem c closed)

pub record IsSound (a : GrpcAgent) : Type 0 where
  pub usable : a.connected ≡ true → is_open a.conn a.closed ≡ true
  pub same_client : a.connected ≡ true → a.client ≡ a.conn
  pub accounted : (i : ℕ) → i < a.dialed → (elem i a.closed || is_conn i a.conn) ≡ true
  pub dialed_only : (i : ℕ) → (elem i a.closed || is_conn i a.conn) ≡ true → i < a.dialed

new_agent-IsSound : IsSound new_agent
unfolding new_agent
new_agent-IsSound = record {
  usable = λ h. cc;
  same_client = λ h. cc;
  accounted = λ i h. absurd (omega arith);
  dialed_only = λ i h. cc;
}

closed_too :
    (i : ℕ) (conn : Option ℕ) (cs : List ℕ)
    → elem i (with_closed conn cs) ≡ (elem i cs || is_conn i conn)
closed_too i none cs = ground arith
closed_too i (some c) cs = ground arith

connect-IsSound :
    (dial_succeeds : Bool) (a : GrpcAgent)
    → a.connected ≡ false
    → IsSound a
    → IsSound (connect dial_succeeds a)
unfolding connect
connect-IsSound false a lost v = record {
  usable = λ h. cc;
  same_client = λ h. cc;
  accounted = λ i h. ground (arith, closed_too i a.conn a.closed, v.accounted i);
  dialed_only = λ i h. ground (arith, closed_too i a.conn a.closed, v.dialed_only i);
}
connect-IsSound true a lost v = record {
  usable = λ h. ground (arith, closed_too a.dialed a.conn a.closed, v.dialed_only a.dialed);
  same_client = λ h. refl;
  accounted = λ i h. ground (arith, closed_too i a.conn a.closed, v.accounted i);
  dialed_only = λ i h. ground (arith, closed_too i a.conn a.closed, v.dialed_only i);
}

mark-IsSound : (a : GrpcAgent) → IsSound a → IsSound (mark_disconnected a)
unfolding mark_disconnected
mark-IsSound a v = record {
  usable = λ h. cc;
  same_client = λ h. cc;
  accounted = v.accounted;
  dialed_only = v.dialed_only;
}

stop-IsSound : (a : GrpcAgent) → IsSound a → IsSound (stop a)
unfolding stop
stop-IsSound a v = record {
  usable = λ h. cc;
  same_client = λ h. cc;
  accounted = λ i h. ground (arith, closed_too i a.conn a.closed, v.accounted i);
  dialed_only = λ i h. ground (arith, closed_too i a.conn a.closed, v.dialed_only i);
}

-- A branch of `if !connected`, and what a call leaves.
unless-IsSound :
    (connected : Bool) (a b : GrpcAgent)
    → (connected ≡ false → IsSound a)
    → IsSound b
    → IsSound (if not connected then a else b)
unless-IsSound true a b v w = w
unless-IsSound false a b v w = v refl

settled-IsSound :
    (client : Option ℕ) (c : Code) (a : GrpcAgent)
    → IsSound a
    → IsSound
        (elim client as (λ x. CallResult (Unit {0}) × GrpcAgent × Unit {0}) [
          | none ↦ (not_connected, a, tt)
          | some k ↦ settle a (failed c, tt)
        ]).1
settled-IsSound none c a v = v
settled-IsSound (some k) Code.unavailable a v = mark-IsSound a v
settled-IsSound (some k) Code.deadline_exceeded a v = mark-IsSound a v
settled-IsSound (some k) Code.other_code a v = v
settled-IsSound (some k) Code.no_status a v = v

step-IsSound : (e : Event) (a : GrpcAgent) → IsSound a → IsSound (step e a)
unfolding step manager_round call_server
step-IsSound (round d) a v =
    unless-IsSound a.connected (connect d a) a (λ lost. connect-IsSound d a lost v) v
step-IsSound (call_fails c) a v = settled-IsSound a.client c a v
step-IsSound stops a v = stop-IsSound a v

run_all-IsSound : (es : List Event) (a : GrpcAgent) → IsSound a → IsSound (run_all es a)
run_all-IsSound [] a v = v
run_all-IsSound (e ∷ es) a v = run_all-IsSound es (step e a) (step-IsSound e a v)

abbrev pub same : Option ℕ → Option ℕ → Bool
same none none = true
same (some i) (some j) = i == j
same _ _ = false

same_refl : (o : Option ℕ) → same o o ≡ true
same_refl none = refl
same_refl (some i) = ground arith

in_use :
    (a : GrpcAgent)
    → IsSound a
    → (not a.connected || (is_open a.conn a.closed && same a.client a.conn)) ≡ true
in_use a v = elim (Bool-cases a.connected) [
  | inl p ↦ simp (p, v.usable p, v.same_client p, same_refl a.conn)
  | inr p ↦ rw p refl
]

numbered :
    (a : GrpcAgent) (i : ℕ) → IsSound a → (elem i a.closed || is_conn i a.conn) ≡ ltb i a.dialed
numbered a i v = ground (arith, v.accounted i, v.dialed_only i)

-- After any sequence of rounds of the manager, failing calls and stops, in any order: where the agent
-- counts as connected, its present connection is open and is the one that its calls go over; and the
-- connections that were made are exactly those that are closed and the present one.
pub run_all-holds :
    (es : List Event) (i : ℕ)
    → let a = run_all es new_agent in
      ((not a.connected || (is_open a.conn a.closed && same a.client a.conn)) ≡ true)
      × ((elem i a.closed || is_conn i a.conn) ≡ ltb i a.dialed)
run_all-holds es i =
    let v = run_all-IsSound es new_agent new_agent-IsSound in
    (in_use (run_all es new_agent) v, numbered (run_all es new_agent) i v)
