-- ===== src/Agent/Client.antt =====
-- Agent of agent/pkg/grpc/client.go: the connection to the server, and the calls over it. A connection is
-- the number of the dial that made it, and `closed` holds those that Close was called on. What grpc.Dial
-- and a call return are arguments.
pub mod History
pub mod Calls
use devops_manager.Prelude.{
  ℕ, ◌+◌, Bool, true, false, not, Option, none, some, List, [], ◌∷◌, if◌then◌else◌,
}

pub record GrpcAgent : Type 0 where
  pub conn : Option ℕ
  pub client : Option ℕ
  pub connected : Bool
  pub dialed : ℕ
  pub closed : List ℕ

unfoldable pub new_agent : GrpcAgent
new_agent = record { conn = none; client = none; connected = false; dialed = 0; closed = [] }

-- `if c.conn != nil { c.conn.Close() }`
abbrev pub with_closed : Option ℕ → List ℕ → List ℕ
with_closed none cs = cs
with_closed (some c) cs = c ∷ cs

-- Where the dial fails, `conn` stays the old connection, which is closed.
unfoldable pub connect : (dial_succeeds : Bool) → GrpcAgent → GrpcAgent
connect dial_succeeds a =
    let b = record a { closed = with_closed a.conn a.closed } in
    if dial_succeeds
    then record b {
      conn = some a.dialed;
      client = some a.dialed;
      connected = true;
      dialed = a.dialed + 1;
    }
    else b

-- A round of connectionManager.
unfoldable pub manager_round : (dial_succeeds : Bool) → GrpcAgent → GrpcAgent
unfolding connect
manager_round dial_succeeds a = if not a.connected then connect dial_succeeds a else a

unfoldable pub stop : GrpcAgent → GrpcAgent
stop a = record a { conn = none; connected = false; closed = with_closed a.conn a.closed }

unfoldable pub mark_disconnected : GrpcAgent → GrpcAgent
mark_disconnected a = record a { connected = false }

-- The code of the status that a failed call returns, or an error that is no status.
pub data Code : Type 0 where
  unavailable deadline_exceeded other_code no_status : Code

pub data Returned (A : Type 0) : Type 0 where
  response : A → Returned A
  failed : Code → Returned A

pub data CallResult (A : Type 0) : Type 0 where
  answered : A → CallResult A
  not_connected : CallResult A
  call_failed : Code → CallResult A

-- The errors after which the agent takes the connection for lost.
abbrev pub is_loss : Code → Bool
is_loss Code.unavailable = true
is_loss Code.deadline_exceeded = true
is_loss _ = false

module _ {A S : Type 0} where
  abbrev pub settle : GrpcAgent → Returned A × S → CallResult A × GrpcAgent × S
  settle a (response r, s) = (answered r, a, s)
  settle a (failed c, s) = (call_failed c, (if is_loss c then mark_disconnected a else a), s)

  -- Register and ReportStatus, by the call that the client makes and the state of the other end. Neither
  -- looks at `connected`.
  unfoldable pub call_server :
      (remote : S → Returned A × S) → GrpcAgent → S → CallResult A × GrpcAgent × S
  unfolding mark_disconnected
  call_server remote a s = elim a.client [
    | none ↦ (not_connected, a, s)
    | some c ↦ settle a (remote s)
  ]
