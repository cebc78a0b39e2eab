-- ===== src/Agent/Connection.antt =====
-- ConnectionService of agent/pkg/service/connection_service.go: the monitor that follows the state of the
-- gRPC client and calls back where it changes, and the heartbeat. `called` are the callbacks in their
-- order: `true` for onConnected, `false` for onDisconnected.
use devops_manager.Prelude.{
  ◌≡◌, refl, Bool, true, false, not, ◌&&◌, Option, none, some, Time, List, [], ◌∷◌, ◌++◌,
  if◌then◌else◌, arith,
}
use devops_manager.Agent.Client.{GrpcAgent, new_agent, stop}
use devops_manager.Agent.Client.History as Link

pub record ConnectionService : Type 0 where
  pub grpc_client : GrpcAgent
  pub is_connected : Bool
  pub last_ping : Option Time
  pub on_connected : Bool
  pub on_disconnected : Bool
  pub called : List Bool

unfoldable pub new_connection_service : ConnectionService
unfolding new_agent
new_connection_service = record {
  grpc_client = new_agent;
  is_connected = false;
  last_ping = none;
  on_connected = false;
  on_disconnected = false;
  called = [];
}

-- The arguments say which callbacks are given.
unfoldable pub set_callbacks :
    (on_connected on_disconnected : Bool) → ConnectionService → ConnectionService
set_callbacks on_connected on_disconnected cs = record cs {
  on_connected = on_connected;
  on_disconnected = on_disconnected;
}

-- `if cs.onConnected != nil { cs.onConnected() }`
abbrev pub call_back : (is_given which : Bool) → List Bool → List Bool
call_back is_given which called = if is_given then called ++ which ∷ [] else called

-- A tick of connectionMonitor.
unfoldable pub monitor_tick : ConnectionService → ConnectionService
monitor_tick cs =
    let connected = cs.grpc_client.connected in
    record cs {
      is_connected = connected;
      called =
          (if connected && not cs.is_connected
            then call_back cs.on_connected true cs.called
            else if not connected && cs.is_connected
            then call_back cs.on_disconnected false cs.called
            else cs.called);
    }

-- A tick of heartbeatLoop.
unfoldable pub heartbeat_tick : Time → ConnectionService → ConnectionService
heartbeat_tick now cs = record cs {
  last_ping = (if cs.is_connected then some now else cs.last_ping);
}

pub data SendError : Type 0 where
  not_connected not_implemented : SendError

-- SendMessage always returns an error.
unfoldable pub send_message : ConnectionService → SendError
send_message cs = if not cs.is_connected then not_connected else not_implemented

unfoldable pub stop_service : ConnectionService → ConnectionService
unfolding stop
stop_service cs = record cs { grpc_client = stop cs.grpc_client }

-- What happens to the service and its client.
pub data Event : Type 0 where
  monitors stops : Event
  beats : Time → Event
  link : Link.Event → Event

unfoldable pub step : Event → ConnectionService → ConnectionService
unfolding monitor_tick heartbeat_tick stop_service Link.step
step monitors cs = monitor_tick cs
step (beats now) cs = heartbeat_tick now cs
step stops cs = stop_service cs
step (link e) cs = record cs { grpc_client = Link.step e cs.grpc_client }

abbrev pub run_all : List Event → ConnectionService → ConnectionService
run_all [] cs = cs
run_all (e ∷ es) cs = run_all es (step e cs)

-- Each call tells a change.
abbrev pub alternates : Bool → List Bool → Bool
alternates b [] = true
alternates b (true ∷ cs) = not b && alternates true cs
alternates b (false ∷ cs) = b && alternates false cs

abbrev pub last_or : Bool → List Bool → Bool
last_or b [] = b
last_or b (c ∷ cs) = last_or c cs

alternates-append :
    (b c : Bool) (cs : List Bool)
    → alternates b cs ≡ true
    → last_or b cs ≡ not c
    → alternates b (cs ++ c ∷ []) ≡ true
alternates-append b true [] h e = ground (arith, e)
alternates-append b false [] h e = ground (arith, e)
alternates-append b c (true ∷ cs) h e = ground (arith, h, alternates-append true c cs, e)
alternates-append b c (false ∷ cs) h e = ground (arith, h, alternates-append false c cs, e)

last_or-append : (b c : Bool) (cs : List Bool) → last_or b (cs ++ c ∷ []) ≡ c
last_or-append b c [] = refl
last_or-append b c (d ∷ cs) = last_or-append d c cs

record IsTold (cs : ConnectionService) : Type 0 where
  pub given : (cs.on_connected ≡ true) × (cs.on_disconnected ≡ true)
  pub in_turn : alternates false cs.called ≡ true
  pub up_to_date : last_or false cs.called ≡ cs.is_connected

monitor_tick-IsTold : (cs : ConnectionService) → IsTold cs → IsTold (monitor_tick cs)
unfolding monitor_tick
monitor_tick-IsTold cs v = record {
  given = v.given;
  in_turn = ground (
    arith,
    v.given,
    v.in_turn,
    v.up_to_date,
    alternates-append false true cs.called,
    alternates-append false false cs.called,
  );
  up_to_date = ground (
    arith,
    v.given,
    v.up_to_date,
    last_or-append false true cs.called,
    last_or-append false false cs.called,
  );
}

run_all-IsTold : (es : List Event) (cs : ConnectionService) → IsTold cs → IsTold (run_all es cs)
unfolding step heartbeat_tick stop_service
run_all-IsTold [] cs v = v
run_all-IsTold (monitors ∷ es) cs v = run_all-IsTold es (monitor_tick cs) (monitor_tick-IsTold cs v)
run_all-IsTold (beats now ∷ es) cs v =
    run_all-IsTold es (heartbeat_tick now cs)
      (record { given = v.given; in_turn = v.in_turn; up_to_date = v.up_to_date })
run_all-IsTold (stops ∷ es) cs v =
    run_all-IsTold es (stop_service cs)
      (record { given = v.given; in_turn = v.in_turn; up_to_date = v.up_to_date })
run_all-IsTold (link e ∷ es) cs v =
    run_all-IsTold es (record cs { grpc_client = Link.step e cs.grpc_client })
      (record { given = v.given; in_turn = v.in_turn; up_to_date = v.up_to_date })

-- A new service whose two callbacks are set calls them in turn, onConnected first, whatever ticks and
-- events of the client follow; and it counts as connected exactly where the last call was
-- onConnected.
pub run_all-alternates :
    (es : List Event)
    → let cs = run_all es (set_callbacks true true new_connection_service) in
      (alternates false cs.called ≡ true) × (last_or false cs.called ≡ cs.is_connected)
unfolding set_callbacks new_connection_service
run_all-alternates es =
    let v =
      run_all-IsTold es (set_callbacks true true new_connection_service)
        (record { given = (refl, refl); in_turn = refl; up_to_date = refl }) in
    (v.in_turn, v.up_to_date)
