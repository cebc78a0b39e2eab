-- ===== src/Tests/Links.antt =====
-- An agent that loses its connection, and one that the server does not know any more.
use Prim.Native.Char.{code}
use Prim.Native.String.{String, ◌++◌}
use devops_manager.Prelude.{
  ◌≡◌, refl, Bool, true, false, not, ◌&&◌, ◌||◌, ◌==◌, ltb, elem, some, List, [], ◌∷◌,
}
use devops_manager.Admission.{Error}
use devops_manager.Agent.Client.{GrpcAgent, Code, new_agent}
use devops_manager.Agent.Client.History.{
  round, call_fails, stops, run_all, is_open, is_conn, same, run_all-holds,
}
use devops_manager.Agent.Client.History as Link
use devops_manager.Agent.Connection as Connection
use devops_manager.Agent.Connection.{
  monitors, beats, link, alternates, last_or, set_callbacks, new_connection_service,
  run_all-alternates,
}
use devops_manager.Agent.Hosts.{HostAgent, Measured, register_tick, report_tick}
use devops_manager.Agent.Hosts.Healing.{
  IsLinked, Joins, server_register, server_report, ticks-Joins,
}
use devops_manager.Tests.Admission.{info, moved_report, stamp, start, start-IsCalm}

-- The connection is lost, made anew, and Stop comes before the last round of the manager.
abbrev events : List Link.Event
events =
    round true ∷ call_fails Code.unavailable ∷ round false ∷ round true ∷ stops ∷ round true ∷ []

abbrev held : GrpcAgent
held = run_all events new_agent

run_all-holds_example :
    ((not held.connected || (is_open held.conn held.closed && same held.client held.conn)) ≡ true)
    × ((elem 1 held.closed || is_conn 1 held.conn) ≡ ltb 1 held.dialed)
run_all-holds_example = run_all-holds events 1

abbrev ticks : List Connection.Event
ticks =
    monitors
    ∷ link (round true)
    ∷ monitors
    ∷ beats 5
    ∷ link (call_fails Code.unavailable)
    ∷ monitors
    ∷ []

run_all-alternates_example :
    (alternates false
        (Connection.run_all ticks (set_callbacks true true new_connection_service)).called
      ≡ true)
    × (last_or false
          (Connection.run_all ticks (set_callbacks true true new_connection_service)).called
        ≡ (Connection.run_all ticks (set_callbacks true true new_connection_service)).is_connected)
run_all-alternates_example = run_all-alternates ticks

starts_with : (text part : String) → Bool
starts_with text String.[] = true
starts_with String.[] (String.◌∷◌ c part) = false
starts_with (String.◌∷◌ c text) (String.◌∷◌ d part) = code c == code d && starts_with text part

contains : (text part : String) → Bool
unfolding starts_with
contains String.[] part = starts_with String.[] part
contains (String.◌∷◌ c text) part = starts_with (String.◌∷◌ c text) part || contains text part

abbrev texts : Error → String
texts e = "host not found or not approved: 4"

texts_recognised :
    contains ("status report failed: " ++ texts Error.not_approved) "not found" ≡ true
unfolding contains starts_with
texts_recognised = refl

-- Host 4 counts itself as registered, and waits at the server.
abbrev lost : HostAgent
lost = record {
  tags = ("room", "b") ∷ [];
  grpc_agent = record { conn = some 0; client = some 0; connected = true; dialed = 1; closed = [] };
  host_info = record info { id = 4 };
  start_time = 1;
  is_registered = true;
  last_register = 2;
}

abbrev measured : Measured
measured = record { goroutines = "7"; memory_mb = "3.10"; uptime = "1m"; cpu_count = "2" }

lost-IsLinked : IsLinked lost
lost-IsLinked = record {
  connected = refl;
  client = 0;
  has_client = refl;
  known = refl;
  named = refl;
}

ticks-Joins_example : Joins 4 start (
    register_tick
      (server_register texts stamp 90)
      measured
      90
      (report_tick contains
        (λ c. "unavailable")
        (server_report texts stamp 80)
        moved_report
        lost
        start).0
      (report_tick contains
        (λ c. "unavailable")
        (server_report texts stamp 80)
        moved_report
        lost
        start).1)
ticks-Joins_example =
    ticks-Joins texts stamp contains (λ c. "unavailable") texts_recognised moved_report measured 80
      90 lost start lost-IsLinked start-IsCalm
