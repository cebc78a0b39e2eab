-- ===== src/Tests/Dispatch.antt =====
-- Agents that connect twice, whose streams end, and to which a send fails.
use devops_manager.Prelude.{◌≤◌, ◌≡◌, refl, true, false, none, some, Time, List, [], ◌∷◌}
use devops_manager.Models.CommandContent.{CommandContent}
use devops_manager.Db.{Session, quiet}
use devops_manager.ConnectionPool.{
  AgentConnection, get_connection, put, new_connection_pool, add_connection, update_last_ping,
}
use devops_manager.ConnectionPool.Contexts.{cancels}
use devops_manager.Dispatch.{
  Controller, Stream, opened, on_message, on_result, on_content, greeted, pinged, register_agent,
  on_closed, cancel_found, disconnect_found,
}
use devops_manager.Dispatch.History.{
  Event, receives, cancels_found, after, canceled_early, get_connection-canceled,
}
use devops_manager.Dispatch.Streams.{heartbeat, stream_of, on_closed-drops_newer}
use devops_manager.Tests.Samples.{busy, statuses}

abbrev beat : CommandContent
beat = record {
  command_id = 0;
  host_id = 5;
  command = "heartbeat";
  parameters = "";
  timeout = none;
  created_at = none;
}

abbrev session : Session
session = quiet busy false statuses []

-- Agent 5 sends a heartbeat on stream 70.
abbrev events : List (Event × Time)
events = (receives (heartbeat beat) (opened 70), 10) ∷ []

abbrev connection : AgentConnection
connection = record {
  agent_id = 5;
  stream = 70;
  connected_at = 10;
  last_ping = 10;
  is_active = true;
  context = 0;
}

-- DisconnectAgent has canceled the connection that it found, and has not removed it yet.
abbrev disconnecting : List (Event × Time)
disconnecting = (cancels_found connection, 20) ∷ events

get_connection-canceled_example :
    (cancels 0 (after session disconnecting).pool.canceled
      ≤ cancels 0 (canceled_early disconnecting))
    × (get_connection 5 (disconnect_found 5 30 (after session disconnecting)).pool ≡ none)
unfolding after on_message on_result on_content greeted pinged register_agent add_connection
    update_last_ping get_connection new_connection_pool put cancel_found
get_connection-canceled_example = get_connection-canceled session disconnecting 5 connection 30 refl

abbrev old : Stream
old = record { stream = 70; agent_id = 5; is_registered = true }

on_closed-drops_newer_example :
    let c = (on_message (heartbeat beat) (opened 71) 20 (after session events)).1 in
    (stream_of (get_connection 5 c.pool) ≡ some 71)
    × (get_connection 5 (on_closed old 30 c).pool ≡ none)
on_closed-drops_newer_example = on_closed-drops_newer session events old 71 beat 20 30 refl refl

abbrev here : Controller
here = record { pool = (after session events).pool; session = session }
