-- ===== src/Agent/Hosts.antt =====
-- HostAgent of agent/pkg/service/host_service.go: registration of the host at the server, and the reports
-- of its status. The two calls are `remote`, from the message and the state of the other end to what
-- the call returns. The identifier 0 stands for the empty text; the zero of a time is 0.
pub mod Healing
use Prim.Native.String.{String, ◌++◌}
use devops_manager.Prelude.{
  ℕ, ◌+◌, ◌*◌, ◌==◌, Bool, true, false, not, ◌&&◌, ◌||◌, Option, none, some, Time, List, [], ◌∷◌,
  ltb, if◌then◌else◌,
}
use devops_manager.Admission.{HostInfo, StatusReport, merge_tags, unix}
use devops_manager.Http.Grpc.{RegisterResponse, HostStatusResponse}
use devops_manager.Agent.Client.{
  GrpcAgent, Returned, CallResult, answered, not_connected, call_failed, Code, call_server,
  new_agent,
}

pub record HostAgent : Type 0 where
  pub tags : List (String × String)
  pub grpc_agent : GrpcAgent
  pub host_info : HostInfo
  pub start_time : Time
  pub is_registered : Bool
  pub last_register : Time

-- What updateHostInfo measures of the process.
pub record Measured : Type 0 where
  pub goroutines : String
  pub memory_mb : String
  pub uptime : String
  pub cpu_count : String

unfoldable pub generate_agent_id : (generated : Time → ℕ) → (config_id : ℕ) → Time → ℕ
generate_agent_id generated config_id now =
    if not (config_id == 0) then config_id else generated now

-- `hostname`, `ip` and `os` are what the functions of utils and the runtime give.
unfoldable pub new_host_agent :
    (generated : Time → ℕ) (config_id : ℕ) (tags : List (String × String)) (hostname ip os : String)
    → Time
    → HostAgent
unfolding generate_agent_id merge_tags new_agent
new_host_agent generated config_id tags hostname ip os now = record {
  tags = tags;
  grpc_agent = new_agent;
  host_info = record {
    id = generate_agent_id generated config_id now;
    hostname = hostname;
    ip = ip;
    os = os;
    tags = merge_tags tags [];
    last_seen = 0;
  };
  start_time = now;
  is_registered = false;
  last_register = 0;
}

unfoldable pub update_host_info : Measured → Time → HostAgent → HostAgent
unfolding merge_tags unix
update_host_info m now ha = record ha {
  host_info = record ha.host_info {
    last_seen = unix now;
    tags =
        merge_tags
          (("goroutines", m.goroutines)
            ∷ ("memory_mb", m.memory_mb)
            ∷ ("uptime", m.uptime)
            ∷ ("cpu_count", m.cpu_count)
            ∷ [])
          ha.host_info.tags;
  };
}

pub data AgentError : Type 0 where
  registration_failed report_failed : (message : String) → AgentError
  client_not_connected : AgentError
  call_error : Code → AgentError

-- `err.Error()`; the text of a call's error is an argument.
unfoldable pub message_of : (code_text : Code → String) → AgentError → String
message_of code_text (registration_failed message) = "registration failed: " ++ message
message_of code_text (report_failed message) = "status report failed: " ++ message
message_of code_text client_not_connected = "client not connected"
message_of code_text (call_error c) = code_text c

-- `status` is what GetSystemStatus gives.
abbrev pub own_status : HostAgent → StatusReport → StatusReport
unfolding merge_tags
own_status ha status = record status {
  host_id = ha.host_info.id;
  tags = merge_tags ha.tags status.tags;
}

module _ {S : Type 0} where
  abbrev pub registered_by :
      Time
      → HostAgent
      → CallResult RegisterResponse × GrpcAgent × S
      → Option AgentError × HostAgent × S
  registered_by now ha (answered r, a, s) =
      if r.success
      then (none, record ha { grpc_agent = a; is_registered = true; last_register = now }, s)
      else (some (registration_failed r.error_message), record ha { grpc_agent = a }, s)
  registered_by now ha (not_connected, a, s) =
      (some client_not_connected, record ha { grpc_agent = a }, s)
  registered_by now ha (call_failed c, a, s) =
      (some (call_error c), record ha { grpc_agent = a }, s)

  -- `now` is the time of all three calls of time.Now.
  unfoldable pub try_register :
      (remote : HostInfo → S → Returned RegisterResponse × S)
      → Measured
      → Time
      → HostAgent
      → S
      → Option AgentError × HostAgent × S
  unfolding update_host_info call_server
  try_register remote m now ha s =
      if not ha.is_registered || ltb (ha.last_register + 3600 * 1000000000) now
      then registered_by now (update_host_info m now ha)
          (call_server (remote (update_host_info m now ha).host_info) ha.grpc_agent s)
      else (none, ha, s)

  abbrev pub reported_by :
      HostAgent → CallResult HostStatusResponse × GrpcAgent × S → Option AgentError × HostAgent × S
  reported_by ha (answered r, a, s) =
      if r.success
      then (none, record ha { grpc_agent = a }, s)
      else (some (report_failed r.message), record ha { grpc_agent = a }, s)
  reported_by ha (not_connected, a, s) =
      (some client_not_connected, record ha { grpc_agent = a }, s)
  reported_by ha (call_failed c, a, s) = (some (call_error c), record ha { grpc_agent = a }, s)

  unfoldable pub report_status :
      (remote : StatusReport → S → Returned HostStatusResponse × S)
      → StatusReport
      → HostAgent
      → S
      → Option AgentError × HostAgent × S
  unfolding merge_tags call_server
  report_status remote status ha s =
      reported_by ha (call_server (remote (own_status ha status)) ha.grpc_agent s)

  -- A tick of the register ticker in statusReporter; an error is only printed.
  unfoldable pub register_tick :
      (remote : HostInfo → S → Returned RegisterResponse × S)
      → Measured
      → Time
      → HostAgent
      → S
      → HostAgent × S
  unfolding try_register
  register_tick remote m now ha s =
      if ha.grpc_agent.connected && not ha.is_registered
      then (let r = try_register remote m now ha s in (r.1, r.2))
      else (ha, s)

  module _ (contains : (text part : String) → Bool) (code_text : Code → String) where
    abbrev pub after_report : Option AgentError × HostAgent × S → HostAgent × S
    unfolding message_of
    after_report (none, ha, s) = (ha, s)
    after_report (some e, ha, s) =
        if contains (message_of code_text e) "not found"
          || contains (message_of code_text e) "not approved"
        then (record ha { is_registered = false }, s)
        else (ha, s)

    -- A tick of the report ticker.
    unfoldable pub report_tick :
        (remote : StatusReport → S → Returned HostStatusResponse × S)
        → StatusReport
        → HostAgent
        → S
        → HostAgent × S
    unfolding report_status
    report_tick remote status ha s =
        if ha.grpc_agent.connected && ha.is_registered
        then after_report (report_status remote status ha s)
        else (ha, s)
