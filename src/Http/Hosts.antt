-- ===== src/Http/Hosts.antt =====
-- The handlers of http_controller.go, over the methods of the host service; no route leads to them. Their replies are maps of
-- their own, and they do not test the identifier in the path: 0 stands for the empty text.
use Prim.Native.String.{String}
use devops_manager.Prelude.{ℕ, Bool, true, false, Option, none, some, Time, List}
use devops_manager.Admission.{
  HostInfo, HostState, PendingHost, StatusReport, Error, Result, ok, err, identified, register_host,
  get_all_hosts, get_host, update_host, delete_host, get_pending_hosts, get_pending_hosts_count,
  approve_host, reject_host, report_host_status, get_host_status, unix,
}
use devops_manager.Http.Tasks.{Bound, invalid, bound}

-- The members of the map beside `success`.
pub data Body (D : Type 0) : Type 0 where
  error_message : String → Body D
  assigned_id : ℕ → Body D
  payload : D → Body D
  message : String → Body D
  nothing_else : Body D

pub record HostReply (D : Type 0) : Type 0 where
  pub code : ℕ
  pub success : Bool
  pub body : Body D

module _ {D : Type 0} where
  abbrev pub refused : ℕ → String → HostReply D
  refused status_code text = record {
    code = status_code;
    success = false;
    body = error_message text;
  }

  abbrev pub accepted : Body D → HostReply D
  accepted b = record { code = 200; success = true; body = b }

module _ (error_text : Error → String) where
  -- `if err != nil` with one status code, and the reply else.
  unfoldable pub answered {ℓ} :
      {A : Type ℓ} {D : Type 0} → ℕ → (A → Body D) → Result A × HostState → HostReply D × HostState
  answered status_code respond (ok a, s) = (accepted (respond a), s)
  answered status_code respond (err e, s) = (refused status_code (error_text e), s)

  -- `if err == service.ErrHostNotFound`
  failure : {D : Type 0} → Error → HostReply D
  failure Error.host_not_found = refused 404 "Host not found"
  failure e = refused 500 (error_text e)

  unfoldable pub answered_or_not_found {ℓ} :
      {A : Type ℓ} {D : Type 0} → (A → Body D) → Result A × HostState → HostReply D × HostState
  unfolding failure
  answered_or_not_found respond (ok a, s) = (accepted (respond a), s)
  answered_or_not_found respond (err e, s) = (failure e, s)

  -- The service sets the identifier and the time of what it is given.
  unfoldable pub register_host_handler :
      (generated : Time → ℕ) → Bound HostInfo → Time → HostState → HostReply (Unit {0}) × HostState
  unfolding register_host identified answered
  register_host_handler generated (invalid text) now s = (refused 400 text, s)
  register_host_handler generated (bound info) now s =
      answered 500 (λ _. assigned_id (identified generated info now).id)
        (register_host generated info now s)

  unfoldable pub get_hosts_handler : HostState → HostReply (List HostInfo) × HostState
  unfolding get_all_hosts answered
  get_hosts_handler s = answered 500 payload (get_all_hosts s)

  abbrev pub found_or_not : Result (Option HostInfo) × HostState → HostReply HostInfo × HostState
  found_or_not (ok (some info), s) = (accepted (payload info), s)
  found_or_not (ok none, s) = (refused 404 "Host not found", s)
  found_or_not (err e, s) = (refused 404 "Host not found", s)

  unfoldable pub get_host_handler : ℕ → HostState → HostReply HostInfo × HostState
  unfolding get_host
  get_host_handler id s = found_or_not (get_host id s)

  unfoldable pub update_host_handler :
      ℕ → Bound HostInfo → Time → HostState → HostReply HostInfo × HostState
  unfolding update_host answered_or_not_found unix
  update_host_handler id (invalid text) now s = (refused 400 text, s)
  update_host_handler id (bound info) now s =
      answered_or_not_found (λ _. payload (record info { id = id; last_seen = unix now }))
        (update_host (record info { id = id }) now s)

  unfoldable pub delete_host_handler : ℕ → Time → HostState → HostReply (Unit {0}) × HostState
  unfolding delete_host answered_or_not_found
  delete_host_handler id now s = answered_or_not_found (λ _. nothing_else) (delete_host id now s)

  unfoldable pub get_pending_hosts_handler : HostState → HostReply (List PendingHost) × HostState
  unfolding get_pending_hosts answered
  get_pending_hosts_handler s = answered 500 payload (get_pending_hosts s)

  unfoldable pub get_pending_hosts_count_handler : HostState → HostReply ℕ × HostState
  unfolding get_pending_hosts_count answered
  get_pending_hosts_count_handler s = answered 500 payload (get_pending_hosts_count s)

  unfoldable pub approve_host_handler : ℕ → Time → HostState → HostReply (Unit {0}) × HostState
  unfolding approve_host answered
  approve_host_handler id now s =
      answered 500 (λ _. message "Host approved successfully") (approve_host id now s)

  unfoldable pub reject_host_handler : ℕ → HostState → HostReply (Unit {0}) × HostState
  unfolding reject_host answered
  reject_host_handler id s =
      answered 500 (λ _. message "Host rejected successfully") (reject_host id s)

  unfoldable pub report_host_status_handler :
      ℕ → Bound StatusReport → Time → HostState → HostReply (Unit {0}) × HostState
  unfolding report_host_status answered
  report_host_status_handler id (invalid text) now s = (refused 400 text, s)
  report_host_status_handler id (bound r) now s =
      answered 500 (λ _. message "Status report received successfully")
        (report_host_status (record r { host_id = id }) now s)

  unfoldable pub get_host_status_handler : ℕ → HostState → HostReply StatusReport × HostState
  unfolding get_host_status answered
  get_host_status_handler id s = answered 404 payload (get_host_status id s)
