-- ===== src/Http/HostRoutes.antt =====
-- The handlers of http_host_controller.go, to which the routes of hosts lead. They do not test the
-- identifier in the path: 0 stands for the empty text.
use Prim.Native.String.{String}
use devops_manager.Prelude.{ℕ, Option, none, some, Time, List}
use devops_manager.Admission.{
  HostInfo, HostState, PendingHost, StatusReport, Error, Result, ok, err, identified, register_host,
  get_all_hosts, get_host, update_host, delete_host, get_pending_hosts, get_pending_hosts_count,
  approve_host, reject_host, report_host_status, get_host_status, unix,
}
use devops_manager.Http.Reply.{
  Reply, send_success_response, send_error_response, send_message_response,
}
use devops_manager.Http.Tasks.{Bound, invalid, bound}

module _ (error_text : Error → String) where
  -- `if err != nil` with one status code, and the reply else.
  unfoldable pub answered {ℓ} :
      {A : Type ℓ} {D : Type 0} → ℕ → (A → Reply D) → Result A × HostState → Reply D × HostState
  unfolding send_error_response
  answered status_code respond (ok a, s) = (respond a, s)
  answered status_code respond (err e, s) = (send_error_response status_code (error_text e), s)

  -- `if err == service.ErrHostNotFound`
  failure : {D : Type 0} → Error → Reply D
  unfolding send_error_response
  failure Error.host_not_found = send_error_response 404 "Host not found"
  failure e = send_error_response 500 (error_text e)

  unfoldable pub answered_or_not_found {ℓ} :
      {A : Type ℓ} {D : Type 0} → (A → Reply D) → Result A × HostState → Reply D × HostState
  unfolding failure
  answered_or_not_found respond (ok a, s) = (respond a, s)
  answered_or_not_found respond (err e, s) = (failure e, s)

  -- The service sets the identifier and the time of what it is given.
  unfoldable pub register_host_handler :
      (generated : Time → ℕ) → Bound HostInfo → Time → HostState → Reply ℕ × HostState
  unfolding register_host identified answered send_success_response send_error_response
  register_host_handler generated (invalid text) now s = (send_error_response 400 text, s)
  register_host_handler generated (bound info) now s =
      answered 500 (λ _. send_success_response (identified generated info now).id)
        (register_host generated info now s)

  unfoldable pub get_hosts_handler : HostState → Reply (List HostInfo) × HostState
  unfolding get_all_hosts answered send_success_response
  get_hosts_handler s = answered 500 send_success_response (get_all_hosts s)

  abbrev found_or_not : Result (Option HostInfo) × HostState → Reply HostInfo × HostState
  unfolding send_success_response send_error_response
  found_or_not (ok (some info), s) = (send_success_response info, s)
  found_or_not (ok none, s) = (send_error_response 404 "Host not found", s)
  found_or_not (err e, s) = (send_error_response 404 "Host not found", s)

  unfoldable pub get_host_handler : ℕ → HostState → Reply HostInfo × HostState
  unfolding get_host send_success_response send_error_response
  get_host_handler id s = found_or_not (get_host id s)

  unfoldable pub update_host_handler :
      ℕ → Bound HostInfo → Time → HostState → Reply HostInfo × HostState
  unfolding update_host answered_or_not_found unix send_success_response send_error_response
  update_host_handler id (invalid text) now s = (send_error_response 400 text, s)
  update_host_handler id (bound info) now s =
      answered_or_not_found
        (λ _. send_success_response (record info { id = id; last_seen = unix now }))
        (update_host (record info { id = id }) now s)

  unfoldable pub delete_host_handler : ℕ → Time → HostState → Reply (Unit {0}) × HostState
  unfolding delete_host answered_or_not_found send_message_response
  delete_host_handler id now s =
      answered_or_not_found (λ _. send_message_response "Host deleted successfully")
        (delete_host id now s)

  unfoldable pub get_pending_hosts_handler : HostState → Reply (List PendingHost) × HostState
  unfolding get_pending_hosts answered send_success_response
  get_pending_hosts_handler s = answered 500 send_success_response (get_pending_hosts s)

  unfoldable pub get_pending_hosts_count_handler : HostState → Reply ℕ × HostState
  unfolding get_pending_hosts_count answered send_success_response
  get_pending_hosts_count_handler s = answered 500 send_success_response (get_pending_hosts_count s)

  unfoldable pub approve_host_handler : ℕ → Time → HostState → Reply (Unit {0}) × HostState
  unfolding approve_host answered send_message_response
  approve_host_handler id now s =
      answered 500 (λ _. send_message_response "Host approved successfully") (approve_host id now s)

  unfoldable pub reject_host_handler : ℕ → HostState → Reply (Unit {0}) × HostState
  unfolding reject_host answered send_message_response
  reject_host_handler id s =
      answered 500 (λ _. send_message_response "Host rejected successfully") (reject_host id s)

  unfoldable pub report_host_status_handler :
      ℕ → Bound StatusReport → Time → HostState → Reply (Unit {0}) × HostState
  unfolding report_host_status answered send_message_response send_error_response
  report_host_status_handler id (invalid text) now s = (send_error_response 400 text, s)
  report_host_status_handler id (bound r) now s =
      answered 500 (λ _. send_message_response "Status report received successfully")
        (report_host_status (record r { host_id = id }) now s)

  unfoldable pub get_host_status_handler : ℕ → HostState → Reply StatusReport × HostState
  unfolding get_host_status answered send_success_response
  get_host_status_handler id s = answered 404 send_success_response (get_host_status id s)
