-- ===== src/Http/Grpc.antt =====
-- server/pkg/controller/grpc_host_controller.go: registration and status reports of an agent over gRPC,
-- beside the handlers of the same requests over HTTP. A call returns no error; its reply says so.
use Prim.Native.String.{String}
use text.Mathlib.Text.{◌==◌ as str_eq}
use devops_manager.Prelude.{ℕ, ◌==◌, ◌≡◌, refl, Bool, true, false, Time, if◌then◌else◌}
use devops_manager.Admission.{
  HostInfo, HostState, StatusReport, Error, Result, ok, err, identified, register_host,
  report_host_status,
}
use devops_manager.Http.Reply.{send_success_response, send_error_response, send_message_response}
use devops_manager.Http.HostRoutes.{answered, register_host_handler, report_host_status_handler}
use devops_manager.Http.Tasks.{bound}

pub record RegisterResponse : Type 0 where
  pub success : Bool
  pub assigned_id : ℕ
  pub error_message : String

pub record HostStatusResponse : Type 0 where
  pub success : Bool
  pub message : String

module _ (error_text : Error → String) where
  abbrev pub registered : ℕ → Result (Unit {0}) × HostState → RegisterResponse × HostState
  registered id (ok a, s) = (record { success = true; assigned_id = id; error_message = "" }, s)
  registered id (err e, s) =
      (record { success = false; assigned_id = 0; error_message = error_text e }, s)

  unfoldable pub register :
      (generated : Time → ℕ) → HostInfo → Time → HostState → RegisterResponse × HostState
  unfolding register_host identified
  register generated info now s =
      if str_eq info.hostname ""
      then (record { success = false; assigned_id = 0; error_message = "Hostname is required" }, s)
      else registered (identified generated info now).id (register_host generated info now s)

  abbrev pub reported : Result (Unit {0}) × HostState → HostStatusResponse × HostState
  reported (ok a, s) =
      (record { success = true; message = "Status report received successfully" }, s)
  reported (err e, s) = (record { success = false; message = error_text e }, s)

  unfoldable pub report_status : StatusReport → Time → HostState → HostStatusResponse × HostState
  unfolding report_host_status
  report_status r now s =
      if r.host_id == 0
      then (record { success = false; message = "Host ID is required" }, s)
      else reported (report_host_status r now s)

  same_registered :
      (id : ℕ) (r : Result (Unit {0}) × HostState)
      → ((registered id r).0.success
          ≡ (answered error_text 500 (λ _. send_success_response id) r).0.body.success)
        × ((registered id r).1 ≡ (answered error_text 500 (λ _. send_success_response id) r).1)
  unfolding answered send_success_response send_error_response
  same_registered id (ok a, s) = (refl, refl)
  same_registered id (err e, s) = (refl, refl)

  same_reported :
      (r : Result (Unit {0}) × HostState) (text : String)
      → ((reported r).0.success
          ≡ (answered error_text {D = Unit {0}} 500
              (λ _. send_message_response text)
              r).0.body.success)
        × ((reported r).1
            ≡ (answered error_text {D = Unit {0}} 500 (λ _. send_message_response text) r).1)
  unfolding answered send_message_response send_error_response
  same_reported (ok a, s) text = (refl, refl)
  same_reported (err e, s) text = (refl, refl)

  -- A host that gives its name, and a report that names its host, come to the same over gRPC and over
  -- HTTP, whatever calls fail: the same success, and the same tables and caches.
  pub grpc-agrees :
      (generated : Time → ℕ) (info : HostInfo) (r : StatusReport) (now : Time) (s : HostState)
      → str_eq info.hostname "" ≡ false
      → (r.host_id == 0) ≡ false
      → (((register generated info now s).0.success
            ≡ (register_host_handler error_text generated (bound info) now s).0.body.success)
          × ((register generated info now s).1
              ≡ (register_host_handler error_text generated (bound info) now s).1))
        × (((report_status r now s).0.success
              ≡ (report_host_status_handler error_text r.host_id (bound r) now s).0.body.success)
            × ((report_status r now s).1
                ≡ (report_host_status_handler error_text r.host_id (bound r) now s).1))
  unfolding register report_status register_host_handler report_host_status_handler
  grpc-agrees generated info r now s named known =
      rw (named, known)
        (
          same_registered (identified generated info now).id (register_host generated info now s),
          same_reported (report_host_status r now s) "Status report received successfully",
        )
