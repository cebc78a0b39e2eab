-- ===== src/Admission/Stale.antt =====
-- The cached copy of a host outlives what its own reports say.
use devops_manager.Prelude.{◌≡◌, ◌==◌, some, Time, List, first, arith, Option-cases, inl, inr}
use devops_manager.Admission.Effects.{Host, HostInfo, PendingHost, ok, StatusReport, call}
use devops_manager.Admission.Service.{get_host, report_host_status}
use devops_manager.Admission.Rows.{find_approved, save, with_report, cache_host_status, cache_host}
use devops_manager.Admission.Spec.{calm}

-- As long as the copy of a host in the cache has not expired, get_host answers with it after every
-- report of the host, although the report changes the times, the tags and perhaps the address of the
-- row.
pub report_host_status-stale :
    (r : StatusReport) (now : Time) (hosts : List Host) (pending : List PendingHost)
    (cached : List HostInfo) (cached_status : List StatusReport) (info : HostInfo)
    → first (λ k. k.id == r.host_id) cached ≡ some info
    → (get_host r.host_id (report_host_status r now (calm hosts pending cached cached_status)).1).0
      ≡ ok (some info)
unfolding get_host report_host_status call save with_report cache_host_status cache_host
report_host_status-stale r now hosts pending cached cached_status info e =
    elim (Option-cases (find_approved r.host_id hosts)) [
      | inl f ↦ ground (arith, f, e)
      | inr (h, f) ↦ ground (arith, f, e)
    ]
