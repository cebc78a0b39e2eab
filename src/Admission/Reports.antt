-- ===== src/Admission/Reports.antt =====
-- Reports of a host's status, against the standing of the host.
use devops_manager.Prelude.{
  ℕ, ◌≡◌, refl, sym, subst, true, none, some, Time, List, [], if◌then◌else◌, arith, Option-cases,
  inl, inr,
}
use devops_manager.Admission.Effects.{
  Host, HostInfo, PendingHost, HostState, Error, ok, err, StatusReport, call,
}
use devops_manager.Admission.Service.{report_host_status}
use devops_manager.Admission.Rows.{find_approved, find_host, save, with_report, cache_host_status}
use devops_manager.Admission.Spec.{IsValid, standing, calm}
use devops_manager.Admission.Tables.{
  find_approved-host, live-find, rewritten-rows, rewritten-live, rewritten-IsValid,
}
use devops_manager.Admission.Runs.{IsCalm}

-- A report is accepted exactly where its host is approved, and changes the standing of no host.
pub record IsReported (r : StatusReport) (now : Time) (s : HostState) : Type 0 where
  pub answer :
      (report_host_status r now s).0
      ≡ (if (standing r.host_id s).approved then ok tt else err Error.not_approved)
  pub same_standing : (j : ℕ) → standing j (report_host_status r now s).1 ≡ standing j s
  pub still_calm : IsCalm (report_host_status r now s).1

module _ (r : StatusReport) (now : Time) (hosts : List Host) (pending : List PendingHost)
    (cached : List HostInfo) (cached_status : List StatusReport) (v : IsValid hosts) where
  abbrev here : HostState
  here = calm hosts pending cached cached_status

  from_unknown : find_host r.host_id hosts ≡ none → IsReported r now here
  unfolding report_host_status call
  from_unknown e =
      let found : find_approved r.host_id hosts ≡ none =
        rw (find_approved-host r.host_id hosts v.admitted) e in
      let refused : report_host_status r now here ≡ (err Error.not_approved, here) =
        ground (arith, found) in
      record {
        answer = rw refused (ground (arith, e, live-find r.host_id hosts));
        same_standing = λ j. rw refused refl;
        still_calm = rw refused (record { valid = v; no_faults = refl; redis_there = refl });
      }

  from_known : (h : Host) → find_host r.host_id hosts ≡ some h → IsReported r now here
  unfolding report_host_status call save cache_host_status with_report
  from_known h e =
      let f : Host → Host = λ k. record (with_report r k) { updated_at = now } in
      let live = rewritten-live r.host_id f (λ k. refl) (λ k. refl) (λ k a. a) in
      let all = rewritten-rows r.host_id f (λ k. refl) (λ k. refl) (λ k a. a) in
      let found : find_approved r.host_id hosts ≡ some h =
        rw (find_approved-host r.host_id hosts v.admitted) e in
      record {
        answer = rw (found) (ground (arith, e, live-find r.host_id hosts));
        same_standing = λ j. rw (found, live j hosts, all j hosts) refl;
        still_calm = rw found (record {
          valid = rewritten-IsValid r.host_id f (λ k. refl) (λ k. refl) (λ k a. a) hosts v;
          no_faults = refl;
          redis_there = refl;
        });
      }

  from_calm : IsReported r now here
  from_calm = elim (Option-cases (find_host r.host_id hosts)) [
    | inl e ↦ from_unknown e
    | inr (h, e) ↦ from_known h e
  ]

pub report_host_status-IsReported :
    (r : StatusReport) (now : Time) (s : HostState) → IsCalm s → IsReported r now s
report_host_status-IsReported r now s c =
    let ready : IsReported r now (record s { redis_set = true; faults = [] }) =
      from_calm r now s.hosts s.pending s.cached s.cached_status c.valid in
    subst (λ b. IsReported r now (record s { redis_set = b })) (sym c.redis_there)
      (subst (λ f. IsReported r now (record s { redis_set = true; faults = f })) (sym c.no_faults)
        ready)
