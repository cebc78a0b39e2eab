-- ===== src/Admission/Refines/Registration.antt =====
-- RegisterHost implements the abstract machine.
use devops_manager.Prelude.{ℕ, ◌≡◌, refl, none, some, Time, List, arith, Option-cases, inl, inr}
use devops_manager.Admission.Effects.{
  Host, HostInfo, PendingHost, HostState, ok, StatusReport, call,
}
use devops_manager.Admission.Service.{
  identified, register_host, update_approved_host, update_pending_host, add_to_pending_list,
  is_pending_host,
}
use devops_manager.Admission.Rows.{
  find_pending, find_host, find_approved, set_pending, with_info, renewed, from_protobuf_to_pending,
  save, from_unix, cache_host,
}
use devops_manager.Admission.Spec.{registers, apply, serve, IsValid, calm, Implements}
use devops_manager.Admission.Tables.{
  find_approved-host, live-find, find-set, find_pending-id, rewritten-rows, rewritten-live,
  rewritten-IsValid,
}

module _ (generated : Time → ℕ) (now : Time) (hosts : List Host) (pending : List PendingHost)
    (cached : List HostInfo) (cached_status : List StatusReport) (v : IsValid hosts) where
  abbrev here : HostState
  here = calm hosts pending cached cached_status

  module _ (info : HostInfo) where
    abbrev named : HostInfo
    named = identified generated info now

    registers-approved :
        (h : Host)
        → find_host named.id hosts ≡ some h
        → Implements generated (registers info) now here
    unfolding serve register_host update_approved_host apply call save cache_host with_info
        identified
    registers-approved h eh =
        let f : Host → Host =
          λ k. record (with_info named (from_unix named.last_seen) k) { updated_at = now } in
        let live = rewritten-live named.id f (λ k. refl) (λ k. refl) (λ k a. a) in
        let all = rewritten-rows named.id f (λ k. refl) (λ k. refl) (λ k a. a) in
        let found : find_approved named.id hosts ≡ some h =
          rw (find_approved-host named.id hosts v.admitted) eh in
        record {
          answer = rw (found, serve) refl;
          moved = λ j.
              rw (found, serve, live j hosts, all j hosts)
                (ground (arith, eh, live-find named.id hosts));
          kept =
              rw (found, serve)
                (rewritten-IsValid named.id f (λ k. refl) (λ k. refl) (λ k a. a) hosts v);
          still_calm = rw (found, serve) refl;
          still_set = rw (found, serve) refl;
        }

    registers-waiting :
        (p : PendingHost)
        → find_host named.id hosts ≡ none
        → find_pending named.id pending ≡ some p
        → Implements generated (registers info) now here
    unfolding serve register_host update_pending_host is_pending_host renewed apply call identified
    registers-waiting p eh e =
        let found : find_approved named.id hosts ≡ none =
          rw (find_approved-host named.id hosts v.admitted) eh in
        let id = find_pending-id named.id p pending e in
        let served : serve generated (registers info) now here
            ≡ (ok tt, calm hosts (set_pending (renewed named p) pending) cached cached_status) =
          ground (arith, found, e) in
        record {
          answer = rw (served) refl;
          moved = λ j.
              rw (served, find-set j (renewed named p) pending)
                (ground (arith, eh, e, id, live-find named.id hosts));
          kept = rw (served) v;
          still_calm = rw (served) refl;
          still_set = rw (served) refl;
        }

    registers-new :
        find_host named.id hosts ≡ none
        → find_pending named.id pending ≡ none
        → Implements generated (registers info) now here
    unfolding serve register_host add_to_pending_list is_pending_host from_protobuf_to_pending apply
        call identified
    registers-new eh e =
        let found : find_approved named.id hosts ≡ none =
          rw (find_approved-host named.id hosts v.admitted) eh in
        let served : serve generated (registers info) now here ≡ (
          ok tt,
          calm hosts (set_pending (from_protobuf_to_pending named now) pending) cached
              cached_status,
        ) =
          ground (arith, found, e) in
        record {
          answer = rw (served) refl;
          moved = λ j.
              rw (served, find-set j (from_protobuf_to_pending named now) pending)
                (ground (arith, eh, e, live-find named.id hosts));
          kept = rw (served) v;
          still_calm = rw (served) refl;
          still_set = rw (served) refl;
        }

    pub registers-Implements : Implements generated (registers info) now here
    registers-Implements = elim (Option-cases (find_host named.id hosts)) [
      | inl eh ↦ elim (Option-cases (find_pending named.id pending)) [
        | inl e ↦ registers-new eh e
        | inr (p, e) ↦ registers-waiting p eh e
      ]
      | inr (h, eh) ↦ registers-approved h eh
    ]
