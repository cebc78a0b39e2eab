-- ===== src/Admission/Refines/Approval.antt =====
-- ApproveHost implements the abstract machine.
use devops_manager.Prelude.{
  ℕ, ◌≡◌, refl, true, false, ◌==◌, none, some, Time, List, [], ◌∷◌, ◌++◌, arith, Option-cases,
  Bool-cases, inl, inr, subst,
}
use devops_manager.Admission.Effects.{
  Host, HostInfo, HostStatus, PendingHost, HostState, Error, ok, err, StatusReport, call,
}
use devops_manager.Admission.Service.{approve_host}
use devops_manager.Admission.Rows.{find_pending, find_host, del_pending, to_host, save, create}
use devops_manager.Admission.Spec.{approves, apply, serve, rows, IsValid, calm, Implements}
use devops_manager.Admission.Tables.{
  live-find, live-le-rows, find-del, find_pending-id, rewritten-rows, rewritten-live,
  rewritten-IsValid, appended-rows, appended-live, appended-IsValid,
}

module _ (generated : Time → ℕ) (now : Time) (hosts : List Host) (pending : List PendingHost)
    (cached : List HostInfo) (cached_status : List StatusReport) (v : IsValid hosts) where
  abbrev here : HostState
  here = calm hosts pending cached cached_status

  abbrev admits : Host → Host
  admits k = record k { status = HostStatus.approved; updated_at = now }

  approves-known :
      (p : PendingHost) (h : Host)
      → find_pending p.host_id pending ≡ some p
      → find_host p.host_id hosts ≡ some h
      → Implements generated (approves p.host_id) now here
  unfolding serve approve_host apply call save
  approves-known p h e eh =
      let id = p.host_id in
      let live = rewritten-live id admits (λ k. refl) (λ k. refl) (λ k a. refl) in
      let all = rewritten-rows id admits (λ k. refl) (λ k. refl) (λ k a. refl) in
      record {
        answer = rw (e, eh, serve) (ground (arith, e, eh, live-find p.host_id hosts));
        moved = λ j.
            rw (e, eh, serve, live j hosts, all j hosts, find-del j id pending)
              (ground (arith, e, eh, live-find p.host_id hosts, live-find j hosts));
        kept =
            rw (e, eh, serve)
              (rewritten-IsValid id admits (λ k. refl) (λ k. refl) (λ k a. refl) hosts v);
        still_calm = rw (e, eh, serve) refl;
        still_set = rw (e, eh, serve) refl;
      }

  approves-retired :
      (p : PendingHost)
      → find_pending p.host_id pending ≡ some p
      → find_host p.host_id hosts ≡ none
      → (rows p.host_id hosts == 0) ≡ false
      → Implements generated (approves p.host_id) now here
  unfolding serve approve_host apply call create to_host
  approves-retired p e eh r =
      let served : serve generated (approves p.host_id) now here
          ≡ (err Error.duplicate_host, here) =
        ground (arith, e, eh, r) in
      record {
        answer = rw served (ground (arith, e, eh, r, live-find p.host_id hosts));
        moved =
            λ j. rw served (ground (arith, e, eh, r, live-find p.host_id hosts, live-find j hosts));
        kept = rw served v;
        still_calm = rw served refl;
        still_set = rw served refl;
      }

  approves-new :
      (p : PendingHost)
      → find_pending p.host_id pending ≡ some p
      → find_host p.host_id hosts ≡ none
      → (rows p.host_id hosts == 0) ≡ true
      → Implements generated (approves p.host_id) now here
  unfolding serve approve_host apply call create to_host
  approves-new p e eh r =
      let new = record (to_host p now) { status = HostStatus.approved } in
      let served : serve generated (approves p.host_id) now here
          ≡ (ok tt, calm (hosts ++ new ∷ []) (del_pending p.host_id pending) cached cached_status) =
        ground (arith, e, eh, r) in
      record {
        answer = rw served (ground (arith, e, eh, r, live-find p.host_id hosts));
        moved = λ j.
            rw
              (
                served,
                appended-rows new refl j hosts,
                appended-live new refl j hosts,
                find-del j p.host_id pending,
              )
              (ground (arith, e, eh, r, live-find j hosts, live-le-rows j hosts));
        kept = rw served (appended-IsValid new refl hosts refl r v);
        still_calm = rw served refl;
        still_set = rw served refl;
      }

  approves-waiting :
      (p : PendingHost)
      → find_pending p.host_id pending ≡ some p
      → Implements generated (approves p.host_id) now here
  approves-waiting p e = elim (Option-cases (find_host p.host_id hosts)) [
    | inl eh ↦ elim (Bool-cases (rows p.host_id hosts == 0)) [
      | inl r ↦ approves-new p e eh r
      | inr r ↦ approves-retired p e eh r
    ]
    | inr (h, eh) ↦ approves-known p h e eh
  ]

  pub approves-Implements : (id : ℕ) → Implements generated (approves id) now here
  unfolding serve approve_host apply call
  approves-Implements id = elim (Option-cases (find_pending id pending)) [
    | inl e ↦ record {
      answer = rw (e, serve) (ground (arith, e));
      moved = λ j. rw (e, serve) (ground (arith, e));
      kept = rw (e, serve) v;
      still_calm = rw (e, serve) refl;
      still_set = rw (e, serve) refl;
    }
    | inr (p, e) ↦
        subst (λ k. find_pending k pending ≡ some p → Implements generated (approves k) now here)
          (find_pending-id id p pending e) (λ f. approves-waiting p f) e
  ]
