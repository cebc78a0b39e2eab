-- ===== src/Admission/Refines.antt =====
-- HostService implements the abstract machine.
mod Approval
mod Registration
use devops_manager.Prelude.{
  ℕ, ◌+◌, ◌-◌, ◌≤◌, ◌<◌, ◌≡◌, refl, sym, ◌∙◌, Bool, true, false, not, ◌&&◌, ◌||◌, ◌==◌, ltb, Option,
  none, some, Time, List, [], ◌∷◌, ◌++◌, first, select, update_where, count_where,
  count_where-append, All, if◌then◌else◌, arith, Option-cases, Bool-cases, inl, inr, subst,
}
use devops_manager.Admission.Effects.{
  Host, HostInfo, HostStatus, PendingHost, HostState, Error, Result, ok, err, StatusReport, call,
}
use devops_manager.Admission.Service.{
  identified, register_host, approve_host, reject_host, delete_host, update_approved_host,
  update_pending_host, add_to_pending_list, is_pending_host,
}
use devops_manager.Admission.Rows.{
  is_live, is_approved, find_pending, find_host, find_approved, set_pending, del_pending, with_info,
  renewed, from_protobuf_to_pending, to_host, save, create, from_unix, cache_host,
  delete_cached_host,
}
use devops_manager.Admission.Spec.{
  Standing, Request, registers, approves, rejects, deletes, apply, serve, subject, rows, live_rows,
  standing, is_some, IsValid, calm, Implements,
}
use devops_manager.Admission.Tables.{
  find_approved-host, live-find, live-le-rows, find-set, find-del, find_pending-id, rewritten-rows,
  rewritten-live, rewritten-IsValid, marked-rows, marked-live, marked-admitted, appended-rows,
  appended-live, appended-IsValid,
}
use devops_manager.Admission.Refines.Approval.{approves-Implements}
use devops_manager.Admission.Refines.Registration.{registers-Implements}

module _ (generated : Time → ℕ) (now : Time) (hosts : List Host) (pending : List PendingHost)
    (cached : List HostInfo) (cached_status : List StatusReport) (v : IsValid hosts) where
  abbrev here : HostState
  here = calm hosts pending cached cached_status

  deletes-Implements : (id : ℕ) → Implements generated (deletes id) now here
  unfolding serve delete_host apply delete_cached_host call
  deletes-Implements id = record {
    answer = refl;
    moved = λ j. ground (
      arith,
      marked-live id now j hosts,
      marked-rows id now j hosts,
      live-le-rows j hosts,
      v.unique j,
    );
    kept = record {
      unique = λ j. rw (marked-rows id now j hosts) (v.unique j);
      admitted = marked-admitted id now hosts v.admitted;
    };
    still_calm = refl;
    still_set = refl;
  }

  rejects-Implements : (id : ℕ) → Implements generated (rejects id) now here
  unfolding serve reject_host apply call
  rejects-Implements id = elim (Option-cases (find_pending id pending)) [
    | inl e ↦ record {
      answer = rw (e, serve) (ground (arith, e));
      moved = λ j. rw (e, serve) (ground (arith, e));
      kept = rw (e, serve) v;
      still_calm = rw (e, serve) refl;
      still_set = rw (e, serve) refl;
    }
    | inr (p, e) ↦ record {
      answer = rw (e, serve) (ground (arith, e));
      moved = λ j. rw (e, serve) (ground (arith, e, find-del j id pending));
      kept = rw (e, serve) v;
      still_calm = rw (e, serve) refl;
      still_set = rw (e, serve) refl;
    }
  ]

  -- Where the tables are valid, Redis is there and no call fails, each request is answered as the
  -- abstract machine of its host answers, that host moves as the machine does and no other host moves,
  -- and the tables are valid again.
  pub serve-Implements : (q : Request) → Implements generated q now here
  serve-Implements (registers info) =
      registers-Implements generated now hosts pending cached cached_status v info
  serve-Implements (approves id) =
      approves-Implements generated now hosts pending cached cached_status v id
  serve-Implements (rejects id) = rejects-Implements id
  serve-Implements (deletes id) = deletes-Implements id
