-- ===== src/Admission/Service.antt =====
-- The methods of HostService. The identifier 0 stands for the empty text; `generated` gives the
-- identifier that generateHostID makes at a time.
use devops_manager.Prelude.{
  ℕ, ℤ, sub_ℕ, ltb, ◌+◌, Bool, true, false, not, Option, none, some, Time, List, [], map, ◌==◌,
  ◌&&◌, if◌then◌else◌, select, first, update_where, count_where, length,
}
use devops_manager.Admission.Effects.{
  HostStatus, Host, HostInfo, PendingHost, StatusReport, HostState, Error, Action, ok, return, call,
  attempt, ◌>>=◌, ◌>>◌, require, with_redis,
}
use devops_manager.Admission.Rows.{
  cache_host, cache_host_status, create, del_pending, delete_cached_host, find_approved, find_host,
  find_pending, from_protobuf_to_pending, from_unix, is_approved, is_live, model_to_protobuf,
  renewed, save, set_pending, to_host, unix, with_info, with_report,
}

unfoldable pub add_to_pending_list : HostInfo → Time → Action (Unit {0})
unfolding call from_protobuf_to_pending
add_to_pending_list info now = with_redis (
    call
      (λ s. (tt, record s { pending = set_pending (from_protobuf_to_pending info now) s.pending })))

unfoldable pub update_pending_host : HostInfo → Action (Unit {0})
unfolding call renewed
update_pending_host info = with_redis do
  found ← call (λ s. (find_pending info.id s.pending, s))
  p ← require Error.pending_host_not_found found
  call (λ s. (tt, record s { pending = set_pending (renewed info p) s.pending }))

unfoldable pub update_approved_host : HostInfo → Time → Action (Unit {0})
unfolding save cache_host with_info
update_approved_host info now = do
  save (with_info info (from_unix info.last_seen)) info.id now
  cache_host info

-- An error of the call counts as absence.
abbrev pub found_in : Option (Option PendingHost) → Bool
found_in (some (some p)) = true
found_in _ = false

unfoldable pub is_pending_host : ℕ → Action Bool
unfolding call
is_pending_host id s = elim s.redis_set [
  | false ↦ (ok false, s)
  | true ↦
      (do found ← attempt (call (λ t. (find_pending id t.pending, t))); return (found_in found)) s
]

unfoldable pub identified : (generated : Time → ℕ) → HostInfo → Time → HostInfo
unfolding unix
identified generated info now = record info {
  id = (if info.id == 0 then generated now else info.id);
  last_seen = unix now;
}

abbrev pub register_found : HostInfo → Time → Option Host → Action (Unit {0})
register_found info now (some h) = update_approved_host info now
register_found info now none = do
  waits ← is_pending_host info.id
  if waits then update_pending_host info else add_to_pending_list info now

unfoldable pub register_host : (generated : Time → ℕ) → HostInfo → Time → Action (Unit {0})
unfolding call identified update_approved_host is_pending_host update_pending_host
    add_to_pending_list
register_host generated info now = do
  found ← call (λ s. (find_approved (identified generated info now).id s.hosts, s))
  register_found (identified generated info now) now found

-- A host of the table, approved from now on; else a new row.
abbrev pub approve_found : PendingHost → Time → Option Host → Action (Unit {0})
approve_found p now (some h) = save (λ k. record k { status = HostStatus.approved }) p.host_id now
approve_found p now none = create (record (to_host p now) { status = HostStatus.approved })

-- An error of the last call is only printed.
unfoldable pub approve_host : ℕ → Time → Action (Unit {0})
unfolding call save create to_host
approve_host id now = with_redis do
  waiting ← call (λ s. (find_pending id s.pending, s))
  p ← require Error.pending_host_not_found waiting
  found ← call (λ s. (find_host id s.hosts, s))
  approve_found p now found
  removed ← attempt (call (λ s. (tt {0}, record s { pending = del_pending id s.pending })))
  return tt

unfoldable pub reject_host : ℕ → Action (Unit {0})
unfolding call
reject_host id = with_redis do
  waiting ← call (λ s. (find_pending id s.pending, s))
  p ← require Error.pending_host_not_found waiting
  call (λ s. (tt, record s { pending = del_pending id s.pending }))

-- gorm's Delete returns no error where it finds no row, so that an unknown host is deleted too.
unfoldable pub delete_host : ℕ → Time → Action (Unit {0})
unfolding call delete_cached_host
delete_host id now = do
  call (λ s. (
    tt,
    record s {
      hosts =
          update_where (λ h. h.host_id == id && is_live h) (λ h. record h { deleted_at = some now })
            s.hosts;
    },
  ))
  delete_cached_host id

unfoldable pub update_host : HostInfo → Time → Action (Unit {0})
unfolding call save cache_host with_info unix
update_host info now = do
  found ← call (λ s. (find_host info.id s.hosts, s))
  h ← require Error.host_not_found found
  save (with_info info now) info.id now
  cache_host (record info { last_seen = unix now })

abbrev pub get_found : ℕ → Option HostInfo → Action (Option HostInfo)
get_found id (some info) = return (some info)
get_found id none = do
  row ← attempt (call (λ s. (find_host id s.hosts, s)))
  elim row [
    | none ↦ return none
    | some none ↦ return none
    | some (some h) ↦ do cache_host (model_to_protobuf h); return (some (model_to_protobuf h))
  ]

abbrev pub flat {ℓ} : {A : Type ℓ} → Option (Option A) → Option A
flat (some o) = o
flat none = none

-- From the cache, or from the table, and then to the cache.
unfoldable pub get_host : ℕ → Action (Option HostInfo)
unfolding call cache_host model_to_protobuf
get_host id s = elim s.redis_set [
  | false ↦ get_found id none s
  | true ↦
      (do
        hit ← attempt (call (λ t. (first (λ k. k.id == id) t.cached, t)))
        get_found id (flat hit))
        s
]

unfoldable pub get_all_hosts : Action (List HostInfo)
unfolding call model_to_protobuf
get_all_hosts = do
  rows ← attempt (call (λ s. (select (λ h. is_approved h.status && is_live h) s.hosts, s)))
  return (elim rows [ none ↦ [] | some hs ↦ map model_to_protobuf hs ])

unfoldable pub get_pending_hosts : Action (List PendingHost)
unfolding call
get_pending_hosts = with_redis (call (λ s. (s.pending, s)))

unfoldable pub get_pending_hosts_count : Action ℕ
unfolding call
get_pending_hosts_count = with_redis (call (λ s. (length s.pending, s)))

abbrev pub counted : Option ℕ → ℕ
counted none = 0
counted (some n) = n

-- All hosts, those seen in the last minute, and the others; an error counts no host.
unfoldable pub get_host_count : Time → Action (ℕ × ℕ × ℤ)
unfolding call
get_host_count now = do
  total ← attempt (call (λ s. (count_where is_live s.hosts, s)))
  online ←
      attempt (
        call
          (λ s. (count_where (λ h. ltb now (h.last_seen + 60000000000) && is_live h) s.hosts, s)))
  return (counted total, counted online, sub_ℕ (counted total) (counted online))

-- The cached HostInfo of the host is left as it is.
unfoldable pub report_host_status : StatusReport → Time → Action (Unit {0})
unfolding call save with_report cache_host_status
report_host_status r now = do
  found ← call (λ s. (find_approved r.host_id s.hosts, s))
  h ← require Error.not_approved found
  save (with_report r) r.host_id now
  cache_host_status r

unfoldable pub get_host_status : ℕ → Action StatusReport
unfolding call
get_host_status id = with_redis do
  found ← call (λ s. (first (λ k. k.host_id == id) s.cached_status, s))
  require Error.host_not_found found

-- Entries of the cache that expire.
unfoldable pub expire : (HostInfo → Bool) → (StatusReport → Bool) → HostState → HostState
expire old_info old_status s = record s {
  cached = select (λ k. not (old_info k)) s.cached;
  cached_status = select (λ k. not (old_status k)) s.cached_status;
}
