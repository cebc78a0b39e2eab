-- ===== src/Admission/Rows.antt =====
-- The rows of HostService, their conversions, and the statements and cache writes on them.
use devops_manager.Prelude.{
  ℕ, ◌*◌, ◌/◌, String, Bool, true, false, not, Option, none, some, Time, List, [], ◌∷◌, ◌++◌, ◌==◌,
  ◌&&◌, if◌then◌else◌, select, first, update_where, count_where,
}
use text.Mathlib.Text.{◌==◌ as str_eq}
use devops_manager.Admission.Effects.{
  HostStatus, Tags, Host, HostInfo, PendingHost, StatusReport, Error, Action, return, throw, call,
  ◌>>=◌, cache,
}

unfoldable pub unix : Time → ℕ
unix t = t / 1000000000

abbrev pub from_unix : ℕ → Time
from_unix n = n * 1000000000

abbrev pub is_live : Host → Bool
is_live h = elim h.deleted_at [ none ↦ true | some t ↦ false ]

abbrev pub is_approved : HostStatus → Bool
is_approved HostStatus.approved = true
is_approved _ = false

abbrev pub find_host : ℕ → List Host → Option Host
find_host id hs = first (λ h. h.host_id == id && is_live h) hs

abbrev pub find_approved : ℕ → List Host → Option Host
find_approved id hs = first (λ h. (h.host_id == id && is_approved h.status) && is_live h) hs

abbrev pub find_pending : ℕ → List PendingHost → Option PendingHost
find_pending id ps = first (λ p. p.host_id == id) ps

abbrev pub set_pending : PendingHost → List PendingHost → List PendingHost
set_pending p ps = p ∷ select (λ q. not (q.host_id == p.host_id)) ps

abbrev pub del_pending : ℕ → List PendingHost → List PendingHost
del_pending id ps = select (λ q. not (q.host_id == id)) ps

-- `db.Save` on a row that was read: the live row with its key is rewritten.
unfoldable pub save : (Host → Host) → ℕ → Time → Action (Unit {0})
unfolding call
save f id now = call (λ s. (
  tt,
  record s {
    hosts =
        update_where (λ h. h.host_id == id && is_live h) (λ h. record (f h) { updated_at = now })
          s.hosts;
  },
))

-- `db.Create`, and the unique index on host_id, which counts rows that are marked as deleted too.
unfoldable pub create : Host → Action (Unit {0})
unfolding call
create h = do
  clashes ← call (λ s. elim (count_where (λ k. k.host_id == h.host_id) s.hosts == 0) [
    | true ↦ (false, record s { hosts = s.hosts ++ h ∷ [] })
    | false ↦ (true, s)
  ])
  if clashes then throw Error.duplicate_host else return tt

unfoldable pub cache_host : HostInfo → Action (Unit {0})
unfolding call
cache_host info =
    cache (λ s. record s { cached = info ∷ select (λ k. not (k.id == info.id)) s.cached })

unfoldable pub delete_cached_host : ℕ → Action (Unit {0})
unfolding call
delete_cached_host id = cache (λ s. record s { cached = select (λ k. not (k.id == id)) s.cached })

unfoldable pub cache_host_status : StatusReport → Action (Unit {0})
unfolding call
cache_host_status r = cache (λ s. record s {
  cached_status = r ∷ select (λ k. not (k.host_id == r.host_id)) s.cached_status;
})

unfoldable pub from_protobuf_to_pending : HostInfo → Time → PendingHost
unfolding unix
from_protobuf_to_pending info now = record {
  host_id = info.id;
  hostname = info.hostname;
  ip = info.ip;
  os = info.os;
  tags = info.tags;
  first_seen = unix now;
  last_seen = info.last_seen;
}

unfoldable pub to_host : PendingHost → Time → Host
to_host p now = record {
  host_id = p.host_id;
  hostname = p.hostname;
  ip = p.ip;
  os = p.os;
  status = HostStatus.pending;
  tags = p.tags;
  last_seen = from_unix p.last_seen;
  created_at = now;
  updated_at = now;
  deleted_at = none;
}

unfoldable pub model_to_protobuf : Host → HostInfo
unfolding unix
model_to_protobuf h = record {
  id = h.host_id;
  hostname = h.hostname;
  ip = h.ip;
  os = h.os;
  tags = h.tags;
  last_seen = unix h.last_seen;
}

unfoldable pub with_info : HostInfo → Time → Host → Host
with_info info seen h = record h {
  hostname = info.hostname;
  ip = info.ip;
  os = info.os;
  tags = info.tags;
  last_seen = seen;
}

unfoldable pub renewed : HostInfo → PendingHost → PendingHost
renewed info p = record p {
  hostname = info.hostname;
  ip = info.ip;
  os = info.os;
  tags = info.tags;
  last_seen = info.last_seen;
}

unfoldable pub set_tag : String × String → Tags → Tags
set_tag (k, v) [] = (k, v) ∷ []
set_tag (k, v) ((j, w) ∷ ts) = if str_eq j k then (k, v) ∷ ts else (j, w) ∷ set_tag (k, v) ts

unfoldable pub merge_tags : Tags → Tags → Tags
unfolding set_tag
merge_tags [] ts = ts
merge_tags (t ∷ new) ts = merge_tags new (set_tag t ts)

unfoldable pub with_report : StatusReport → Host → Host
unfolding merge_tags
with_report r h = record h {
  last_seen = from_unix r.timestamp;
  tags = merge_tags r.tags h.tags;
  ip = elim r.ip [ none ↦ h.ip | some ip ↦ ip ];
}
