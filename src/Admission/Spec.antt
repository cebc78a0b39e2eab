-- ===== src/Admission/Spec.antt =====
-- The admission of one host, as an abstract machine: what the service promises, without tables,
-- Redis or caches.
use devops_manager.Prelude.{
  ℕ, ◌≤◌, ◌≡◌, Bool, true, false, not, ◌&&◌, ◌||◌, ◌==◌, ltb, Option, none, some, Time, List, All,
  count_where, if◌then◌else◌, [],
}
use devops_manager.Admission.Effects.{
  Host, HostInfo, PendingHost, HostState, Error, Result, ok, err, StatusReport,
}
use devops_manager.Admission.Service.{register_host, approve_host, reject_host, delete_host}
use devops_manager.Admission.Rows.{is_live, is_approved, find_pending}

-- Whether a host is approved, waits for its admission, and was deleted at some time.
pub record Standing : Type 0 where
  pub approved : Bool
  pub waiting : Bool
  pub retired : Bool

pub data Request : Type 0 where
  registers : HostInfo → Request
  approves rejects deletes : ℕ → Request

-- A host that registers waits, unless it is approved. One that waits can be approved or rejected; but
-- a host that was deleted is not approved again. A host that is deleted is not approved any more.
unfoldable pub apply : Request → Standing → Result (Unit {0}) × Standing
apply (registers info) s = (ok tt, record s { waiting = not s.approved || s.waiting })
apply (approves id) s =
    if not s.waiting
    then (err Error.pending_host_not_found, s)
    else if s.approved
    then (ok tt, record s { waiting = false })
    else if s.retired
    then (err Error.duplicate_host, s)
    else (ok tt, record s { approved = true; waiting = false })
apply (rejects id) s =
    if s.waiting
    then (ok tt, record s { waiting = false })
    else (err Error.pending_host_not_found, s)
apply (deletes id) s = (ok tt, record s { approved = false; retired = s.approved || s.retired })

-- The method of HostService that serves a request, and the host that it is about.
unfoldable pub serve :
    (generated : Time → ℕ) → Request → Time → HostState → Result (Unit {0}) × HostState
unfolding register_host approve_host reject_host delete_host
serve generated (registers info) now = register_host generated info now
serve generated (approves id) now = approve_host id now
serve generated (rejects id) now = reject_host id
serve generated (deletes id) now = delete_host id now

abbrev pub subject : (generated : Time → ℕ) → Request → Time → ℕ
subject generated (registers info) now = if info.id == 0 then generated now else info.id
subject generated (approves id) now = id
subject generated (rejects id) now = id
subject generated (deletes id) now = id

abbrev pub rows : ℕ → List Host → ℕ
rows id hs = count_where (λ h. h.host_id == id) hs

abbrev pub live_rows : ℕ → List Host → ℕ
live_rows id hs = count_where (λ h. h.host_id == id && is_live h) hs

abbrev pub is_some {ℓ} : {A : Type ℓ} → Option A → Bool
is_some none = false
is_some (some a) = true

-- The standing of a host in the tables.
abbrev pub standing : ℕ → HostState → Standing
standing id s = record {
  approved = ltb 0 (live_rows id s.hosts);
  waiting = is_some (find_pending id s.pending);
  retired = ltb (live_rows id s.hosts) (rows id s.hosts);
}

-- The unique index, and that every live host was approved.
pub record IsValid (hs : List Host) : Type 0 where
  pub unique : (id : ℕ) → rows id hs ≤ 1
  pub admitted : All (λ h. is_live h && not (is_approved h.status) ≡ false) hs

-- Redis is there, and no call fails.
abbrev pub calm : List Host → List PendingHost → List HostInfo → List StatusReport → HostState
calm hosts pending cached cached_status = record {
  hosts = hosts;
  redis_set = true;
  pending = pending;
  cached = cached;
  cached_status = cached_status;
  faults = List.[];
}

-- What a request is to leave: the abstract machine's answer and next standing for its host, the
-- standings of the others, and valid tables with no call that fails.
pub record Implements (generated : Time → ℕ) (q : Request) (now : Time) (s : HostState)
    : Type 0 where
  pub answer : (serve generated q now s).0 ≡ (apply q (standing (subject generated q now) s)).0
  pub moved :
      (j : ℕ)
      → standing j (serve generated q now s).1
        ≡ (if j == subject generated q now then (apply q (standing j s)).1 else standing j s)
  pub kept : IsValid (serve generated q now s).1.hosts
  pub still_calm : (serve generated q now s).1.faults ≡ []
  pub still_set : (serve generated q now s).1.redis_set ≡ true
