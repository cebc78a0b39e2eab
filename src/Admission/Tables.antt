-- ===== src/Admission/Tables.antt =====
-- What the statements of HostService do to the counts of the rows of a host, and to Redis.
use devops_manager.Prelude.{
  ℕ, ◌+◌, ◌≤◌, ◌≡◌, refl, true, false, not, ◌&&◌, ◌==◌, ltb, none, some, List, [], ◌∷◌, ◌++◌,
  update_where, All, if◌then◌else◌, arith,
}
use devops_manager.Admission.Effects.{Host, PendingHost}
use devops_manager.Admission.Rows.{
  is_live, is_approved, find_pending, find_host, find_approved, set_pending, del_pending,
}
use devops_manager.Admission.Spec.{rows, live_rows, is_some, IsValid}

pub find_approved-host :
    (id : ℕ) (hs : List Host)
    → All (λ h. is_live h && not (is_approved h.status) ≡ false) hs
    → find_approved id hs ≡ find_host id hs
find_approved-host id [] v = refl
find_approved-host id (h ∷ hs) v = ground (arith, find_approved-host id hs v.1, v.0)

pub live-find : (id : ℕ) (hs : List Host) → ltb 0 (live_rows id hs) ≡ is_some (find_host id hs)
live-find id [] = refl
live-find id (h ∷ hs) = ground (arith, live-find id hs)

pub live-le-rows : (id : ℕ) (hs : List Host) → live_rows id hs ≤ rows id hs
live-le-rows id [] = omega arith
live-le-rows id (h ∷ hs) = ground (arith, live-le-rows id hs)

pub find-set :
    (j : ℕ) (p : PendingHost) (ps : List PendingHost)
    → find_pending j (set_pending p ps) ≡ (if p.host_id == j then some p else find_pending j ps)
find-set j p [] = ground arith
find-set j p (q ∷ ps) = ground (arith, find-set j p ps)

pub find-del :
    (j id : ℕ) (ps : List PendingHost)
    → find_pending j (del_pending id ps) ≡ (if j == id then none else find_pending j ps)
find-del j id [] = ground arith
find-del j id (q ∷ ps) = ground (arith, find-del j id ps)

pub find_pending-id :
    (id : ℕ) (p : PendingHost) (ps : List PendingHost)
    → find_pending id ps ≡ some p
    → p.host_id ≡ id
find_pending-id id p [] e = cc
find_pending-id id p (q ∷ ps) e = ground (arith, find_pending-id id p ps)

-- An update that keeps keys, marks and approvals changes no count.
module _ (id : ℕ) (f : Host → Host) (same_id : (h : Host) → (f h).host_id ≡ h.host_id)
    (same_mark : (h : Host) → (f h).deleted_at ≡ h.deleted_at)
    (approves_too : (h : Host)
      → is_approved h.status ≡ true
      → is_approved (f h).status ≡ true) where
  abbrev pub rewritten : List Host → List Host
  rewritten hs = update_where (λ h. h.host_id == id && is_live h) f hs

  pub rewritten-rows : (j : ℕ) (hs : List Host) → rows j (rewritten hs) ≡ rows j hs
  rewritten-rows j [] = refl
  rewritten-rows j (h ∷ hs) = ground (arith, rewritten-rows j hs, same_id h)

  pub rewritten-live : (j : ℕ) (hs : List Host) → live_rows j (rewritten hs) ≡ live_rows j hs
  rewritten-live j [] = refl
  rewritten-live j (h ∷ hs) = ground (arith, rewritten-live j hs, same_id h, same_mark h)

  rewritten-admitted :
      (hs : List Host)
      → All (λ h. is_live h && not (is_approved h.status) ≡ false) hs
      → All (λ h. is_live h && not (is_approved h.status) ≡ false) (rewritten hs)
  rewritten-admitted [] v = tt
  rewritten-admitted (h ∷ hs) v =
      (ground (arith, v.0, same_mark h, approves_too h), rewritten-admitted hs v.1)

  pub rewritten-IsValid : (hs : List Host) → IsValid hs → IsValid (rewritten hs)
  rewritten-IsValid hs v = record {
    unique = λ j. rw (rewritten-rows j hs) (v.unique j);
    admitted = rewritten-admitted hs v.admitted;
  }

module _ (id now : ℕ) where
  abbrev pub marked : List Host → List Host
  marked hs =
      update_where (λ h. h.host_id == id && is_live h) (λ h. record h { deleted_at = some now }) hs

  pub marked-rows : (j : ℕ) (hs : List Host) → rows j (marked hs) ≡ rows j hs
  marked-rows j [] = refl
  marked-rows j (h ∷ hs) = ground (arith, marked-rows j hs)

  pub marked-live :
      (j : ℕ) (hs : List Host) → live_rows j (marked hs) ≡ (if j == id then 0 else live_rows j hs)
  marked-live j [] = ground arith
  marked-live j (h ∷ hs) = ground (arith, marked-live j hs)

  pub marked-admitted :
      (hs : List Host)
      → All (λ h. is_live h && not (is_approved h.status) ≡ false) hs
      → All (λ h. is_live h && not (is_approved h.status) ≡ false) (marked hs)
  marked-admitted [] v = tt
  marked-admitted (h ∷ hs) v = (ground (arith, v.0), marked-admitted hs v.1)

module _ (n : Host) (lives : is_live n ≡ true) where
  pub appended-rows :
      (j : ℕ) (hs : List Host)
      → rows j (hs ++ n ∷ []) ≡ rows j hs + (if n.host_id == j then 1 else 0)
  appended-rows j [] = omega arith
  appended-rows j (h ∷ hs) = ground (arith, appended-rows j hs)

  pub appended-live :
      (j : ℕ) (hs : List Host)
      → live_rows j (hs ++ n ∷ []) ≡ live_rows j hs + (if n.host_id == j then 1 else 0)
  appended-live j [] = ground (arith, lives)
  appended-live j (h ∷ hs) = ground (arith, appended-live j hs)

  appended-admitted :
      (hs : List Host)
      → is_approved n.status ≡ true
      → All (λ h. is_live h && not (is_approved h.status) ≡ false) hs
      → All (λ h. is_live h && not (is_approved h.status) ≡ false) (hs ++ n ∷ [])
  appended-admitted [] a v = (ground (arith, a), tt)
  appended-admitted (h ∷ hs) a v = (v.0, appended-admitted hs a v.1)

  pub appended-IsValid :
      (hs : List Host)
      → is_approved n.status ≡ true
      → (rows n.host_id hs == 0) ≡ true
      → IsValid hs
      → IsValid (hs ++ n ∷ [])
  appended-IsValid hs a none_yet v = record {
    unique = λ j. rw (appended-rows j hs) (ground (arith, v.unique j, none_yet));
    admitted = appended-admitted hs a v.admitted;
  }
