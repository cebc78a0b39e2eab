-- ===== src/Admission/Effects.antt =====
-- The tables of the host service, and calls of the database and of Redis, each of which may fail.
use devops_manager.Prelude.{
  ℕ, String, Bool, true, false, Option, none, some, Time, List, [], ◌∷◌, if◌then◌else◌,
}

pub data HostStatus : Type 0 where
  pending approved rejected : HostStatus

abbrev pub Tags : Type 0
Tags = List (String × String)

-- The row of a host; `deleted_at` is gorm's mark of a soft deletion.
pub record Host : Type 0 where
  pub host_id : ℕ
  pub hostname : String
  pub ip : String
  pub os : String
  pub status : HostStatus
  pub tags : Tags
  pub last_seen : Time
  pub created_at : Time
  pub updated_at : Time
  pub deleted_at : Option Time

-- The message HostInfo; times are in seconds there.
pub record HostInfo : Type 0 where
  pub id : ℕ
  pub hostname : String
  pub ip : String
  pub os : String
  pub tags : Tags
  pub last_seen : ℕ

pub record PendingHost : Type 0 where
  pub host_id : ℕ
  pub hostname : String
  pub ip : String
  pub os : String
  pub tags : Tags
  pub first_seen : ℕ
  pub last_seen : ℕ

-- The message HostStatus. `tags` are the entries that the numbers of the message are printed to by
-- fmt.Sprintf, and its own, in the order in which they are written; `ip` is unset where it is empty.
pub record StatusReport : Type 0 where
  pub host_id : ℕ
  pub timestamp : ℕ
  pub ip : Option String
  pub tags : Tags

-- `redis_set` says whether a client is configured, and `faults` which of the calls to come fail.
pub record HostState : Type 0 where
  pub hosts : List Host
  pub redis_set : Bool
  pub pending : List PendingHost
  pub cached : List HostInfo
  pub cached_status : List StatusReport
  pub faults : List Bool

pub data Error : Type 0 where
  call_failed redis_not_available host_not_found pending_host_not_found not_approved : Error
  duplicate_host : Error

pub data Result {ℓ} (A : Type ℓ) : Type ℓ where
  ok : A → Result A
  err : Error → Result A

abbrev pub Action {ℓ} : Type ℓ → Type ℓ
Action A = HostState → Result A × HostState

module _ {ℓ} {A : Type ℓ} where
  abbrev pub return : A → Action A
  return a s = (ok a, s)

  abbrev pub throw : Error → Action A
  throw e s = (err e, s)

  abbrev pub and_then {κ} :
      {B : Type κ} → Result A × HostState → (A → Action B) → Result B × HostState
  and_then (ok a, s) f = f a s
  and_then (err e, s) f = (err e, s)

  infixl 5 ◌>>=◌
  abbrev pub ◌>>=◌ {κ} : {B : Type κ} → Action A → (A → Action B) → Action B
  ◌>>=◌ m f s = and_then (m s) f

  -- One call from outside: where it fails it changes nothing.
  unfoldable pub call : (HostState → A × HostState) → Action A
  call f s = elim s.faults [
    | [] ↦ (ok (f s).0, (f s).1)
    | b ∷ rest ↦
        (if b
          then (err Error.call_failed, record s { faults = rest })
          else (ok (f (record s { faults = rest })).0, (f (record s { faults = rest })).1))
  ]

  -- An error stands for no value, or is dropped.
  abbrev pub settled : Result A × HostState → Result (Option A) × HostState
  settled (ok a, s) = (ok (some a), s)
  settled (err e, s) = (ok none, s)

  abbrev pub attempt : Action A → Action (Option A)
  attempt m s = settled (m s)

infixl 5 ◌>>◌
abbrev pub ◌>>◌ {ℓ} : {A : Type ℓ} → Action (Unit {0}) → Action A → Action A
m >> k = m >>= λ _. k

abbrev pub require {ℓ} : {A : Type ℓ} → Error → Option A → Action A
require e (some a) = return a
require e none = throw e

-- `if redis == nil` with an error.
abbrev pub with_redis {ℓ} : {A : Type ℓ} → Action A → Action A
with_redis m s = if s.redis_set then m s else (err Error.redis_not_available, s)

-- `if redis == nil { return }`: the cache is skipped, and its errors are dropped.
abbrev pub cache : (HostState → HostState) → Action (Unit {0})
cache f s = elim s.redis_set [
  | false ↦ (ok tt, s)
  | true ↦ and_then (attempt (call (λ t. (tt {0}, f t))) s) (λ _. return tt)
]
