-- ===== src/TaskCache.antt =====
-- TaskCacheService of server/pkg/service/task_cache_service.go. A key is a prefix with what follows
-- it; the lists of a host have their host's identifier in the key, which is taken to hold neither a
-- colon nor a sign that a Redis pattern gives a meaning. What encoding/json makes of a value, and what
-- it reads from a text, are the arguments `marshal`, `unmarshal` and their like.
pub mod Store
pub mod Fresh
use devops_manager.Prelude.{
  ℕ, ◌+◌, ◌*◌, Bool, true, false, not, Option, none, some, Time, List, [], ◌∷◌, map, ◌&&◌, ◌==◌,
  ltb, select, first, length, if◌then◌else◌,
}

pub data Key : Type 0 where
  status progress execution task_list : ℕ → Key
  stats : Key
  host_tasks : (host_id cache_key : ℕ) → Key

unfoldable pub same_key : Key → Key → Bool
same_key (status i) (status j) = i == j
same_key (progress i) (progress j) = i == j
same_key (execution i) (execution j) = i == j
same_key (task_list i) (task_list j) = i == j
same_key stats stats = true
same_key (host_tasks h i) (host_tasks k j) = h == k && i == j
same_key _ _ = false

pub record Entry (Text : Type 0) : Type 0 where
  pub key : Key
  pub data_of : Text
  pub expires : Time

-- `faults` says which of the commands to come fail.
pub record Redis (Text : Type 0) : Type 0 where
  pub entries : List (Entry Text)
  pub faults : List Bool

pub data Error : Type 0 where
  marshal_failed redis_failed unmarshal_failed invalid_format : Error

pub data Result {ℓ} (A : Type ℓ) : Type ℓ where
  ok : A → Result A
  err : Error → Result A

unfoldable pub is_task_list : Key → Bool
is_task_list (task_list i) = true
is_task_list _ = false

unfoldable pub is_of_host : ℕ → Key → Bool
is_of_host id (host_tasks h i) = h == id
is_of_host id _ = false

-- The six prefixes.
abbrev pub kinds : List (Key → Bool)
kinds =
    (λ k. elim k [ status i ↦ true | _ ↦ false ])
    ∷ (λ k. elim k [ progress i ↦ true | _ ↦ false ])
    ∷ (λ k. elim k [ stats ↦ true | _ ↦ false ])
    ∷ is_task_list
    ∷ (λ k. elim k [ host_tasks h i ↦ true | _ ↦ false ])
    ∷ (λ k. elim k [ execution i ↦ true | _ ↦ false ])
    ∷ []

-- The times to live, in nanoseconds.
abbrev pub minutes : ℕ → Time
minutes n = n * 60000000000

module _ {Text : Type 0} where
  -- One command of Redis; where it fails, nothing is changed.
  unfoldable pub redis_call {ℓ} :
      {A : Type ℓ}
      → (List (Entry Text) → A × List (Entry Text))
      → Redis Text
      → Result A × Redis Text
  redis_call f r = elim r.faults [
    | [] ↦ (ok (f r.entries).0, record r { entries = (f r.entries).1 })
    | b ∷ rest ↦
        (if b
          then (err Error.redis_failed, record r { faults = rest })
          else (ok (f r.entries).0, record { entries = (f r.entries).1; faults = rest }))
  ]

  abbrev pub is_at : Key → Entry Text → Bool
  is_at k e = same_key e.key k

  abbrev pub without : (Key → Bool) → List (Entry Text) → List (Entry Text)
  without p es = select (λ e. not (p e.key)) es

  abbrev pub lookup : Key → Time → List (Entry Text) → Option Text
  lookup k now es = elim (first (is_at k) es) [
    | none ↦ none
    | some e ↦ if ltb now e.expires then some e.data_of else none
  ]

  abbrev pub set_entry : Key → Text → Time → List (Entry Text) → List (Entry Text)
  set_entry k x expires es =
      record { key = k; data_of = x; expires = expires } ∷ without (λ j. same_key j k) es

  -- Marshal, and Set with a time to live.
  unfoldable pub cache_text :
      Key → Time → Option Text → Time → Redis Text → Result (Unit {0}) × Redis Text
  unfolding redis_call
  cache_text k ttl none now r = (err Error.marshal_failed, r)
  cache_text k ttl (some x) now r = redis_call (λ es. (tt, set_entry k x (now + ttl) es)) r

  unfoldable pub get_text : Key → Time → Redis Text → Result (Option Text) × Redis Text
  unfolding redis_call
  get_text k now r = redis_call (λ es. (lookup k now es, es)) r

  -- Del on one key, whose error is only logged.
  unfoldable pub delete_logged : Key → Redis Text → Redis Text
  unfolding redis_call
  delete_logged k r = (redis_call (λ es. (tt {0}, without (λ j. same_key j k) es)) r).1

  unfoldable pub invalidate_task_statistics : Redis Text → Result (Unit {0}) × Redis Text
  unfolding redis_call
  invalidate_task_statistics r = redis_call (λ es. (tt, without (λ j. same_key j stats) es)) r

  unfoldable pub invalidate_task_cache : ℕ → Redis Text → Result (Unit {0}) × Redis Text
  unfolding delete_logged invalidate_task_statistics
  invalidate_task_cache id r = (
    ok tt,
    (invalidate_task_statistics (
        delete_logged (execution id)
          (delete_logged (progress id) (delete_logged (status id) r)))).1,
  )

  -- Keys with a pattern, and Del of what it found, if anything.
  abbrev pub delete_found :
      (Key → Bool) → Result (List Key) × Redis Text → Result (Unit {0}) × Redis Text
  delete_found p (err e, r) = (err e, r)
  delete_found p (ok [], r) = (ok tt, r)
  delete_found p (ok (k ∷ ks), r) = redis_call (λ es. (tt, without p es)) r

  unfoldable pub invalidate_matching :
      (Key → Bool) → Time → Redis Text → Result (Unit {0}) × Redis Text
  unfolding redis_call
  invalidate_matching p now r =
      delete_found p (
        redis_call (λ es. (map (λ e. e.key) (select (λ e. p e.key && ltb now e.expires) es), es)) r)

  unfoldable pub invalidate_task_list_cache : Time → Redis Text → Result (Unit {0}) × Redis Text
  unfolding invalidate_matching is_task_list
  invalidate_task_list_cache now r = invalidate_matching is_task_list now r

  unfoldable pub invalidate_host_tasks_cache :
      ℕ → Time → Redis Text → Result (Unit {0}) × Redis Text
  unfolding invalidate_matching is_of_host
  invalidate_host_tasks_cache id now r = invalidate_matching (is_of_host id) now r

  abbrev pub invalidate_each : List (Key → Bool) → Time → Redis Text → Redis Text
  invalidate_each [] now r = r
  invalidate_each (p ∷ ps) now r = invalidate_each ps now (invalidate_matching p now r).1

  -- The loop over the patterns; its errors are only logged.
  unfoldable pub invalidate_all_task_cache : Time → Redis Text → Result (Unit {0}) × Redis Text
  unfolding invalidate_matching
  invalidate_all_task_cache now r = (ok tt, invalidate_each kinds now r)
