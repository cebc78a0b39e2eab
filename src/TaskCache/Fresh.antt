-- ===== src/TaskCache/Fresh.antt =====
-- What the cache returns after it was written or invalidated.
use devops_manager.Prelude.{
  ℕ, ◌+◌, ◌≡◌, refl, ap, Bool, true, Option, none, some, Time, List, [], ◌∷◌, ◌&&◌, ◌||◌, ltb,
  select, first, if◌then◌else◌, arith, Bool-cases, inl, inr,
}
use devops_manager.TaskCache.{
  Key, status, progress, execution, task_list, stats, host_tasks, same_key, Entry, Redis, ok,
  lookup, without, cache_text, get_text, invalidate_task_cache, invalidate_matching, is_at,
  redis_call, delete_logged, invalidate_task_statistics, is_task_list, is_of_host,
  invalidate_task_list_cache, invalidate_host_tasks_cache, minutes,
}
use devops_manager.Models.Task.{Task}
use devops_manager.TaskCache.Store.{
  cache_task_status, get_cached_task_status, cache_task_progress, get_cached_task_progress,
  cache_task_statistics, get_cached_task_statistics, cache_task_execution,
  get_cached_task_execution, cache_task_list, get_cached_task_list, ListData, read_tasks,
}

same_key-equal : (j k : Key) → same_key j k ≡ true → j ≡ k
unfolding same_key
same_key-equal (status i) (status j) e = ap status (ground (arith, e))
same_key-equal (progress i) (progress j) e = ap progress (ground (arith, e))
same_key-equal (execution i) (execution j) e = ap execution (ground (arith, e))
same_key-equal (task_list i) (task_list j) e = ap task_list (ground (arith, e))
same_key-equal stats stats e = refl
same_key-equal (host_tasks h i) (host_tasks k j) e = ground (arith, e)
same_key-equal j k e = ground (arith, e)

same_key_refl : (k : Key) → same_key k k ≡ true
unfolding same_key
same_key_refl (status i) = ground arith
same_key_refl (progress i) = ground arith
same_key_refl (execution i) = ground arith
same_key_refl (task_list i) = ground arith
same_key_refl stats = refl
same_key_refl (host_tasks h i) = ground arith

-- The keys that InvalidateTaskCache deletes.
abbrev pub is_about : ℕ → Key → Bool
is_about id k =
    same_key k (status id)
    || same_key k (progress id)
    || same_key k (execution id)
    || same_key k stats

module _ {Text : Type 0} where
  abbrev pub untroubled : List (Entry Text) → Redis Text
  untroubled es = record { entries = es; faults = [] }

  first-without :
      (p : Key → Bool) (k : Key) (es : List (Entry Text))
      → first (is_at k) (without p es) ≡ (if p k then none else first (is_at k) es)
  first-without p k [] = ground arith
  first-without p k (e ∷ es) = elim (Bool-cases (same_key e.key k)) [
    | inl h ↦ rw (same_key-equal e.key k h) (ground (arith, same_key_refl k, first-without p k es))
    | inr h ↦ ground (arith, h, first-without p k es)
  ]

  lookup-without :
      (p : Key → Bool) (k : Key) (now : Time) (es : List (Entry Text))
      → lookup k now (without p es) ≡ (if p k then none else lookup k now es)
  lookup-without p k now es = ground (arith, first-without p k es)

  get_text-cache_text :
      (k : Key) (ttl : Time) (x : Text) (now later : Time) (es : List (Entry Text))
      → (get_text k later (cache_text k ttl (some x) now (untroubled es)).1).0
        ≡ ok (if ltb later (now + ttl) then some x else none)
  unfolding get_text cache_text redis_call
  get_text-cache_text k ttl x now later es = ground (arith, same_key_refl k)

  -- Where no command fails, no entry about a task is found any more after InvalidateTaskCache, nor
  -- the statistics, and every other key is found as it was.
  pub invalidate_task_cache-lookup :
      (id : ℕ) (k : Key) (now : Time) (es : List (Entry Text))
      → (get_text k now (invalidate_task_cache id (untroubled es)).1).0
        ≡ ok (if is_about id k then none else lookup k now es)
  unfolding get_text invalidate_task_cache delete_logged invalidate_task_statistics redis_call
  invalidate_task_cache-lookup id k now es =
      let first_three =
        without (λ j. same_key j (execution id))
          (without (λ j. same_key j (progress id)) (without (λ j. same_key j (status id)) es)) in
      ground (
        arith,
        lookup-without (λ j. same_key j stats) k now first_three,
        lookup-without (λ j. same_key j (execution id)) k now
            (without (λ j. same_key j (progress id)) (without (λ j. same_key j (status id)) es)),
        lookup-without (λ j. same_key j (progress id)) k now
            (without (λ j. same_key j (status id)) es),
        lookup-without (λ j. same_key j (status id)) k now es,
      )

  -- What Keys finds for a pattern.
  abbrev found : (Key → Bool) → Time → List (Entry Text) → List (Entry Text)
  found p now es = select (λ e. p e.key && ltb now e.expires) es

  lookup-found :
      (p : Key → Bool) (k : Key) (now : Time) (es : List (Entry Text))
      → found p now es ≡ []
      → p k ≡ true
      → lookup k now es ≡ none
  lookup-found p k now [] h pk = refl
  lookup-found p k now (e ∷ es) h pk = elim (Bool-cases (p e.key && ltb now e.expires)) [
    | inl b ↦ cc (rw b at h)
    | inr b ↦ elim (Bool-cases (same_key e.key k)) [
      | inl same ↦ ground (arith, same, b, pk, ap p (same_key-equal e.key k same))
      | inr other ↦ ground (arith, other, lookup-found p k now es (rw b at h) pk)
    ]
  ]

  invalidate_found :
      (p : Key → Bool) (k : Key) (now : Time) (es ks : List (Entry Text))
      → found p now es ≡ ks
      → (get_text k now (invalidate_matching p now (untroubled es)).1).0
        ≡ ok (if p k then none else lookup k now es)
  unfolding get_text invalidate_matching redis_call
  invalidate_found p k now es [] h = elim (Bool-cases (p k)) [
    | inl b ↦ ground (arith, h, b, lookup-found p k now es h b)
    | inr b ↦ ground (arith, h, b)
  ]
  invalidate_found p k now es (e ∷ ks) h = ground (arith, h, lookup-without p k now es)

  invalidate_matching-lookup :
      (p : Key → Bool) (k : Key) (now : Time) (es : List (Entry Text))
      → (get_text k now (invalidate_matching p now (untroubled es)).1).0
        ≡ ok (if p k then none else lookup k now es)
  invalidate_matching-lookup p k now es = invalidate_found p k now es (found p now es) refl

  -- Where no command fails, InvalidateTaskListCache leaves every key to be found that is not a list
  -- of tasks, InvalidateHostTasksCache every key that is not a list of the host, and those that are are
  -- not found any more.
  pub invalidate_lists-lookup :
      (id : ℕ) (k : Key) (now : Time) (es : List (Entry Text))
      → ((get_text k now (invalidate_task_list_cache now (untroubled es)).1).0
          ≡ ok (if is_task_list k then none else lookup k now es))
        × ((get_text k now (invalidate_host_tasks_cache id now (untroubled es)).1).0
            ≡ ok (if is_of_host id k then none else lookup k now es))
  unfolding invalidate_task_list_cache invalidate_host_tasks_cache
  invalidate_lists-lookup id k now es = (
    invalidate_matching-lookup is_task_list k now es,
    invalidate_matching-lookup (is_of_host id) k now es,
  )

-- What is stored under a key is what its method gives back before the time to live is over, and
-- nothing is given back from then on: for statuses, progress, statistics, executions, and lists of
-- tasks. This is where no command fails and reading a text gives what was written to it; a list of
-- tasks is given back with its tasks and its total, and the absence of one is the empty list and 0.
pub cached-get :
    {Text Value Json : Type 0} (marshal : Value → Option Text) (unmarshal : Text → Option Value)
    (marshal_list : List Task → ℕ → Time → Option Text)
    (unmarshal_list : Text → Option (ListData Json)) (task_of : Json → Option Task) (id : ℕ)
    (v : Value) (ts : List Task) (total : ℕ) (x y : Text) (js : List Json) (now later : Time)
    (es : List (Entry Text))
    → marshal v ≡ some x
    → unmarshal x ≡ some v
    → marshal_list ts total now ≡ some y
    → unmarshal_list y ≡ some (record { tasks = some js; total = some total })
    → read_tasks task_of js ≡ ts
    → ((get_cached_task_status unmarshal id later
          (cache_task_status marshal id v now (untroubled es)).1).0
        ≡ ok (if ltb later (now + minutes 5) then some v else none))
      × ((get_cached_task_progress unmarshal id later
            (cache_task_progress marshal id v now (untroubled es)).1).0
          ≡ ok (if ltb later (now + minutes 2) then some v else none))
      × ((get_cached_task_statistics unmarshal later
            (cache_task_statistics marshal v now (untroubled es)).1).0
          ≡ ok (if ltb later (now + minutes 10) then some v else none))
      × ((get_cached_task_execution unmarshal id later
            (cache_task_execution marshal id v now (untroubled es)).1).0
          ≡ ok (if ltb later (now + minutes 1) then some v else none))
      × ((get_cached_task_list unmarshal_list task_of id later
            (cache_task_list marshal_list id ts total now (untroubled es)).1).0
          ≡ ok (if ltb later (now + minutes 3) then (ts, total) else ([], 0)))
unfolding get_cached_task_status cache_task_status get_cached_task_progress cache_task_progress
    get_cached_task_statistics cache_task_statistics get_cached_task_execution cache_task_execution
    get_cached_task_list cache_task_list get_text cache_text redis_call
cached-get marshal unmarshal marshal_list unmarshal_list task_of id v ts total x y js now later es w
      u wl ul rs =
    (
      ground (arith, w, u, same_key_refl (status id)),
      ground (arith, w, u, same_key_refl (progress id)),
      ground (arith, w, u, same_key_refl stats),
      ground (arith, w, u, same_key_refl (execution id)),
      ground (arith, wl, ul, rs, same_key_refl (task_list id)),
    )
