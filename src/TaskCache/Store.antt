-- ===== src/TaskCache/Store.antt =====
-- The methods of TaskCacheService that store a value for a time and give it back. `Value` stands for
-- the maps that hold statuses, progress, statistics and executions.
use devops_manager.Prelude.{ℕ, Option, none, some, Time, List, [], ◌∷◌}
use devops_manager.Models.Task.{Task}
use devops_manager.TaskCache.{
  status, progress, execution, task_list, stats, host_tasks, Redis, Error, Result, ok, err, minutes,
  cache_text, get_text,
}

module _ {Text Value : Type 0} where
  module _ (marshal : Value → Option Text) where
    unfoldable pub cache_task_status :
        ℕ → Value → Time → Redis Text → Result (Unit {0}) × Redis Text
    unfolding cache_text
    cache_task_status id v now r = cache_text (status id) (minutes 5) (marshal v) now r

    unfoldable pub cache_task_progress :
        ℕ → Value → Time → Redis Text → Result (Unit {0}) × Redis Text
    unfolding cache_text
    cache_task_progress id v now r = cache_text (progress id) (minutes 2) (marshal v) now r

    unfoldable pub cache_task_statistics :
        Value → Time → Redis Text → Result (Unit {0}) × Redis Text
    unfolding cache_text
    cache_task_statistics v now r = cache_text stats (minutes 10) (marshal v) now r

    unfoldable pub cache_task_execution :
        ℕ → Value → Time → Redis Text → Result (Unit {0}) × Redis Text
    unfolding cache_text
    cache_task_execution id v now r = cache_text (execution id) (minutes 1) (marshal v) now r

  module _ (unmarshal : Text → Option Value) where
    abbrev pub parsed : Result (Option Text) × Redis Text → Result (Option Value) × Redis Text
    parsed (err e, r) = (err e, r)
    parsed (ok none, r) = (ok none, r)
    parsed (ok (some x), r) =
        (elim (unmarshal x) [ none ↦ err Error.unmarshal_failed | some v ↦ ok (some v) ], r)

    unfoldable pub get_cached_task_status :
        ℕ → Time → Redis Text → Result (Option Value) × Redis Text
    unfolding get_text
    get_cached_task_status id now r = parsed (get_text (status id) now r)

    unfoldable pub get_cached_task_progress :
        ℕ → Time → Redis Text → Result (Option Value) × Redis Text
    unfolding get_text
    get_cached_task_progress id now r = parsed (get_text (progress id) now r)

    unfoldable pub get_cached_task_statistics :
        Time → Redis Text → Result (Option Value) × Redis Text
    unfolding get_text
    get_cached_task_statistics now r = parsed (get_text stats now r)

    unfoldable pub get_cached_task_execution :
        ℕ → Time → Redis Text → Result (Option Value) × Redis Text
    unfolding get_text
    get_cached_task_execution id now r = parsed (get_text (execution id) now r)

-- What a text of a list is read to: its member `tasks` where that is an array, and `total` where that
-- is a number.
pub record ListData (Json : Type 0) : Type 0 where
  pub tasks : Option (List Json)
  pub total : Option ℕ

module _ {Text : Type 0} (marshal_list : List Task → ℕ → Time → Option Text) where
  unfoldable pub cache_task_list :
      ℕ → List Task → ℕ → Time → Redis Text → Result (Unit {0}) × Redis Text
  unfolding cache_text
  cache_task_list cache_key ts total now r =
      cache_text (task_list cache_key) (minutes 3) (marshal_list ts total now) now r

  unfoldable pub cache_host_tasks :
      (host_id cache_key : ℕ) → List Task → ℕ → Time → Redis Text → Result (Unit {0}) × Redis Text
  unfolding cache_text
  cache_host_tasks host_id cache_key ts total now r =
      cache_text (host_tasks host_id cache_key) (minutes 5) (marshal_list ts total now) now r

module _ {Json : Type 0} (task_of : Json → Option Task) where
  -- A task that is not read is left out.
  abbrev pub read_tasks : List Json → List Task
  read_tasks [] = []
  read_tasks (j ∷ js) = elim (task_of j) [ none ↦ read_tasks js | some t ↦ t ∷ read_tasks js ]

abbrev pub or_zero : Option ℕ → ℕ
or_zero none = 0
or_zero (some n) = n

module _ {Text Json : Type 0} (unmarshal_list : Text → Option (ListData Json))
    (task_of : Json → Option Task) where
  abbrev pub read_list : Option (ListData Json) → Result (List Task × ℕ)
  read_list none = err Error.unmarshal_failed
  read_list (some d) = elim d.tasks [
    | none ↦ err Error.invalid_format
    | some js ↦ ok (read_tasks task_of js, or_zero d.total)
  ]

  -- Nothing in the cache is the nil slice and 0.
  abbrev pub parsed_list : Result (Option Text) × Redis Text → Result (List Task × ℕ) × Redis Text
  parsed_list (err e, r) = (err e, r)
  parsed_list (ok none, r) = (ok ([], 0), r)
  parsed_list (ok (some x), r) = (read_list (unmarshal_list x), r)

  unfoldable pub get_cached_task_list : ℕ → Time → Redis Text → Result (List Task × ℕ) × Redis Text
  unfolding get_text
  get_cached_task_list cache_key now r = parsed_list (get_text (task_list cache_key) now r)

  unfoldable pub get_cached_host_tasks :
      (host_id cache_key : ℕ) → Time → Redis Text → Result (List Task × ℕ) × Redis Text
  unfolding get_text
  get_cached_host_tasks host_id cache_key now r =
      parsed_list (get_text (host_tasks host_id cache_key) now r)
