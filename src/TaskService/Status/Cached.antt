-- ===== src/TaskService/Status/Cached.antt =====
-- What GetTaskStatus answers from the cache.
use devops_manager.Prelude.{ℕ, ◌+◌, ◌<◌, ◌≡◌, Option, some, Time, List, arith}
use devops_manager.Db.{Session, ok}
use devops_manager.TaskCache.{Entry, same_key, cache_text, get_text, redis_call, minutes}
use devops_manager.TaskCache.Store.{cache_task_status, get_cached_task_status}
use devops_manager.TaskCache.Fresh.{untroubled}
use devops_manager.TaskService.Status.{StatusAnswer, get_task_status}

-- Where no command of Redis fails and reading a text gives what was written to it, GetTaskStatus gives
-- an answer that was cached less than five minutes ago, reads no table and writes none, whatever the
-- tables hold by then.
pub get_task_status-cached :
    {Text : Type 0} (marshal : StatusAnswer → Option Text) (unmarshal : Text → Option StatusAnswer)
    (id : ℕ) (a : StatusAnswer) (x : Text) (now later : Time) (es : List (Entry Text)) (s : Session)
    → marshal a ≡ some x
    → unmarshal x ≡ some a
    → later < now + minutes 5
    → (get_task_status unmarshal id later
        (cache_task_status marshal id a now (untroubled es)).1
        s).0
      ≡ (ok a, s)
unfolding get_task_status get_cached_task_status cache_task_status get_text cache_text redis_call
    same_key
get_task_status-cached marshal unmarshal id a x now later es s w u soon = ground (arith, w, u, soon)
