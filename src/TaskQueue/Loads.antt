-- ===== src/TaskQueue/Loads.antt =====
-- The map hostLoads: canExecuteTask, updateHostLoadForTask, UpdateHostLoad and updateHostLoads.
pub mod Counting
use devops_manager.Prelude.{
  ℕ, ◌+◌, ◌-◌, zero, suc, Bool, true, false, Option, none, some, Time, List, [], ◌∷◌, ltb, leb,
  ◌==◌, ◌&&◌, ◌||◌, if◌then◌else◌, first, not,
}
use devops_manager.TaskQueue.Types.{HostLoad, QueuedTask}

abbrev pub find_load : ℕ → List HostLoad → Option HostLoad
find_load id loads = first (λ l. l.host_id == id) loads

-- `hostLoads[id] = load`, or a change of the load in place.
unfoldable pub put_load : HostLoad → List HostLoad → List HostLoad
put_load l [] = l ∷ []
put_load l (k ∷ ks) = if k.host_id == l.host_id then l ∷ ks else k ∷ put_load l ks

-- The entry that is made for a host that has none.
unfoldable pub default_load : ℕ → ℕ → Time → HostLoad
default_load id max_per_host now = record {
  host_id = id;
  running_tasks = 0;
  max_concurrent_tasks = max_per_host;
  cpu_usage = 0;
  memory_usage = 0;
  last_updated = now;
  available = true;
}

-- The three tests of canExecuteTask on a host that has an entry.
unfoldable pub has_room : HostLoad → Bool
has_room l =
    l.available
    && (ltb l.running_tasks l.max_concurrent_tasks
        && not (ltb 80000 l.cpu_usage || ltb 80000 l.memory_usage))

-- The loop over the hosts. Entries that are made before a host refuses stay.
unfoldable pub can_execute : ℕ → Time → List ℕ → List HostLoad → Bool × List HostLoad
unfolding default_load put_load has_room
can_execute max_per_host now [] loads = (true, loads)
can_execute max_per_host now (id ∷ ids) loads = elim (find_load id loads) [
  | none ↦ can_execute max_per_host now ids (put_load (default_load id max_per_host now) loads)
  | some l ↦ elim (has_room l) [
    | true ↦ can_execute max_per_host now ids loads
    | false ↦ (false, loads)
  ]
]

-- An entry as updateHostLoadForTask takes it: as it is, or made anew.
unfoldable pub load_or_default : ℕ → Time → ℕ → List HostLoad → HostLoad
unfolding default_load
load_or_default max_per_host now id loads = elim (find_load id loads) [
  | none ↦ default_load id max_per_host now
  | some l ↦ l
]

-- One more task, or one less and never below zero, which the subtraction of ℕ says.
unfoldable pub shifted : Bool → ℕ → ℕ
shifted true n = n + 1
shifted false n = n - 1

unfoldable pub update_for_task : ℕ → Time → Bool → List ℕ → List HostLoad → List HostLoad
unfolding load_or_default put_load shifted
update_for_task max_per_host now increment [] loads = loads
update_for_task max_per_host now increment (id ∷ ids) loads =
    let l = load_or_default max_per_host now id loads in
    update_for_task max_per_host now increment ids (
      put_load (record l { running_tasks = shifted increment l.running_tasks; last_updated = now })
        loads)

-- The entry that UpdateHostLoad makes: it sets the other fields at once.
unfoldable pub update_host_load :
    ℕ → ℕ → (cpu memory : ℕ) → Bool → Time → List HostLoad → List HostLoad
unfolding load_or_default put_load
update_host_load max_per_host id cpu memory available now loads =
    let l = load_or_default max_per_host now id loads in
    put_load
      (record l {
        cpu_usage = cpu;
        memory_usage = memory;
        available = available;
        last_updated = now;
      })
      loads

-- Five minutes.
abbrev stale_after : ℕ
stale_after = 300000000000

unfoldable pub refresh : Time → List HostLoad → List HostLoad
refresh now [] = []
refresh now (l ∷ ls) =
    record l { available = not (ltb (l.last_updated + stale_after) now) } ∷ refresh now ls
