-- ===== src/TaskQueue/Loads/Counting.antt =====
-- How updateHostLoadForTask moves the number of running tasks of a host.
use devops_manager.Prelude.{
  ℕ, ◌+◌, ◌-◌, ◌≡◌, Bool, true, false, none, some, List, [], ◌∷◌, ◌==◌, if◌then◌else◌, Option-cases,
  inl, inr, refl, arith, count_where,
}
use devops_manager.TaskQueue.Types.{HostLoad}
use devops_manager.TaskQueue.Loads.{
  find_load, put_load, default_load, load_or_default, update_for_task, shifted, can_execute,
}

-- The number of running tasks that the map knows of a host; a host without an entry has none.
unfoldable pub running_on : ℕ → List HostLoad → ℕ
running_on id loads = elim (find_load id loads) [ none ↦ 0 | some l ↦ l.running_tasks ]

find-put :
    (id : ℕ) (l : HostLoad) (loads : List HostLoad)
    → find_load id (put_load l loads) ≡ (if l.host_id == id then some l else find_load id loads)
unfolding put_load
find-put id l [] = ground arith
find-put id l (k ∷ ks) = ground (arith, find-put id l ks)

find-host_id :
    (id : ℕ) (l : HostLoad) (loads : List HostLoad) → find_load id loads ≡ some l → l.host_id ≡ id
find-host_id id l [] h = cc
find-host_id id l (k ∷ ks) h = ground (arith, find-host_id id l ks)

abbrev occurrences : ℕ → List ℕ → ℕ
occurrences id ids = count_where (λ j. j == id) ids

load_or_default-host_id :
    (max_per_host now id : ℕ) (loads : List HostLoad)
    → (load_or_default max_per_host now id loads).host_id ≡ id
unfolding load_or_default
load_or_default-host_id max_per_host now id loads = elim (Option-cases (find_load id loads)) [
  | inl e ↦ rw (e, load_or_default)
  | inr (l, e) ↦ rw (e, load_or_default) (find-host_id id l loads e)
]

load_or_default-running :
    (max_per_host now id : ℕ) (loads : List HostLoad)
    → (load_or_default max_per_host now id loads).running_tasks ≡ running_on id loads
unfolding load_or_default running_on
load_or_default-running max_per_host now id loads = ground arith

module _ (max_per_host now : ℕ) (increment : Bool) (j : ℕ) (loads : List HostLoad) where
  abbrev shifted_load : HostLoad
  shifted_load =
      let l = load_or_default max_per_host now j loads in
      record l { running_tasks = shifted increment l.running_tasks; last_updated = now }

  running_on-put :
      (id : ℕ)
      → running_on id (put_load shifted_load loads)
        ≡ (if j == id then shifted increment (running_on id loads) else running_on id loads)
  unfolding running_on
  running_on-put id = ground (
    arith,
    find-put id shifted_load loads,
    load_or_default-host_id max_per_host now j loads,
    load_or_default-running max_per_host now j loads,
  )

abbrev moved : Bool → ℕ → ℕ → ℕ
moved true n k = n + k
moved false n k = n - k

-- A task that starts adds one to a host for each time that it names it, and a task that ends takes
-- as many away, down to zero.
pub update_for_task-running :
    (max_per_host now : ℕ) (increment : Bool) (id : ℕ) (ids : List ℕ) (loads : List HostLoad)
    → running_on id (update_for_task max_per_host now increment ids loads)
      ≡ moved increment (running_on id loads) (occurrences id ids)
unfolding update_for_task shifted
update_for_task-running max_per_host now true id [] loads = omega arith
update_for_task-running max_per_host now false id [] loads = omega arith
update_for_task-running max_per_host now true id (j ∷ ids) loads = ground (
  arith,
  update_for_task-running max_per_host now true id ids
      (put_load (shifted_load max_per_host now true j loads) loads),
  running_on-put max_per_host now true j loads id,
)
update_for_task-running max_per_host now false id (j ∷ ids) loads = ground (
  arith,
  update_for_task-running max_per_host now false id ids
      (put_load (shifted_load max_per_host now false j loads) loads),
  running_on-put max_per_host now false j loads id,
)

-- A task that starts and ends leaves the number of running tasks of every host as it was.
pub update_for_task-undo :
    (max_per_host now later id : ℕ) (ids : List ℕ) (loads : List HostLoad)
    → running_on id (
        update_for_task max_per_host later false ids
          (update_for_task max_per_host now true ids loads))
      ≡ running_on id loads
update_for_task-undo max_per_host now later id ids loads = omega (
  arith,
  update_for_task-running max_per_host now true id ids loads,
  update_for_task-running max_per_host later false id ids
      (update_for_task max_per_host now true ids loads),
)

-- canExecuteTask adds entries with no running task, and changes no other.
pub can_execute-running :
    (max_per_host now id : ℕ) (ids : List ℕ) (loads : List HostLoad)
    → running_on id (can_execute max_per_host now ids loads).1 ≡ running_on id loads
unfolding can_execute running_on default_load
can_execute-running max_per_host now id [] loads = refl
can_execute-running max_per_host now id (j ∷ ids) loads = ground (
  arith,
  can_execute-running max_per_host now id ids loads,
  can_execute-running max_per_host now id ids (put_load (default_load j max_per_host now) loads),
  find-put id (default_load j max_per_host now) loads,
)
