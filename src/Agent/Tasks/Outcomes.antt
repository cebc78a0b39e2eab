-- ===== src/Agent/Tasks/Outcomes.antt =====
-- The states that the agent's task service reaches, in any order of calls and goroutines.
use devops_manager.Prelude.{
  ℕ, zero, suc, ◌≤◌, ◌<◌, ◌≡◌, refl, ap, Bool, true, false, not, none, some, Time, String, List, [],
  ◌∷◌, ◌++◌, ◌==◌, ◌&&◌, ltb, length, map, select, count_where, All, arith, Option-cases,
  Bool-cases, inl, inr, length-append,
}
use devops_manager.Agent.Tasks.{
  TaskService, TaskExecution, ExecutionStatus, Place, CommandResult, new_task_service, started,
  get_elem?, modify, lookup, holds, is_running, is_old, execute_task, command_returns, with_result,
  goroutine_ends, with_end, cancel_task, with_cancel, cleanup_completed_tasks, get_running_tasks,
}

-- One step: a call of a method, or a section of the goroutine of an execution that is there.
pub data Step : TaskService → TaskService → Type 0 where
  executes :
      (is_valid : Bool) (id : ℕ) (command : String) (now : Time) (s : TaskService)
      → Step s (execute_task is_valid id command now s).1
  returns :
      (i : ℕ) (r : CommandResult) (s : TaskService) (e : TaskExecution)
      → get_elem? s.executions i ≡ some e
      → e.place ≡ Place.executing
      → Step s (command_returns i r s)
  ends :
      (i : ℕ) (now : Time) (s : TaskService) (e : TaskExecution)
      → get_elem? s.executions i ≡ some e
      → e.place ≡ Place.returned
      → Step s (goroutine_ends i now s)
  cancels : (id : ℕ) (now : Time) (s : TaskService) → Step s (cancel_task id now s).1
  cleans :
      (max_age : ℕ) (now : Time) (s : TaskService) → Step s (cleanup_completed_tasks max_age now s)

pub data Reach : TaskService → Type 0 where
  here : Reach new_task_service
  next : {s t : TaskService} → Reach s → Step s t → Reach t

abbrev has_ended : Place → Bool
has_ended Place.ended = true
has_ended _ = false

abbrev is_completed : ExecutionStatus → Bool
is_completed ExecutionStatus.completed = true
is_completed _ = false

-- An execution whose goroutine has ended with a status other than completed.
abbrev pub has_failed : TaskExecution → Bool
has_failed e = has_ended e.place && not (is_completed e.status)

-- An execution that is over, in some status, has an end time once its goroutine has ended.
abbrev pub lacks_end : TaskExecution → Bool
lacks_end e = has_ended e.place && elim e.end_time [ none ↦ true | some t ↦ false ]

abbrev pub tasks_of : ℕ → List (ℕ × ℕ) → ℕ
tasks_of id m = count_where (λ k. k.0 == id) m

-- The map takes each task once, to an execution in the store, and no execution ends but completed.
pub record IsValid (s : TaskService) : Type 0 where
  pub distinct : (id : ℕ) → tasks_of id s.running_tasks ≤ 1
  pub placed : All (λ k. ltb k.1 (length s.executions) ≡ true) s.running_tasks
  pub completed : All (λ e. has_failed e ≡ false) s.executions
  pub finished : All (λ e. lacks_end e ≡ false) s.executions

All-modify {κ} :
    (P : TaskExecution → Type κ) (i : ℕ) (f : TaskExecution → TaskExecution)
    (es : List TaskExecution)
    → ((e : TaskExecution) → P e → P (f e))
    → All P es
    → All P (modify i f es)
All-modify P i f [] keep h = h
All-modify P zero f (e ∷ es) keep h = (keep e h.0, h.1)
All-modify P (suc i) f (e ∷ es) keep h = (h.0, All-modify P i f es keep h.1)

All-snoc {κ} :
    (P : TaskExecution → Type κ) (es : List TaskExecution) (e : TaskExecution)
    → All P es
    → P e
    → All P (es ++ e ∷ [])
All-snoc P [] e h p = (p, tt)
All-snoc P (x ∷ es) e h p = (h.0, All-snoc P es e h.1 p)

length-modify :
    (i : ℕ) (f : TaskExecution → TaskExecution) (es : List TaskExecution)
    → length (modify i f es) ≡ length es
length-modify i f [] = refl
length-modify zero f (e ∷ es) = refl
length-modify (suc i) f (e ∷ es) = omega (arith, length-modify i f es)

placed-grows :
    (n n' : ℕ) (m : List (ℕ × ℕ))
    → n < n'
    → All (λ k. ltb k.1 n ≡ true) m
    → All (λ k. ltb k.1 n' ≡ true) m
placed-grows n n' [] lt h = tt
placed-grows n n' (k ∷ m) lt h = (ground (arith, h.0), placed-grows n n' m lt h.1)

lookup-none : (id : ℕ) (m : List (ℕ × ℕ)) → lookup id m ≡ none → tasks_of id m ≡ 0
lookup-none id [] h = refl
lookup-none id ((k, i) ∷ m) h = ground (arith, lookup-none id m)

tasks_of-select :
    (id : ℕ) (p : ℕ × ℕ → Bool) (m : List (ℕ × ℕ)) → tasks_of id (select p m) ≤ tasks_of id m
tasks_of-select id p [] = omega arith
tasks_of-select id p (k ∷ m) = ground (arith, tasks_of-select id p m)

placed-select :
    (n : ℕ) (p : ℕ × ℕ → Bool) (m : List (ℕ × ℕ))
    → All (λ k. ltb k.1 n ≡ true) m
    → All (λ k. ltb k.1 n ≡ true) (select p m)
placed-select n p [] h = tt
placed-select n p (k ∷ m) h = elim (Bool-cases (p k)) [
  | inl e ↦ rw e (h.0, placed-select n p m h.1)
  | inr e ↦ rw e (placed-select n p m h.1)
]

-- A change of one execution in place that keeps both properties keeps the state valid.
modified-IsValid :
    (i : ℕ) (f : TaskExecution → TaskExecution) (s : TaskService)
    → ((e : TaskExecution) → has_failed e ≡ false → has_failed (f e) ≡ false)
    → ((e : TaskExecution) → lacks_end e ≡ false → lacks_end (f e) ≡ false)
    → IsValid s
    → IsValid (record s { executions = modify i f s.executions })
modified-IsValid i f s keep keep_end v = record {
  distinct = v.distinct;
  placed = rw (length-modify i f s.executions) v.placed;
  completed = All-modify (λ e. has_failed e ≡ false) i f s.executions keep v.completed;
  finished = All-modify (λ e. lacks_end e ≡ false) i f s.executions keep_end v.finished;
}

execute_task-IsValid :
    (is_valid : Bool) (id : ℕ) (command : String) (now : Time) (s : TaskService)
    → IsValid s
    → IsValid (execute_task is_valid id command now s).1
unfolding execute_task
execute_task-IsValid false id command now s v = v
execute_task-IsValid true id command now s v = elim (Option-cases (lookup id s.running_tasks)) [
  | inr (i, e) ↦ rw (e, execute_task) v
  | inl e ↦
      rw (e, execute_task)
        (record {
          distinct = λ j. ground (arith, lookup-none id s.running_tasks e, v.distinct j);
          placed =
              let new : TaskExecution = started id command now in
              let more : length s.executions < length (s.executions ++ new ∷ []) =
                omega (arith, length-append s.executions (new ∷ [])) in
              (
                ground (arith, more),
                placed-grows (length s.executions) (length (s.executions ++ new ∷ []))
                    s.running_tasks more v.placed,
              );
          completed =
              All-snoc (λ x. has_failed x ≡ false) s.executions (started id command now) v.completed
                refl;
          finished =
              All-snoc (λ x. lacks_end x ≡ false) s.executions (started id command now) v.finished
                refl;
        })
]

Step-IsValid : {s t : TaskService} → Step s t → IsValid s → IsValid t
unfolding command_returns goroutine_ends with_result with_end with_cancel is_running cancel_task
    cleanup_completed_tasks
Step-IsValid (executes is_valid id command now s) v =
    execute_task-IsValid is_valid id command now s v
Step-IsValid (returns i r s e at p) v =
    modified-IsValid i (with_result r) s (λ x h. refl) (λ x h. refl) v
Step-IsValid (ends i now s e at p) v =
    modified-IsValid i (with_end now) s (λ x h. refl) (λ x h. refl) v
Step-IsValid (cancels id now s) v = elim (Option-cases (lookup id s.running_tasks)) [
  | inl e ↦ rw (e, cancel_task) v
  | inr (i, e) ↦
      rw (e, cancel_task)
        (modified-IsValid i (with_cancel now) s (λ x h. ground arith) (λ x h. ground arith) v)
]
Step-IsValid (cleans max_age now s) v = record {
  distinct = λ id. omega (
    arith,
    tasks_of-select id (λ k. not (holds (is_old max_age now) s.executions k)) s.running_tasks,
    v.distinct id,
  );
  placed =
      placed-select (length s.executions) (λ k. not (holds (is_old max_age now) s.executions k))
        s.running_tasks v.placed;
  completed = v.completed;
  finished = v.finished;
}

-- In every state that the agent's task service reaches, in whatever order calls and goroutines take
-- their turns: the map takes each task at most once, and to an execution that exists; and each
-- execution whose goroutine has ended has an end time and the status completed, whatever the exit
-- code of its command was, and whether it was canceled or not.
pub Reach-IsValid : {s : TaskService} → Reach s → IsValid s
unfolding new_task_service
Reach-IsValid here = record {
  distinct = λ id. omega arith;
  placed = tt;
  completed = tt;
  finished = tt;
}
Reach-IsValid (next r st) = Step-IsValid st (Reach-IsValid r)

selected-running :
    (max_age : ℕ) (now : Time) (es : List TaskExecution) (m : List (ℕ × ℕ))
    → select
        (holds (λ e. is_running e.status) es)
        (select (λ k. not (holds (is_old max_age now) es k)) m)
      ≡ select (holds (λ e. is_running e.status) es) m
unfolding is_old is_running
selected-running max_age now es [] = refl
selected-running max_age now es (k ∷ m) = ground (arith, selected-running max_age now es m)

-- CleanupCompletedTasks forgets no task that runs, and brings none back.
pub cleanup_completed_tasks-running :
    (max_age : ℕ) (now : Time) (s : TaskService)
    → get_running_tasks (cleanup_completed_tasks max_age now s) ≡ get_running_tasks s
unfolding get_running_tasks cleanup_completed_tasks
cleanup_completed_tasks-running max_age now s =
    ap (map (λ k. k.0)) (selected-running max_age now s.executions s.running_tasks)
