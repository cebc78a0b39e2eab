-- ===== src/Http/Effects.antt =====
-- What requests about tasks do to the tables, by their replies. GET of a task's status is among them, as
-- it writes the task; GET of its progress is not, which reads the hosts after it has written the status.
use devops_manager.Prelude.{
  ℕ, ◌≡◌, refl, ◌⊎◌, inl, inr, Bool, true, false, String, Option, none, some, Time, List, [], ◌∷◌,
  Bool-cases, ℤ, pos, negsuc, zero, suc, ◌&&◌, ◌==◌, first,
}
use text.Mathlib.Text.{◌==◌ as str_eq}
use devops_manager.Models.Task as Tasks
use devops_manager.TaskService.Lifecycle.{
  create_task, start_task, start_task_body, stop_task, cancel_task, cancel_task_body,
}
use devops_manager.TaskService.Hosts.{add_task_hosts, remove_task_host}
use devops_manager.TaskService.Failures.{retry_failed_command, retry}
use devops_manager.TaskService.Atomic.{
  create_task-IsAtomic, add_task_hosts-IsAtomic, remove_task_host-IsAtomic,
}
use devops_manager.Db.{
  statement, find_task, is_live_command, read, require, check, Db, write, Session, Error, Result,
  ok, err,
}
use devops_manager.Db.Rollback.{
  IsAtomic, transaction-err, bind-IsAtomic, read-Reads, require-Reads, check-Reads,
}
use devops_manager.Http.Reply.{Reply, replied, send_error_response, send_success_response}
use devops_manager.Http.Tasks.{
  CreateTaskRequest, Bound, invalid, bound, create_task_handler, create_checked, start_task_handler,
  stop_task_handler, cancel_task_handler, add_task_hosts_handler, remove_task_host_handler,
  retry_failed_command_handler, check_command_timeout_handler,
}
use devops_manager.Http.Tasks.Lists.{cleaned, cleanup_old_records_handler, get_task_status_handler}
use devops_manager.Http.Params.{atoi, default_query}
use devops_manager.Models.Command.{Command}
use devops_manager.Models.Command as Commands
use devops_manager.TimeoutMonitor.{
  check_command_timeout, time_out_found, time_out, is_command_timeout,
  handle_single_timeout_command,
}
use devops_manager.Cleanup.{cleanup_old_records, cleanup_body}
use devops_manager.TaskCache as Cache
use devops_manager.TaskCache.{Redis}
use devops_manager.TaskCache.Store.{get_cached_task_status}
use devops_manager.TaskService.Status.{
  StatusAnswer, get_task_status, or_fresh, read_task_status, task_status_body,
}

-- The requests.
pub data TaskRequest : Type 0 where
  create : Bound CreateTaskRequest → TaskRequest
  start stop cancel : Option ℕ → TaskRequest
  add_hosts : Option ℕ → Bound (List ℕ) → TaskRequest
  remove_host : (id host_id : Option ℕ) → TaskRequest
  retry_command : Option ℕ → TaskRequest
  check_timeout : Option ℕ → TaskRequest
  clean_up : Option String → TaskRequest
  status : Option ℕ → TaskRequest

-- The status code of an error of the service.
abbrev pub failure_code : TaskRequest → ℕ
failure_code (status id) = 404
failure_code _ = 500

-- The status code of a reply, and what it leaves of the session.
abbrev pub Served : Type 0
Served = ℕ × Session

abbrev pub code_of : {D : Type 0} → Reply D × Session → Served
code_of (r, s) = (r.code, s)

-- Done; or refused, with nothing done; or failed, with the tables as they were.
abbrev pub IsOutcome : (code : ℕ) → Session → Served → Type 0
IsOutcome code s r = (r.0 ≡ 200) ⊎ ((r.0 ≡ 400) × (r.1 ≡ s)) ⊎ ((r.0 ≡ code) × (r.1.db ≡ s.db))

write-IsAtomic : (f : Db → Db) → IsAtomic (write f)
unfolding statement
write-IsAtomic f s = faulty s.faults
  where
    faulty :
        (faults : List Bool) (e : Error)
        → (write f (record s { faults = faults })).0 ≡ err e
        → (write f (record s { faults = faults })).1.db ≡ s.db
    faulty [] e h = cc
    faulty (true ∷ rest) e h = refl
    faulty (false ∷ rest) e h = cc

stop_task-IsAtomic : (id : ℕ) (now : Time) → IsAtomic (stop_task id now)
unfolding stop_task
stop_task-IsAtomic id now =
    bind-IsAtomic (read (find_task id)) _ (read-Reads (find_task id)) (λ found.
      bind-IsAtomic (require Error.task_not_found found) _
        (require-Reads Error.task_not_found found)
        (λ task.
          bind-IsAtomic (check (Tasks.is_running task.status) Error.task_not_running) _
            (check-Reads (Tasks.is_running task.status) Error.task_not_running)
            (λ _. write-IsAtomic _)))

time_out_found-IsAtomic :
    (found : Option Command) (now : Time) → IsAtomic (time_out_found found now)
unfolding handle_single_timeout_command
time_out_found-IsAtomic none now s e h = cc
time_out_found-IsAtomic (some c) now s e h = elim (Bool-cases (is_command_timeout c now)) [
  | inl over ↦ rw over (transaction-err (time_out c now) s e (rw over at h))
  | inr within ↦ rw within refl
]

check_command_timeout-IsAtomic : (id : ℕ) (now : Time) → IsAtomic (check_command_timeout id now)
unfolding check_command_timeout
check_command_timeout-IsAtomic id now =
    bind-IsAtomic
      (read (λ db.
        first (λ c. (c.command_id == id && Commands.is_running c.status) && is_live_command c)
          db.commands))
      _
      (read-Reads (λ db.
        first (λ c. (c.command_id == id && Commands.is_running c.status) && is_live_command c)
          db.commands))
      (λ found. time_out_found-IsAtomic found now)

-- An answer of the cache reads no table, and the statements of the other case are one transaction.
or_fresh-err :
    {Text : Type 0} (cached : Cache.Result (Option StatusAnswer) × Redis Text) (id : ℕ) (now : Time)
    (s : Session) (e : Error)
    → (or_fresh cached id now s).0.0 ≡ err e
    → (or_fresh cached id now s).0.1.db ≡ s.db
unfolding read_task_status
or_fresh-err (Cache.ok (some a), r) id now s e h = cc
or_fresh-err (Cache.ok none, r) id now s e h = transaction-err (task_status_body id now) s e h
or_fresh-err (Cache.err x, r) id now s e h = transaction-err (task_status_body id now) s e h

module _ (error_text : Error → String) (uuid : ℕ → ℕ) (now : Time) (row_id : ℕ → ℕ)
    (format : Time → String) (days_before : ℕ → Time → Time) {Text : Type 0}
    (unmarshal_status : Text → Option StatusAnswer) (redis : Redis Text) where
  unfoldable pub serve : TaskRequest → Session → Served
  serve (create body) s = code_of (create_task_handler error_text row_id format uuid body now s)
  serve (start id) s = code_of (start_task_handler error_text id now s)
  serve (stop id) s = code_of (stop_task_handler error_text id now s)
  serve (cancel id) s = code_of (cancel_task_handler error_text id now s)
  serve (add_hosts id body) s = code_of (add_task_hosts_handler error_text uuid id body now s)
  serve (remove_host id host_id) s = code_of (remove_task_host_handler error_text id host_id now s)
  serve (retry_command id) s = code_of (retry_failed_command_handler error_text id now s)
  serve (check_timeout id) s = code_of (check_command_timeout_handler error_text id now s)
  serve (clean_up days) s = code_of (cleanup_old_records_handler error_text days_before days now s)
  serve (status id) s =
      code_of (get_task_status_handler error_text unmarshal_status id now redis s).0

  replied-IsOutcome {ℓ} :
      {A : Type ℓ} {D : Type 0} (code : ℕ) (what : String) (respond : A → D)
      (r : Result A × Session) (s : Session)
      → ((e : Error) → r.0 ≡ err e → r.1.db ≡ s.db)
      → IsOutcome code s (code_of (replied error_text code what respond r))
  unfolding replied send_error_response send_success_response
  replied-IsOutcome code what respond (ok a, t) s h = inl refl
  replied-IsOutcome code what respond (err e, t) s h = inr (inr (refl, h e refl))

  checked-IsOutcome :
      (req : CreateTaskRequest) (hosts : List ℕ) (s : Session)
      → IsOutcome 500 s (code_of (create_checked error_text row_id format uuid now req hosts s))
  unfolding create_checked
  checked-IsOutcome req [] s = elim (Bool-cases (str_eq req.name "")) [
    | inl e ↦ rw e (inr (inl (refl, refl)))
    | inr e ↦ rw e (inr (inl (refl, refl)))
  ]
  checked-IsOutcome req (h ∷ hs) s = elim (Bool-cases (str_eq req.name "")) [
    | inl e ↦ rw e (inr (inl (refl, refl)))
    | inr e ↦ elim (Bool-cases (str_eq req.command "")) [
      | inl f ↦ rw (e, f) (inr (inl (refl, refl)))
      | inr f ↦
          rw (e, f)
            (replied-IsOutcome _ _ _
              (create_task uuid req.name req.description req.host_ids req.command req.timeout
                req.parameters "admin" now s)
              s
              (create_task-IsAtomic uuid req.name req.description req.host_ids req.command
                req.timeout req.parameters "admin" now s))
    ]
  ]

  cleaned-IsOutcome :
      (days : ℤ) (s : Session)
      → IsOutcome 500 s (code_of (cleaned error_text days_before days now s))
  unfolding cleaned cleanup_old_records
  cleaned-IsOutcome (negsuc n) s = inr (inl (refl, refl))
  cleaned-IsOutcome (pos zero) s = inr (inl (refl, refl))
  cleaned-IsOutcome (pos (suc n)) s =
      replied-IsOutcome _ _ _ (cleanup_old_records (days_before (suc n) now) now s) s
        (transaction-err (cleanup_body (days_before (suc n) now) now) s)

  -- Whatever statements fail: a request to create, start, stop or cancel a task, to add or remove hosts,
  -- to retry a command, to check its timeout, to clean up old records, or for the status of a task is
  -- answered with 200; or with 400, and no statement was executed; or with 404 where it is the last of
  -- these and with 500 else, and no table is changed.
  pub serve-IsOutcome : (q : TaskRequest) (s : Session) → IsOutcome (failure_code q) s (serve q s)
  unfolding serve create_task_handler start_task_handler stop_task_handler cancel_task_handler
      add_task_hosts_handler remove_task_host_handler retry_failed_command_handler
      check_command_timeout_handler cleanup_old_records_handler get_task_status_handler
      get_task_status send_error_response
  serve-IsOutcome (create (invalid m)) s = inr (inl (refl, refl))
  serve-IsOutcome (create (bound req)) s = checked-IsOutcome req req.host_ids s
  serve-IsOutcome (start none) s = inr (inl (refl, refl))
  serve-IsOutcome (start (some id)) s =
      replied-IsOutcome _ _ _ (start_task id now s) s (transaction-err (start_task_body id now) s)
  serve-IsOutcome (stop none) s = inr (inl (refl, refl))
  serve-IsOutcome (stop (some id)) s =
      replied-IsOutcome _ _ _ (stop_task id now s) s (stop_task-IsAtomic id now s)
  serve-IsOutcome (cancel none) s = inr (inl (refl, refl))
  serve-IsOutcome (cancel (some id)) s =
      replied-IsOutcome _ _ _ (cancel_task id now s) s (transaction-err (cancel_task_body id now) s)
  serve-IsOutcome (add_hosts none body) s = inr (inl (refl, refl))
  serve-IsOutcome (add_hosts (some id) (invalid m)) s = inr (inl (refl, refl))
  serve-IsOutcome (add_hosts (some id) (bound [])) s = inr (inl (refl, refl))
  serve-IsOutcome (add_hosts (some id) (bound (h ∷ hs))) s =
      replied-IsOutcome _ _ _ (add_task_hosts uuid id (h ∷ hs) now s) s
        (add_task_hosts-IsAtomic uuid id (h ∷ hs) now s)
  serve-IsOutcome (remove_host none host_id) s = inr (inl (refl, refl))
  serve-IsOutcome (remove_host (some id) none) s = inr (inl (refl, refl))
  serve-IsOutcome (remove_host (some id) (some host_id)) s =
      replied-IsOutcome _ _ _ (remove_task_host id host_id now s) s
        (remove_task_host-IsAtomic id host_id now s)
  serve-IsOutcome (retry_command none) s = inr (inl (refl, refl))
  serve-IsOutcome (retry_command (some id)) s =
      replied-IsOutcome _ _ _ (retry_failed_command id now s) s (transaction-err (retry id now) s)
  serve-IsOutcome (check_timeout none) s = inr (inl (refl, refl))
  serve-IsOutcome (check_timeout (some id)) s =
      replied-IsOutcome _ _ _ (check_command_timeout id now s) s
        (check_command_timeout-IsAtomic id now s)
  serve-IsOutcome (clean_up days) s = cleaned-IsOutcome (atoi (default_query "30" days)) s
  serve-IsOutcome (status none) s = inr (inl (refl, refl))
  serve-IsOutcome (status (some id)) s =
      let cached = get_cached_task_status unmarshal_status id now redis in
      replied-IsOutcome _ _ _ (or_fresh cached id now s).0 s (or_fresh-err cached id now s)
