-- ===== src/Audit/Trail.antt =====
-- What the audit log holds about a command after any sequence of calls.
use devops_manager.Prelude.{
  ℕ, ◌≡◌, refl, ap, ◌∙◌, String, Bool, true, false, not, Option, none, some, Time, List, [], ◌∷◌,
  ◌++◌, ◌==◌, ltb, map, select, if◌then◌else◌,
}
use devops_manager.Audit.Rows.{
  Recorded, recorded, logs_of, selected-young, logged, execution_logged, others, differs, added,
}
use devops_manager.Audit.Queries.{is_of_command, get_command_execution_history}
use devops_manager.Audit.{
  AuditAction, AuditLog, AuditDb, ok, action_text, log_task_action, log_command_action,
  log_host_action, log_task_execution, cleanup_old_audit_logs, task_row, command_row, host_row,
  execution_row,
}

pub data Call (D : Type 0) : Type 0 where
  on_task : AuditAction → ℕ → String → D → (now created : Time) → Call D
  on_command : AuditAction → (command_id host_id : ℕ) → String → D → (now created : Time) → Call D
  on_host : AuditAction → ℕ → D → (now created : Time) → Call D
  on_execution :
      ℕ → (level message : String) → D → (host_id command_id : ℕ) → (now created : Time) → Call D
  clean_up : (cutoff : Time) → Call D

module _ {D : Type 0} (marshal : D → Option String) where
  unfoldable pub run : Call D → AuditDb → AuditDb
  run (on_task a i u d now created) db = (log_task_action marshal a i u d now created db).1
  run (on_command a i h u d now created) db =
      (log_command_action marshal a i h u d now created db).1
  run (on_host a i d now created) db = (log_host_action marshal a i d now created db).1
  run (on_execution i level message d h c now created) db =
      (log_task_execution marshal i level message d h c now created db).1
  run (clean_up cutoff) db = (cleanup_old_audit_logs cutoff db).1

  abbrev pub run_all : List (Call D) → AuditDb → AuditDb
  run_all [] db = db
  run_all (c ∷ cs) db = run_all cs (run c db)

  -- The trail of one command: its actions in the order of the calls, less those that were cleaned up.
  unfoldable pub trail : ℕ → List (Call D) → List Recorded → List Recorded
  unfolding action_text
  trail id [] rs = rs
  trail id (on_command a i h u d now created ∷ cs) rs = trail id cs (elim (marshal d) [
    | none ↦ rs
    | some text ↦
        (if i == id
          then rs
            ++ (record {
              action = action_text a;
              host_id = h;
              user_id = u;
              details = text;
              timestamp = now;
            })
              ∷ []
          else rs)
  ])
  trail id (clean_up cutoff ∷ cs) rs = trail id cs (select (λ r. not (ltb r.timestamp cutoff)) rs)
  trail id (on_task a i u d now created ∷ cs) rs = trail id cs rs
  trail id (on_host a i d now created ∷ cs) rs = trail id cs rs
  trail id (on_execution i level message d h c now created ∷ cs) rs = trail id cs rs

  module _ (equals : (column value : String) → Bool) (id : ℕ) where
    -- The rows of a command after one call; the database fails at no statement of it.
    abbrev Follows : Call D → AuditDb → Type 0
    Follows c db =
        ((run c db).faults ≡ [])
        × ((rs : List Recorded) (cs : List (Call D))
            → logs_of equals id db ≡ rs
            → trail id cs (logs_of equals id (run c db)) ≡ trail id (c ∷ cs) rs)

    module _ (command_is : equals "command" "command" ≡ true)
        (task_differs : equals "task" "command" ≡ false)
        (host_differs : equals "host" "command" ≡ false) where
      run-Follows : (c : Call D) (db : AuditDb) → db.faults ≡ [] → Follows c db
      unfolding run trail log_task_action log_command_action log_host_action log_task_execution
          cleanup_old_audit_logs
      run-Follows (on_task a i u d now created) db quiet =
          let row = task_row a i u now created in
          let r = logged equals id (marshal d) row db quiet in
          (
            r.0,
            λ rs cs e. ap (trail id cs) (
                r.1
                ∙ others equals id (marshal d) _ row (λ text. differs equals id i _ task_differs)
                ∙ e),
          )
      run-Follows (on_host a i d now created) db quiet =
          let row = host_row a i now created in
          let r = logged equals id (marshal d) row db quiet in
          (
            r.0,
            λ rs cs e. ap (trail id cs) (
                r.1
                ∙ others equals id (marshal d) _ row (λ text. differs equals id i _ host_differs)
                ∙ e),
          )
      run-Follows (on_execution i level message d h c now created) db quiet =
          let r =
            execution_logged equals id (marshal d) (execution_row i level message h c now created)
              db quiet in
          (
            r.0,
            λ rs cs e.
                ap (trail id cs)
                  (ap (λ ls. map recorded (select (is_of_command equals id) ls)) r.1 ∙ e),
          )
      run-Follows (clean_up cutoff) db quiet = rw quiet (
        refl,
        λ rs cs e. ap (trail id cs) (
            selected-young equals id cutoff db.audit_logs
            ∙ ap (select (λ r. not (ltb r.timestamp cutoff))) e),
      )
      run-Follows (on_command a i h u d now created) db quiet =
          let r = logged equals id (marshal d) (command_row a i h u now created) db quiet in
          (
            r.0,
            λ rs cs e.
                ap (trail id cs)
                  (r.1 ∙ added equals id command_is (marshal d) rs a i h u now created e),
          )

      run_all-trail :
          (cs : List (Call D)) (db : AuditDb) (rs : List Recorded)
          → db.faults ≡ []
          → logs_of equals id db ≡ rs
          → ((run_all cs db).faults ≡ []) × (logs_of equals id (run_all cs db) ≡ trail id cs rs)
      unfolding trail
      run_all-trail [] db rs quiet e = (quiet, e)
      run_all-trail (c ∷ cs) db rs quiet e =
          let next = run-Follows c db quiet in
          let r = run_all-trail cs (run c db) (logs_of equals id (run c db)) next.0 refl in
          (r.0, r.1 ∙ next.1 rs cs e)

      -- Where no statement fails and the database tells the three kinds of entities apart: after any
      -- calls on an empty log, the history of a command is the rows of its trail in the database's
      -- order, where the trail is the actions on the command whose details could be marshaled, in the
      -- order of the calls, less those that a clean-up found too old.
      pub get_command_execution_history-trail :
          (oldest_first : List AuditLog → List AuditLog) (cs : List (Call D)) (db : AuditDb)
          → db.faults ≡ []
          → db.audit_logs ≡ []
          → ((get_command_execution_history equals oldest_first id (run_all cs db)).0
              ≡ ok (oldest_first (select (is_of_command equals id) (run_all cs db).audit_logs)))
            × (map recorded (select (is_of_command equals id) (run_all cs db).audit_logs)
                ≡ trail id cs [])
      unfolding get_command_execution_history
      get_command_execution_history-trail oldest_first cs db quiet empty =
          let r = run_all-trail cs db [] quiet (rw empty refl) in (rw r.0 refl, r.1)
