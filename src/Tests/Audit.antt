-- ===== src/Tests/Audit.antt =====
-- A log of three actions and a clean-up, and the theorems on it.
use text.Mathlib.Text.{◌==◌ as str_eq}
use devops_manager.Prelude.{
  ◌≡◌, refl, String, true, false, Option, none, some, List, [], ◌∷◌, map, select,
}
use devops_manager.Audit.Rows.{recorded}
use devops_manager.Audit.Queries.{is_of_command, get_command_execution_history}
use devops_manager.Audit.{AuditAction, AuditDb, ok, cleanup_old_audit_logs}
use devops_manager.Audit.Trail.{
  Call, on_task, on_command, clean_up, run_all, trail, get_command_execution_history-trail,
}
use devops_manager.Audit.Retention.{CleansAs, cleanup_old_audit_logs-CleansAs}

abbrev empty_log : AuditDb
empty_log = record {
  audit_logs = [];
  task_execution_logs = [];
  next_audit_id = 1;
  next_execution_id = 1;
  faults = [];
}

-- The details are a text, and the empty one cannot be marshaled.
abbrev marshal : String → Option String
marshal text = elim (str_eq text "") [ true ↦ none | false ↦ some text ]

abbrev actions : List (Call String)
actions =
    on_command AuditAction.command_sent 7 3 "ann" "old" 1 1
    ∷ clean_up 5
    ∷ on_task AuditAction.task_started 7 "ann" "start" 6 6
    ∷ on_command AuditAction.command_sent 7 3 "ann" "" 7 7
    ∷ on_command AuditAction.command_result 7 3 "ann" "exit 0" 8 8
    ∷ []

get_command_execution_history-trail_example :
    ((get_command_execution_history str_eq (λ ls. ls) 7 (run_all marshal actions empty_log)).0
      ≡ ok (select (is_of_command str_eq 7) (run_all marshal actions empty_log).audit_logs))
    × (map recorded (select (is_of_command str_eq 7) (run_all marshal actions empty_log).audit_logs)
        ≡ trail marshal 7 actions [])
get_command_execution_history-trail_example =
    get_command_execution_history-trail marshal str_eq 7 refl refl refl (λ ls. ls) actions empty_log
      refl refl

-- The second statement fails.
abbrev failing : AuditDb
failing = record (run_all marshal actions empty_log) { faults = false ∷ true ∷ [] }

cleanup_old_audit_logs-CleansAs_example :
    CleansAs 7 failing failing.faults (cleanup_old_audit_logs 7 failing)
cleanup_old_audit_logs-CleansAs_example = cleanup_old_audit_logs-CleansAs 7 failing
