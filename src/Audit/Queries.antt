-- ===== src/Audit/Queries.antt =====
-- What AuditService gives from its logs: the two lists, by conditions that are left out where they are
-- not given, and the history of a command. How the database compares texts is `equals`, and its ORDER
-- BY an argument.
use text.Mathlib.Text.{◌==◌ as str_eq}
use devops_manager.Prelude.{
  ℕ, String, Bool, true, Option, none, some, Time, List, ◌&&◌, ◌==◌, leb, select, length, page_of,
  if◌then◌else◌,
}
use devops_manager.Audit.{AuditLog, TaskExecutionLog, AuditDb, Action, read, return, ◌>>=◌}

-- Conditions that stand only where their argument is given.
abbrev pub where_text : (equals : (column value : String) → Bool) → String → String → Bool
where_text equals value column = if str_eq value "" then true else equals column value

abbrev pub where_id : ℕ → ℕ → Bool
where_id value column = if value == 0 then true else column == value

abbrev pub where_from : Option Time → Time → Bool
where_from none column = true
where_from (some start) column = leb start column

abbrev pub where_until : Option Time → Time → Bool
where_until none column = true
where_until (some end) column = leb column end

-- Count, and then one page of the rows in their order.
abbrev pub log_page {ℓ} :
    {A : Type ℓ} (order_by : List A → List A) (rows : AuditDb → List A) (page size : ℕ)
    → Action (List A × ℕ)
log_page order_by rows page size = do
  total ← read (λ db. length (rows db))
  found ← read (λ db. page_of page size (order_by (rows db)))
  return (found, total)

module _ (equals : (column value : String) → Bool) where
  unfoldable pub get_audit_logs :
      (latest_first : List AuditLog → List AuditLog) (page size : ℕ) (action entity_type : String)
      (entity_id host_id : ℕ) (start_time end_time : Option Time)
      → Action (List AuditLog × ℕ)
  unfolding page_of
  get_audit_logs latest_first page size action entity_type entity_id host_id start_time end_time =
      log_page latest_first
        (λ db.
          select
            (λ l.
              where_text equals action l.action
              && where_text equals entity_type l.entity_type
              && where_id entity_id l.entity_id
              && where_id host_id l.host_id
              && where_from start_time l.timestamp
              && where_until end_time l.timestamp)
            db.audit_logs)
        page size

  unfoldable pub get_task_execution_logs :
      (oldest_first : List TaskExecutionLog → List TaskExecutionLog) (task_id page size : ℕ)
      (log_level : String) (start_time end_time : Option Time)
      → Action (List TaskExecutionLog × ℕ)
  unfolding page_of
  get_task_execution_logs oldest_first task_id page size log_level start_time end_time =
      log_page oldest_first
        (λ db.
          select
            (λ l.
              l.task_id == task_id
              && where_text equals log_level l.log_level
              && where_from start_time l.timestamp
              && where_until end_time l.timestamp)
            db.task_execution_logs)
        page size

  abbrev pub is_of_command : ℕ → AuditLog → Bool
  is_of_command command_id l = l.entity_id == command_id && equals l.entity_type "command"

  unfoldable pub get_command_execution_history :
      (oldest_first : List AuditLog → List AuditLog) (command_id : ℕ) → Action (List AuditLog)
  get_command_execution_history oldest_first command_id =
      read (λ db. oldest_first (select (is_of_command command_id) db.audit_logs))
