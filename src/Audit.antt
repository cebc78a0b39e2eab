-- ===== src/Audit.antt =====
-- AuditService of server/pkg/service/audit_service.go: the logs of actions and of executions. The
-- identifiers of tasks, commands and hosts are numbers, with 0 for the empty text. What
-- encoding/json makes of the details is `marshal`; each call of time.Now is an argument.
pub mod Queries
pub mod Rows
pub mod Trail
pub mod Retention
use devops_manager.Prelude.{
  ℕ, ◌+◌, String, Bool, true, false, not, Option, none, some, Time, List, [], ◌∷◌, ◌++◌, ◌&&◌, ◌==◌,
  leb, ltb, select, length, page_of, if◌then◌else◌,
}

-- A string type: `other` is any text that is none of the constants, the empty one included.
pub data AuditAction : Type 0 where
  task_created task_started task_completed task_failed task_canceled : AuditAction
  command_sent command_started command_result command_timeout command_error : AuditAction
  host_connected host_disconnect : AuditAction
  other : String → AuditAction

unfoldable pub action_text : AuditAction → String
action_text AuditAction.task_created = "task_created"
action_text AuditAction.task_started = "task_started"
action_text AuditAction.task_completed = "task_completed"
action_text AuditAction.task_failed = "task_failed"
action_text AuditAction.task_canceled = "task_canceled"
action_text AuditAction.command_sent = "command_sent"
action_text AuditAction.command_started = "command_started"
action_text AuditAction.command_result = "command_result"
action_text AuditAction.command_timeout = "command_timeout"
action_text AuditAction.command_error = "command_error"
action_text AuditAction.host_connected = "host_connected"
action_text AuditAction.host_disconnect = "host_disconnected"
action_text (AuditAction.other text) = text

pub record AuditLog : Type 0 where
  pub id : ℕ
  pub action : String
  pub entity_id : ℕ
  pub entity_type : String
  pub host_id : ℕ
  pub user_id : String
  pub details : String
  pub timestamp : Time
  pub created_at : Time

pub record TaskExecutionLog : Type 0 where
  pub id : ℕ
  pub task_id : ℕ
  pub log_level : String
  pub message : String
  pub details : String
  pub host_id : ℕ
  pub command_id : ℕ
  pub timestamp : Time
  pub created_at : Time

-- The two tables with the keys that they give next, and which of the statements to come fail.
pub record AuditDb : Type 0 where
  pub audit_logs : List AuditLog
  pub task_execution_logs : List TaskExecutionLog
  pub next_audit_id : ℕ
  pub next_execution_id : ℕ
  pub faults : List Bool

pub data Error : Type 0 where
  marshal_failed db_error : Error

pub data Result {ℓ} (A : Type ℓ) : Type ℓ where
  ok : A → Result A
  err : Error → Result A

abbrev pub Action {ℓ} : Type ℓ → Type ℓ
Action A = AuditDb → Result A × AuditDb

module _ {ℓ} {A : Type ℓ} where
  abbrev pub return : A → Action A
  return a db = (ok a, db)

  abbrev pub and_then {κ} : {B : Type κ} → Result A × AuditDb → (A → Action B) → Result B × AuditDb
  and_then (ok a, db) f = f a db
  and_then (err e, db) f = (err e, db)

  infixl 5 ◌>>=◌
  abbrev pub ◌>>=◌ {κ} : {B : Type κ} → Action A → (A → Action B) → Action B
  ◌>>=◌ m f db = and_then (m db) f

  abbrev pub run_statement : (AuditDb → A × AuditDb) → List Bool → Action A
  run_statement f [] db = (ok (f db).0, (f db).1)
  run_statement f (true ∷ faults) db = (err Error.db_error, record db { faults = faults })
  run_statement f (false ∷ faults) db = (ok (f db).0, record (f db).1 { faults = faults })

  -- One statement; one that fails changes nothing.
  abbrev pub statement : (AuditDb → A × AuditDb) → Action A
  statement f db = run_statement f db.faults db

infixl 5 ◌>>◌
abbrev pub ◌>>◌ {ℓ} : {A : Type ℓ} → Action (Unit {0}) → Action A → Action A
m >> k = m >>= λ _. k

abbrev pub read {ℓ} : {A : Type ℓ} → (AuditDb → A) → Action A
read f = statement (λ db. (f db, db))

-- INSERT, by which the row gets its key.
unfoldable pub create_audit_log : AuditLog → Action (Unit {0})
create_audit_log l = statement (λ db. (
  tt,
  record db {
    audit_logs = db.audit_logs ++ record l { id = db.next_audit_id } ∷ [];
    next_audit_id = db.next_audit_id + 1;
  },
))

unfoldable pub create_execution_log : TaskExecutionLog → Action (Unit {0})
create_execution_log l = statement (λ db. (
  tt,
  record db {
    task_execution_logs = db.task_execution_logs ++ record l { id = db.next_execution_id } ∷ [];
    next_execution_id = db.next_execution_id + 1;
  },
))

-- `if err != nil` after json.Marshal.
abbrev pub marshaled : Option String → (String → Action (Unit {0})) → Action (Unit {0})
marshaled none k db = (err Error.marshal_failed, db)
marshaled (some text) k db = k text db

-- The rows that the calls write; the database gives them their keys.
abbrev pub task_row :
    AuditAction
    → (task_id : ℕ) (user_id : String) → (now created : Time) (details : String) → AuditLog
task_row action task_id user_id now created details = record {
  id = 0;
  action = action_text action;
  entity_id = task_id;
  entity_type = "task";
  host_id = 0;
  user_id = user_id;
  details = details;
  timestamp = now;
  created_at = created;
}

abbrev pub command_row :
    AuditAction
    → (command_id host_id : ℕ) (user_id : String) → (now created : Time) (details : String)
    → AuditLog
command_row action command_id host_id user_id now created details = record {
  id = 0;
  action = action_text action;
  entity_id = command_id;
  entity_type = "command";
  host_id = host_id;
  user_id = user_id;
  details = details;
  timestamp = now;
  created_at = created;
}

abbrev pub host_row :
    AuditAction → (host_id : ℕ) → (now created : Time) (details : String) → AuditLog
host_row action host_id now created details = record {
  id = 0;
  action = action_text action;
  entity_id = host_id;
  entity_type = "host";
  host_id = host_id;
  user_id = "";
  details = details;
  timestamp = now;
  created_at = created;
}

abbrev pub execution_row :
    (task_id : ℕ) (log_level message : String) (host_id command_id : ℕ) (now created : Time)
    (details : String)
    → TaskExecutionLog
execution_row task_id log_level message host_id command_id now created details = record {
  id = 0;
  task_id = task_id;
  log_level = log_level;
  message = message;
  details = details;
  host_id = host_id;
  command_id = command_id;
  timestamp = now;
  created_at = created;
}

module _ {D : Type 0} (marshal : D → Option String) where
  unfoldable pub log_task_action :
      AuditAction → (task_id : ℕ) (user_id : String) → D → (now created : Time) → Action (Unit {0})
  unfolding create_audit_log action_text
  log_task_action action task_id user_id details now created =
      marshaled (marshal details)
        (λ text. create_audit_log (task_row action task_id user_id now created text))

  unfoldable pub log_command_action :
      AuditAction
      → (command_id host_id : ℕ) (user_id : String) → D
      → (now created : Time) → Action (Unit {0})
  unfolding create_audit_log action_text
  log_command_action action command_id host_id user_id details now created =
      marshaled (marshal details)
        (λ text. create_audit_log (command_row action command_id host_id user_id now created text))

  unfoldable pub log_host_action :
      AuditAction → (host_id : ℕ) → D → (now created : Time) → Action (Unit {0})
  unfolding create_audit_log action_text
  log_host_action action host_id details now created =
      marshaled (marshal details)
        (λ text. create_audit_log (host_row action host_id now created text))

  unfoldable pub log_task_execution :
      (task_id : ℕ) (log_level message : String)
      → D
      → (host_id command_id : ℕ) → (now created : Time) → Action (Unit {0})
  unfolding create_execution_log
  log_task_execution task_id log_level message details host_id command_id now created =
      marshaled (marshal details) (λ text.
        create_execution_log
          (execution_row task_id log_level message host_id command_id now created text))

-- `cutoff` is the instant that AddDate gives for the days of retention.
unfoldable pub cleanup_old_audit_logs : (cutoff : Time) → Action (Unit {0})
cleanup_old_audit_logs cutoff = do
  statement (λ db.
      (tt, record db { audit_logs = select (λ l. not (ltb l.timestamp cutoff)) db.audit_logs }))
  statement (λ db. (
    tt,
    record db {
      task_execution_logs = select (λ l. not (ltb l.timestamp cutoff)) db.task_execution_logs;
    },
  ))
