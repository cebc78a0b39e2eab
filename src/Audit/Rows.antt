-- ===== src/Audit/Rows.antt =====
-- The rows of the audit log that are about one command, and what a row that is added, or a clean-up,
-- makes of them.
use mathlib.Core.List.{append-nil}
use devops_manager.Prelude.{
  ℕ, ◌≡◌, refl, String, Bool, true, false, not, Option, none, some, Time, List, [], ◌∷◌, ◌++◌, ◌&&◌,
  ◌==◌, ltb, map, select, if◌then◌else◌, Bool-cases, inl, inr,
}
use devops_manager.Audit.Queries.{is_of_command}
use devops_manager.Audit.{
  AuditAction, AuditLog, AuditDb, create_audit_log, create_execution_log, marshaled, command_row,
  TaskExecutionLog,
}

-- What a row of the log says of the command.
pub record Recorded : Type 0 where
  pub action : String
  pub host_id : ℕ
  pub user_id : String
  pub details : String
  pub timestamp : Time

abbrev pub recorded : AuditLog → Recorded
recorded l = record {
  action = l.action;
  host_id = l.host_id;
  user_id = l.user_id;
  details = l.details;
  timestamp = l.timestamp;
}

abbrev pub logs_of : (equals : (column value : String) → Bool) → ℕ → AuditDb → List Recorded
logs_of equals id db = map recorded (select (is_of_command equals id) db.audit_logs)

module _ (equals : (column value : String) → Bool) (id : ℕ) where
  selected-append :
      (xs : List AuditLog) (l : AuditLog)
      → map recorded (select (is_of_command equals id) (xs ++ l ∷ []))
        ≡ map recorded (select (is_of_command equals id) xs)
          ++ (if is_of_command equals id l then recorded l ∷ [] else [])
  selected-append [] l = elim (Bool-cases (is_of_command equals id l)) [
    | inl p ↦ rw p
    | inr p ↦ rw p
  ]
  selected-append (x ∷ xs) l = elim (Bool-cases (is_of_command equals id x)) [
    | inl p ↦ rw (p, selected-append xs l)
    | inr p ↦ rw (p, selected-append xs l)
  ]

  pub selected-young :
      (cutoff : Time) (xs : List AuditLog)
      → map recorded
          (select (is_of_command equals id) (select (λ l. not (ltb l.timestamp cutoff)) xs))
        ≡ select
            (λ r. not (ltb r.timestamp cutoff))
            (map recorded (select (is_of_command equals id) xs))
  selected-young cutoff [] = refl
  selected-young cutoff (x ∷ xs) = elim (Bool-cases (is_of_command equals id x)) [
    | inl p ↦ elim (Bool-cases (ltb x.timestamp cutoff)) [
      | inl q ↦ rw (p, q, selected-young cutoff xs)
      | inr q ↦ rw (q, p, q, selected-young cutoff xs)
    ]
    | inr p ↦ elim (Bool-cases (ltb x.timestamp cutoff)) [
      | inl q ↦ rw (p, q, selected-young cutoff xs)
      | inr q ↦ rw (q, p, selected-young cutoff xs)
    ]
  ]

  -- A call that logs an action adds its row, where the details can be marshaled.
  pub logged :
      (details : Option String) (row : String → AuditLog) (db : AuditDb)
      → db.faults ≡ []
      → ((marshaled details (λ text. create_audit_log (row text)) db).1.faults ≡ [])
        × (logs_of equals id (marshaled details (λ text. create_audit_log (row text)) db).1
            ≡ elim details [
              | none ↦ logs_of equals id db
              | some text ↦
                  logs_of equals id db
                  ++ (if is_of_command equals id (row text) then recorded (row text) ∷ [] else [])
            ])
  unfolding create_audit_log
  logged none row db quiet = (quiet, refl)
  logged (some text) row db quiet =
      rw quiet (refl, selected-append db.audit_logs (record (row text) { id = db.next_audit_id }))

  pub execution_logged :
      (details : Option String) (row : String → TaskExecutionLog) (db : AuditDb)
      → db.faults ≡ []
      → ((marshaled details (λ text. create_execution_log (row text)) db).1.faults ≡ [])
        × ((marshaled details (λ text. create_execution_log (row text)) db).1.audit_logs
            ≡ db.audit_logs)
  unfolding create_execution_log
  execution_logged none row db quiet = (quiet, refl)
  execution_logged (some text) row db quiet = rw quiet (refl, refl)

  -- A row about a task or a host is no row of the command.
  pub others :
      (details : Option String) (rs : List Recorded) (row : String → AuditLog)
      → ((text : String) → is_of_command equals id (row text) ≡ false)
      → elim details as (λ x. List Recorded) [
        | none ↦ rs
        | some text ↦
            rs ++ (if is_of_command equals id (row text) then recorded (row text) ∷ [] else [])
      ]
        ≡ rs
  others none rs row h = refl
  others (some text) rs row h = rw (h text) (append-nil rs)

  pub differs :
      (i : ℕ) (kind : String)
      → equals kind "command" ≡ false
      → (i == id && equals kind "command") ≡ false
  differs i kind h = elim (Bool-cases (i == id)) [ inl p ↦ rw (p, h) | inr p ↦ rw p ]

  module _ (command_is : equals "command" "command" ≡ true) where
    pub added :
        (details : Option String) (rs : List Recorded) (a : AuditAction) (i h : ℕ) (u : String)
        (now created : Time) {logs : List Recorded}
        → logs ≡ rs
        → elim details as (λ x. List Recorded) [
          | none ↦ logs
          | some text ↦
              logs
              ++ (if is_of_command equals id (command_row a i h u now created text)
                  then recorded (command_row a i h u now created text) ∷ []
                  else [])
        ]
          ≡ elim details as (λ x. List Recorded) [
            | none ↦ rs
            | some text ↦
                (if i == id then rs ++ recorded (command_row a i h u now created text) ∷ [] else rs)
          ]
    added none rs a i h u now created e = e
    added (some text) rs a i h u now created e = elim (Bool-cases (i == id)) [
      | inl p ↦ rw (p, command_is, e)
      | inr p ↦ rw (p, e) (append-nil rs)
    ]
