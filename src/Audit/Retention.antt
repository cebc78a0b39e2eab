-- ===== src/Audit/Retention.antt =====
-- What a clean-up of the logs leaves, also where one of its statements fails.
use devops_manager.Prelude.{
  ℕ, zero, suc, ◌≡◌, refl, Bool, true, false, not, Time, List, [], ◌∷◌, ◌||◌, ltb, select,
  if◌then◌else◌,
}
use devops_manager.Audit.{AuditDb, Error, Result, ok, err, cleanup_old_audit_logs}

-- Whether the statement of that number, from 0, fails.
abbrev pub fails : ℕ → List Bool → Bool
fails n [] = false
fails zero (b ∷ bs) = b
fails (suc n) (b ∷ bs) = fails n bs

abbrev pub young_only {ℓ} : {A : Type ℓ} → (A → Time) → Time → List A → List A
young_only timestamp cutoff xs = select (λ x. not (ltb (timestamp x) cutoff)) xs

abbrev pub CleansAs : Time → AuditDb → List Bool → Result (Unit {0}) × AuditDb → Type 0
CleansAs cutoff db faults r =
    (r.0 ≡ (if fails 0 faults || fails 1 faults then err Error.db_error else ok tt))
    × (r.1.audit_logs ≡ (
        if fails 0 faults
        then db.audit_logs
        else young_only (λ l. l.timestamp) cutoff db.audit_logs))
    × (r.1.task_execution_logs ≡ (
        if fails 0 faults || fails 1 faults
        then db.task_execution_logs
        else young_only (λ l. l.timestamp) cutoff db.task_execution_logs))

by_faults :
    (cutoff : Time) (db : AuditDb) (faults : List Bool)
    → db.faults ≡ faults
    → CleansAs cutoff db faults (cleanup_old_audit_logs cutoff db)
unfolding cleanup_old_audit_logs
by_faults cutoff db [] h = rw h (refl, refl, refl)
by_faults cutoff db (true ∷ faults) h = rw h (refl, refl, refl)
by_faults cutoff db (false ∷ []) h = rw h (refl, refl, refl)
by_faults cutoff db (false ∷ true ∷ faults) h = rw h (refl, refl, refl)
by_faults cutoff db (false ∷ false ∷ faults) h = rw h (refl, refl, refl)

-- CleanupOldAuditLogs succeeds exactly where neither of its two statements fails, and then the two
-- tables keep the rows that are not older than the cutoff. Where the first fails, both tables stay as
-- they are; where the second fails, the old rows of the audit log are gone although it returns an
-- error.
pub cleanup_old_audit_logs-CleansAs :
    (cutoff : Time) (db : AuditDb) → CleansAs cutoff db db.faults (cleanup_old_audit_logs cutoff db)
cleanup_old_audit_logs-CleansAs cutoff db = by_faults cutoff db db.faults refl
