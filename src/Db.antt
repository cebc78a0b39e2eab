-- ===== src/Db.antt =====
-- The tables that server/pkg/service reads and writes, and the effects of a service method.
-- A method is a sequence of SQL statements. Each statement may fail: `faults` says which of those
-- to come do, and a statement that fails changes nothing. `goroutines` holds the messages that were
-- handed to the dispatcher's goroutines; it is no part of the database and is never rolled back.
-- SQL does not say in which order GROUP BY returns its groups: `group_order` stands for it.
-- gorm leaves out soft-deleted rows of tasks and commands where it builds the condition itself,
-- but not inside a sub-select written as text.
mod Effects
mod Statements
pub mod Rollback
pub mod Laws
pub mod Keeps
pub use Effects.*
unfoldable pub use Effects.{statement, rollback, transaction, go_send}
pub use Statements.*
