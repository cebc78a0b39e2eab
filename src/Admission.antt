-- ===== src/Admission.antt =====
-- server/pkg/service/host_service.go and api/models/host.go: hosts register, wait in Redis for their
-- admission, and are kept in the table hosts once they are approved. The state is in Effects, the
-- statements on its rows in Rows, and the methods of HostService in Service. Redis holds values as JSON, which is taken to
-- give back what was written; its keys with the prefixes pending_host, host and host_status are three
-- maps. Entries of the last two expire, which is a step of its own.
mod Effects
mod Rows
mod Service
pub mod Spec
mod Tables
pub mod Refines
pub mod Runs
pub mod Stale
pub mod Reports
pub use Effects.*
unfoldable pub use Effects.{call}
unfoldable pub use Rows.*
unfoldable pub use Service.*
