-- ===== src/Tests.antt =====
-- Small tables and queues, and what the theorems say of them.
pub mod Samples
mod Service
mod Reports
mod Pages
mod Queue
mod Workers
mod Rounds
mod Dispatch
mod Agent
mod Cache
mod Http
mod Monitor
mod Audit
mod Links
mod Status
mod Admission
