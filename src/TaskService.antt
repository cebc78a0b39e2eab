-- ===== src/TaskService.antt =====
-- server/pkg/service/task_service.go: the life of a task, of its commands and of its hosts.
pub mod Tally
pub mod Progress
pub mod Lifecycle
pub mod Hosts
pub mod Results
pub mod Failures
pub mod Atomic
pub mod Status
pub mod Queries
pub mod Queueing
