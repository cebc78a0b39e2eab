-- ===== src/TaskQueue.antt =====
-- server/pkg/service/task_queue_manager.go: the queue of tasks by priority, the tasks that run, the
-- load of each host, and the mutex that guards them.
pub mod Types
pub mod Insert
pub mod Loads
pub mod Guard
pub mod Channels
pub mod Select
pub mod Manager
pub mod Status
pub mod Shutdown
