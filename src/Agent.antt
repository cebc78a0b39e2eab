-- ===== src/Agent.antt =====
-- The agent: its task service, and the replies that it sends.
pub mod Tasks
pub mod Client
pub mod Connection
pub mod Hosts
pub mod Replies
