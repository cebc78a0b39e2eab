-- ===== src/Models.antt =====
-- api/models: the rows of the tables, their status enumerations and the methods of each type.
pub mod CommandHost
pub mod CommandResult
pub mod Command
pub mod Task
pub mod Counting
pub mod CommandContent
pub mod RoundTrip
