-- ===== src/Client.antt =====
-- src/tasks/task_client: what the user of the library asks for, and what it is told.
pub mod Traces
pub mod Data
pub mod Ids
pub mod Payload
pub mod SubscribeBuilder
pub mod UnsubscribeBuilder
pub mod Interface
pub mod Filters
pub mod Limits
