-- ===== src/Hub.antt =====
-- src/tasks/task_hub: the task that owns the connection.
pub mod Data
pub mod Unacknowledged
pub mod World
pub mod Handlers
pub mod Connection
pub mod Frame
pub mod Pool
pub mod Ownership
pub mod Identifiers
pub mod Delivery
pub mod Once
pub mod Receive
pub mod Reconnect
