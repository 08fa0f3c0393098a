-- ===== src/NetworkTask.antt =====
-- src/tasks/task_network: the task that owns the connection, from the first bytes to the last.
pub mod Data
pub mod World
pub mod Receive
pub mod Connection
pub mod Drains
pub mod Cuts
pub mod Rounds
pub mod Termination
pub mod Ends
pub mod Starts
pub mod Refinement
pub mod Chunks
pub mod Publishes
pub mod Handshake
pub mod Session
