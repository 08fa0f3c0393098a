-- ===== src/Tests.antt =====
-- Concrete runs: every theorem of the development's results, applied to bytes, packets and messages as they
-- occur.
mod Samples
mod Wire
mod Stream
mod NetworkTask
mod Tasks
mod Client
mod Hub
