-- ===== src/Tasks.antt =====
-- src/tasks: the tasks that send one request each, and wait until it is acknowledged.
pub mod World
pub mod Complete
pub mod Publish
pub mod Subscribe
pub mod Ping
pub mod Answered
pub mod ToHub
pub mod Offers
pub mod Totality
pub mod PingWays
pub mod PingEnds
pub mod AtLeastOnce
pub mod Subscribed
pub mod ExactlyOnce
pub mod Incoming
