-- ===== src/Packet.antt =====
-- src/protocol/packet: one module for each packet.
pub mod Qos
pub mod Publish
pub mod AckProperties
pub mod PubCommon
pub mod ReturnCodes
pub mod SubAck
pub mod UnsubAck
pub mod ConnAck
pub mod Disconnect
pub mod Connect
pub mod Subscribe
pub mod Unsubscribe
pub mod Ping
