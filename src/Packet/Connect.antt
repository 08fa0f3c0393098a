-- ===== src/Packet/Connect.antt =====
-- src/protocol/packet/connect.rs
pub mod Login
pub mod WillProperties
pub mod Will
pub mod Properties
pub mod Write
