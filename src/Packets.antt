-- ===== src/Packets.antt =====
-- src/bridge/net/PacketHooks.cpp: the hooks on packets and on connections.
pub mod Codec
pub mod RoundTrip
pub mod Tables
pub mod Dispatch
pub mod InSync
pub mod Sound
pub mod Life
pub mod Through
pub mod Translated
pub mod Pump
pub mod Gone
