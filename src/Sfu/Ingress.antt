-- ===== src/Sfu/Ingress.antt =====
-- meeting-server/sfu/server/MediaIngress.
pub mod Stun
pub mod Packets
pub mod State
pub mod Routes
pub mod Members
pub mod Sending
pub mod Remb
pub mod Control
pub mod Media
pub mod Rooms
pub mod Cleanup
pub mod Traffic
