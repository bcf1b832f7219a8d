-- ===== src/Sfu.antt =====
-- meeting-server/sfu.
pub mod Rtp
pub mod Room
pub mod RoomManager
pub mod Rpc
pub mod Bandwidth
pub mod Endpoint
pub mod Transports
pub mod Ingress
pub mod Requests
pub mod Service
mod Fixtures
mod Tests
mod IngressTests
mod CleanupTests
