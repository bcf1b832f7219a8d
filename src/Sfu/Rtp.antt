-- ===== src/Sfu/Rtp.antt =====
-- meeting-server/sfu/rtp.
pub mod Parser
pub mod NackBuffer
pub mod Router
pub mod Rtcp
