-- ===== src/Client.antt =====
-- plasma-hawking/src.
pub mod Rtp
pub mod SignalProtocol
pub mod RingBuffer
pub mod FrameRingBuffer
pub mod Reconnector
pub mod AppStateMachine
pub mod JitterBuffer
pub mod VideoBwePolicy
pub mod RtcpActions
pub mod NackFeedback
pub mod Stun
pub mod H264Payload
pub mod VideoSession
mod Tests
mod RtcpTests
mod StunTests
mod H264Tests
mod VideoSessionTests
