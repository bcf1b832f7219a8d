-- ===== src/Sfu/Transports.antt =====
-- meeting-server/sfu/server/IceLiteSession, ParticipantTransport and TransportRegistry: who may send
-- media from which endpoint. DTLS and SRTP are parameters.
pub mod Ice
pub mod Participant
pub mod Registry
pub mod Selection
