-- ===== src/Sfu/Fixtures.antt =====
-- A platform for the examples of the SFU.
use meeting_system.Prelude.{true, [], ◌∷◌, none, some, ℕ}
use meeting_system.Sfu.Transports.Participant.{Secure}
use meeting_system.Sfu.Ingress.State.{Platform}

-- Keys and ciphers that leave everything as it is.
abbrev pub secure : Secure ℕ ℕ
secure = record {
  handle_datagram = λ dtls bytes. (true, [], dtls);
  is_connected = λ dtls. true;
  export_keys = λ dtls key salt. none;
  dtls_error = λ dtls. [];
  new_session = 0;
  configure_session = λ srtp key salt direction. (true, srtp);
  protect_rtp = λ srtp packet. (true, packet, srtp);
  unprotect_rtp = λ srtp packet. (true, packet, srtp);
  protect_rtcp = λ srtp packet. (true, packet, srtp);
  unprotect_rtcp = λ srtp packet. (true, packet, srtp);
  srtp_error = λ srtp. [];
}

-- A platform that knows one address.
abbrev pub platform : Platform ℕ ℕ
platform = record {
  secure = secure;
  inet_pton = λ text. some 16777343;
  inet_ntop = λ address. b'1' ∷ b'2' ∷ b'7' ∷ b'.' ∷ b'0' ∷ b'.' ∷ b'0' ∷ b'.' ∷ b'1' ∷ [];
}
