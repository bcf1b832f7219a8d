-- ===== src/Sfu/Transports/Participant.antt =====
-- meeting-server/sfu/server/ParticipantTransport. `DtlsTransport` and `SrtpSession`, which call OpenSSL
-- and libsrtp, are the parameter `Secure`: each of their operations answers the state after it.
use meeting_system.Prelude.{
  ℕ, Bool, true, false, List, [], Option, none, some, not, ◌&&◌, ◌||◌, ◌==◌, if◌then◌else◌,
}
use meeting_system.Prelude.Assoc.{Text, is_empty}
use meeting_system.Sfu.Transports.Ice.{IceLiteSession}

-- `DtlsTransport::SrtpKeyMaterial`
pub record SrtpKeyMaterial : Type 0 where
  pub local_key : List ℕ
  pub local_salt : List ℕ
  pub remote_key : List ℕ
  pub remote_salt : List ℕ

pub data Direction : Type 0 where
  inbound outbound : Direction

pub record Secure (Dtls Srtp : Type 0) : Type 0 where
  pub handle_datagram : Dtls → List ℕ → Bool × List (List ℕ) × Dtls
  pub is_connected : Dtls → Bool
  pub export_keys : Dtls → ℕ → ℕ → Option SrtpKeyMaterial
  pub dtls_error : Dtls → Text
  pub new_session : Srtp
  pub configure_session : Srtp → List ℕ → List ℕ → Direction → Bool × Srtp
  pub protect_rtp : Srtp → List ℕ → Bool × List ℕ × Srtp
  pub unprotect_rtp : Srtp → List ℕ → Bool × List ℕ × Srtp
  pub protect_rtcp : Srtp → List ℕ → Bool × List ℕ × Srtp
  pub unprotect_rtcp : Srtp → List ℕ → Bool × List ℕ × Srtp
  pub srtp_error : Srtp → Text

-- `lastError_`: empty, one of the class's own messages, or a message of what it calls.
pub data LastError : Type 0 where
  cleared dtls_missing dtls_unconnected exporter_failed srtp_not_ready : LastError
  reported : Text → LastError

pub record ParticipantTransport (Dtls Srtp : Type 0) : Type 0 where
  pub meeting_id : Text
  pub user_id : Text
  pub publish_audio : Bool
  pub publish_video : Bool
  pub client_dtls_fingerprint : Text
  pub assigned_audio_ssrc : ℕ
  pub assigned_video_ssrc : ℕ
  pub ice_session : IceLiteSession
  pub dtls_transport : Option Dtls
  pub inbound_srtp : Srtp
  pub outbound_srtp : Srtp
  pub srtp_ready : Bool
  pub last_error : LastError

module _ {Dtls Srtp : Type 0} where
  unfoldable pub owns_ssrc : ParticipantTransport Dtls Srtp → ℕ → Bool
  owns_ssrc t ssrc =
      not (ssrc == 0) && ((t.assigned_audio_ssrc == ssrc) || (t.assigned_video_ssrc == ssrc))

module _ {Dtls Srtp : Type 0} (secure : Secure Dtls Srtp) where
  unfoldable pub new_transport :
      (meeting_id user_id : Text)
      → (publish_audio publish_video : Bool) → (fingerprint : Text) → (audio_ssrc video_ssrc : ℕ)
      → IceLiteSession
      → Option Dtls
      → ParticipantTransport Dtls Srtp
  new_transport meeting_id user_id publish_audio publish_video fingerprint audio_ssrc video_ssrc ice
        dtls =
      record {
        meeting_id = meeting_id;
        user_id = user_id;
        publish_audio = publish_audio;
        publish_video = publish_video;
        client_dtls_fingerprint = fingerprint;
        assigned_audio_ssrc = audio_ssrc;
        assigned_video_ssrc = video_ssrc;
        ice_session = ice;
        dtls_transport = dtls;
        inbound_srtp = secure.new_session;
        outbound_srtp = secure.new_session;
        srtp_ready = false;
        last_error = cleared;
      }

  -- The sessions with exported keys: the inbound one first, the outbound one only if that succeeds.
  unfoldable pub configure_with :
      ParticipantTransport Dtls Srtp → SrtpKeyMaterial → Bool × ParticipantTransport Dtls Srtp
  configure_with t keying =
      let inner =
        secure.configure_session t.inbound_srtp keying.remote_key keying.remote_salt inbound in
      let outer =
        secure.configure_session t.outbound_srtp keying.local_key keying.local_salt outbound in
      if not inner.0
      then (
        false,
        record t {
          inbound_srtp = inner.1;
          last_error = reported (
              if is_empty (secure.srtp_error inner.1)
              then secure.srtp_error t.outbound_srtp
              else secure.srtp_error inner.1);
        },
      )
      else if not outer.0
      then (
        false,
        record t {
          inbound_srtp = inner.1;
          outbound_srtp = outer.1;
          last_error = reported (
              if is_empty (secure.srtp_error inner.1)
              then secure.srtp_error outer.1
              else secure.srtp_error inner.1);
        },
      )
      else (
        true,
        record t {
          inbound_srtp = inner.1;
          outbound_srtp = outer.1;
          srtp_ready = true;
          last_error = cleared;
        },
      )

  unfoldable pub configure_srtp_sessions :
      ParticipantTransport Dtls Srtp → Dtls → Bool × ParticipantTransport Dtls Srtp
  unfolding configure_with
  configure_srtp_sessions t dtls =
      if not (secure.is_connected dtls)
      then (false, record t { last_error = dtls_unconnected })
      else elim (secure.export_keys dtls 16 14) [
        | none ↦ (false, record t { last_error = exporter_failed })
        | some keying ↦ configure_with t keying
      ]

  abbrev pub after_handshake :
      Bool × ParticipantTransport Dtls Srtp → Bool × ParticipantTransport Dtls Srtp
  after_handshake (false, t) = (false, t)
  after_handshake (true, t) = (true, record t { last_error = cleared })

  -- With the DTLS state after the datagram and the packets that it wants sent.
  unfoldable pub handle_with :
      ParticipantTransport Dtls Srtp → Bool → Dtls → Bool × ParticipantTransport Dtls Srtp
  unfolding configure_srtp_sessions
  handle_with t accepted dtls =
      let t' = record t { dtls_transport = some dtls } in
      if not accepted
      then (false, record t' { last_error = reported (secure.dtls_error dtls) })
      else if secure.is_connected dtls && not t.srtp_ready
      then after_handshake (configure_srtp_sessions t' dtls)
      else (true, record t' { last_error = cleared })

  unfoldable pub handle_dtls_datagram :
      ParticipantTransport Dtls Srtp
      → List ℕ
      → Bool × List (List ℕ) × ParticipantTransport Dtls Srtp
  unfolding handle_with
  handle_dtls_datagram t bytes = elim t.dtls_transport [
    | none ↦ (false, [], record t { last_error = dtls_missing })
    | some dtls ↦
        let answer = secure.handle_datagram dtls bytes in
        let handled = handle_with t answer.0 answer.2 in (handled.0, answer.1, handled.1)
  ]

  abbrev pub Protection : Type 0
  Protection = Srtp → List ℕ → Bool × List ℕ × Srtp

  -- `ProtectRtp` and `ProtectRtcp`: whether it succeeds, the packet after it, and the transport.
  unfoldable pub protect :
      Protection
      → ParticipantTransport Dtls Srtp
      → List ℕ
      → Bool × List ℕ × ParticipantTransport Dtls Srtp
  protect f t packet =
      let answer = f t.outbound_srtp packet in
      if not t.srtp_ready
      then (false, packet, record t { last_error = srtp_not_ready })
      else if not answer.0
      then (
        false,
        answer.1,
        record t { outbound_srtp = answer.2; last_error = reported (secure.srtp_error answer.2) },
      )
      else (true, answer.1, record t { outbound_srtp = answer.2; last_error = cleared })

  -- `UnprotectRtp` and `UnprotectRtcp`.
  unfoldable pub unprotect :
      Protection
      → ParticipantTransport Dtls Srtp
      → List ℕ
      → Bool × List ℕ × ParticipantTransport Dtls Srtp
  unprotect f t packet =
      let answer = f t.inbound_srtp packet in
      if not t.srtp_ready
      then (false, packet, record t { last_error = srtp_not_ready })
      else if not answer.0
      then (
        false,
        answer.1,
        record t { inbound_srtp = answer.2; last_error = reported (secure.srtp_error answer.2) },
      )
      else (true, answer.1, record t { inbound_srtp = answer.2; last_error = cleared })
