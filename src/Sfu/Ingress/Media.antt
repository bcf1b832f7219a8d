-- ===== src/Sfu/Ingress/Media.antt =====
-- meeting-server/sfu/server/MediaIngress: what it does with a datagram.
pub mod Safety
pub mod Rooms
use meeting_system.Prelude.{
  ℕ, zero, suc, ◌+◌, ◌*◌, ◌/◌, ◌%◌, ◌^◌, Bool, true, false, List, [], ◌∷◌, ◌++◌, Option, none, some,
  not, ◌&&◌, ◌||◌, ltb, leb, ◌==◌, if◌then◌else◌, length,
}
use meeting_system.Prelude.Assoc.{Text, text_beq, is_empty, nat_eq, text_eq, lookup, insert, erase}
use meeting_system.Prelude.Bytes.{Read, ok, reject, fault, ◌>>=◌}
use meeting_system.Sfu.Endpoint.{Endpoint, endpoint_key}
use meeting_system.Sfu.Room
use meeting_system.Sfu.Room.{Room, Subscriber}
use meeting_system.Sfu.RoomManager.{get_room, with_room}
use meeting_system.Sfu.Rtp.Parser.{ParsedRtpPacket, parse}
use meeting_system.Sfu.Rtp.Router
use meeting_system.Sfu.Rtp.Router.{Call}
use meeting_system.Sfu.Rtp.Rtcp.{RtcpPacketSummary, parse_compound}
use meeting_system.Sfu.Transports.Registry.{
  has_selected_transport_for_endpoint, has_transport_for_ssrc, transport_allows_ssrc_from,
  srtp_ready_for_ssrc_from, unprotect_rtp_from_endpoint, unprotect_rtcp_from_endpoint,
  protect_rtp_to_endpoint, handle_dtls_from_endpoint, select_endpoint_for_username, Owner,
}
use meeting_system.Sfu.Ingress.Stun.{
  is_stun_packet, looks_like_dtls_record, looks_like_rtcp, parse_stun_username,
  build_stun_binding_response,
}
use meeting_system.Sfu.Ingress.State.{
  Platform, MediaIngress, resolve_publisher, publisher_traffic_key, endpoint_of,
}
use meeting_system.Sfu.Ingress.Routes.{refresh_room_routes}
use meeting_system.Sfu.Ingress.Sending.{Sent, Outcome, seal, sent_to}
use meeting_system.Sfu.Ingress.Control.{traffic_of, handle_control_packet}

-- The media endpoints of a subscriber, by the kind of the transport.
unfoldable pub set_endpoints : Text → Text → Subscriber → Subscriber
set_endpoints kind text s =
    if text_beq kind (b'a' ∷ b'u' ∷ b'd' ∷ b'i' ∷ b'o' ∷ [])
    then record s { audio_endpoint = text }
    else if text_beq kind (b'v' ∷ b'i' ∷ b'd' ∷ b'e' ∷ b'o' ∷ [])
    then record s { video_endpoint = text }
    else record s { endpoint = text; audio_endpoint = text; video_endpoint = text }

-- A change to the subscriber that the room's map points to.
abbrev pub change_subscriber : (Subscriber → Subscriber) → Text → Room → Bool × Room
change_subscriber f user_id room = elim (Room.get_subscriber room user_id) [
  | none ↦ (false, room)
  | some s ↦ (true, record room { subscribers = insert user_id (some (f s)) room.subscribers })
]

module _ {Dtls Srtp : Type 0} (p : Platform Dtls Srtp) where
  -- The subscriber of the transport that was selected learns its endpoint.
  unfoldable pub learn_endpoint : MediaIngress Dtls Srtp → Owner → Endpoint → MediaIngress Dtls Srtp
  learn_endpoint m (meeting_id, user_id, kind) from =
      let text = endpoint_key p.inet_ntop from in
      let changed =
        with_room m.rooms meeting_id (change_subscriber (set_endpoints kind text) user_id) in
      if is_empty meeting_id || is_empty text
      then m
      else if not changed.0
      then m
      else refresh_room_routes p (record m { rooms = changed.1 }) meeting_id

  abbrev pub stun_answer :
      MediaIngress Dtls Srtp → List ℕ → Endpoint → Option Owner → Outcome Dtls Srtp
  stun_answer m bytes from none = (false, [], m)
  stun_answer m bytes from (some owner) =
      let response = build_stun_binding_response bytes from in
      (true, if is_empty response then [] else (from, response) ∷ [], learn_endpoint m owner from)

  unfoldable pub handle_stun_packet :
      MediaIngress Dtls Srtp → List ℕ → Endpoint → Read (Outcome Dtls Srtp)
  handle_stun_packet m bytes from = do
    username ← parse_stun_username bytes
    let selected = select_endpoint_for_username m.transport_registry username from
    if is_empty username
        then ok (false, [], m)
        else ok (stun_answer (record m { transport_registry = selected.1 }) bytes from selected.0)

  -- The packets that are not empty.
  unfoldable pub sends_to : Endpoint → List (List ℕ) → List Sent
  sends_to endpoint [] = []
  sends_to endpoint (packet ∷ rest) =
      let later = sends_to endpoint rest in
      if is_empty packet then later else (endpoint, packet) ∷ later

  unfoldable pub handle_dtls_packet : MediaIngress Dtls Srtp → List ℕ → Endpoint → Outcome Dtls Srtp
  unfolding sends_to
  handle_dtls_packet m bytes from =
      let answer = handle_dtls_from_endpoint p.secure m.transport_registry from bytes in
      (
        answer.0.0,
        if answer.0.0 then sends_to from answer.0.1 else [],
        record m { transport_registry = answer.1 },
      )

  -- The callbacks' calls: each sends the packet, protected if its endpoint asks for it.
  unfoldable pub deliver : MediaIngress Dtls Srtp → List Call → List Sent × MediaIngress Dtls Srtp
  deliver m [] = ([], m)
  deliver m ((callback, packet) ∷ rest) =
      let (_, sent, m') =
        sent_to (endpoint_of callback)
          (seal (protect_rtp_to_endpoint p.secure) m (endpoint_of callback) packet) in
      let later = deliver m' rest in (sent ++ later.0, later.1)

  -- What is noted of a media packet of a known publisher.
  unfoldable pub observe :
      MediaIngress Dtls Srtp
      → ParsedRtpPacket
      → ℕ
      → Endpoint
      → (user_id meeting_id : Text) → MediaIngress Dtls Srtp
  observe m parsed size from user_id meeting_id =
      let counters = traffic_of m meeting_id user_id in
      record m {
        publisher_endpoints = insert parsed.header.ssrc from m.publisher_endpoints;
        last_observation = record {
          meeting_id = meeting_id;
          user_id = user_id;
          ssrc = parsed.header.ssrc;
          sequence = parsed.header.sequence;
          timestamp = parsed.header.timestamp;
          bytes = size;
        };
        publisher_traffic =
            insert (publisher_traffic_key meeting_id user_id)
              (record counters {
                meeting_id = meeting_id;
                user_id = user_id;
                packet_count = (counters.packet_count + 1) % 2 ^ 64;
                byte_count = (counters.byte_count + size) % 2 ^ 64;
              })
              m.publisher_traffic;
        packet_count = (m.packet_count + 1) % 2 ^ 64;
      }

  -- A media packet in the clear.
  unfoldable pub forward_media :
      MediaIngress Dtls Srtp → List ℕ → ParsedRtpPacket → Endpoint → Outcome Dtls Srtp
  unfolding deliver observe
  forward_media m bytes parsed from = elim (resolve_publisher m parsed.header.ssrc) [
    | none ↦ (false, [], m)
    | some (publisher, user_id, meeting_id) ↦
        let observed = observe m parsed (length bytes) from user_id meeting_id in
        let routed = Router.route observed.router bytes in
        let delivered = deliver (record observed { router = routed.2 }) routed.1 in
        (routed.0, delivered.0, delivered.1)
  ]

  -- A parser's refusal is the answer `false`.
  abbrev pub if_parsed :
      MediaIngress Dtls Srtp
      → Read ParsedRtpPacket
      → (ParsedRtpPacket → Read (Outcome Dtls Srtp))
      → Read (Outcome Dtls Srtp)
  if_parsed m (ok parsed) f = f parsed
  if_parsed m reject f = ok (false, [], m)
  if_parsed m fault f = fault

  -- A media packet of a transport: SRTP is taken off, and what is inside is parsed again.
  unfoldable pub handle_protected :
      MediaIngress Dtls Srtp → List ℕ → ParsedRtpPacket → Endpoint → Read (Outcome Dtls Srtp)
  handle_protected m bytes parsed from =
      let answer = unprotect_rtp_from_endpoint p.secure m.transport_registry from bytes in
      let m' = record m { transport_registry = answer.1 } in
      if not (srtp_ready_for_ssrc_from m.transport_registry parsed.header.ssrc from)
      then ok (false, [], m)
      else if not answer.0.0
      then ok (false, [], m')
      else if_parsed m' (parse answer.0.1) (λ inner. ok (forward_media m' answer.0.1 inner from))

  unfoldable pub handle_media :
      MediaIngress Dtls Srtp → List ℕ → Endpoint → Read (Outcome Dtls Srtp)
  unfolding handle_protected
  handle_media m bytes from = if_parsed m (parse bytes) λ parsed.
      if not (transport_allows_ssrc_from m.transport_registry parsed.header.ssrc from)
      then ok (false, [], m)
      else if has_transport_for_ssrc m.transport_registry parsed.header.ssrc
      then handle_protected m bytes parsed from
      else ok (forward_media m bytes parsed from)

  abbrev pub total_size : List RtcpPacketSummary → ℕ
  total_size [] = 0
  total_size (packet ∷ rest) = packet.packet_size + total_size rest

  -- RTCP in the clear, if its packets fill the datagram; else the datagram as it came is taken for RTP.
  unfoldable pub handle_control_or_media :
      MediaIngress Dtls Srtp → (control bytes : List ℕ) → Endpoint → ℕ → Read (Outcome Dtls Srtp)
  handle_control_or_media m control bytes from now = do
    packets ← parse_compound control
    if not (is_empty packets) && (total_size packets == length control)
        then (handle_control_packet p m control from now >>= λ outcome.
            ok (true, outcome.1, outcome.2))
        else handle_media m bytes from

  unfoldable pub handle_rtcp :
      MediaIngress Dtls Srtp → List ℕ → Endpoint → ℕ → Read (Outcome Dtls Srtp)
  handle_rtcp m bytes from now =
      let answer = unprotect_rtcp_from_endpoint p.secure m.transport_registry from bytes in
      let m' = record m { transport_registry = answer.1 } in
      if has_selected_transport_for_endpoint m.transport_registry from
      then if not answer.0.0
        then ok (false, [], m')
        else handle_control_or_media m' answer.0.1 bytes from now
      else handle_control_or_media m bytes bytes from now

  unfoldable pub handle_packet :
      MediaIngress Dtls Srtp → List ℕ → Endpoint → ℕ → Read (Outcome Dtls Srtp)
  handle_packet m bytes from now =
      if is_stun_packet bytes
      then handle_stun_packet m bytes from
      else if looks_like_dtls_record bytes
      then ok (handle_dtls_packet m bytes from)
      else if looks_like_rtcp bytes
      then handle_rtcp m bytes from now
      else handle_media m bytes from
