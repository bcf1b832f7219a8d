-- ===== src/Sfu/Ingress/Media/Rooms.antt =====
-- A datagram leaves the rooms alone, but for the endpoints that a subscriber's STUN request teaches.
use meeting_system.Prelude.{
  ℕ, ◌≡◌, refl, ◌∙◌, List, [], ◌∷◌, Option, none, some, not, ◌&&◌, ◌||◌, ◌==◌, inl, inr, Bool-cases,
  Option-cases, length,
}
use meeting_system.Prelude.Assoc.{Text, is_empty, text_eq}
use meeting_system.Prelude.Assoc.Laws.{Unique-insert}
use meeting_system.Prelude.Bytes.{Read, ok, Read-cases, ok_of_is_ok}
use meeting_system.Sfu.Endpoint.{Endpoint, endpoint_key}
use meeting_system.Sfu.Room
use meeting_system.Sfu.Room.{Room, Subscriber}
use meeting_system.Sfu.Room.Capacity.{IsRoom}
use meeting_system.Sfu.RoomManager.{with_room}
use meeting_system.Sfu.RoomManager.Invariant.{IsManager, Keeps, with_room-IsManager}
use meeting_system.Sfu.Rtp.Router
use meeting_system.Sfu.Rtp.Router.{Call}
use meeting_system.Sfu.Rtp.Parser.{ParsedRtpPacket, parse}
use meeting_system.Sfu.Rtp.Parser.Bounds.{parse-ne-fault}
use meeting_system.Sfu.Rtp.Rtcp.Safety.{parse_compound-Chained}
use meeting_system.Sfu.Transports.Registry.{
  Owner, transport_allows_ssrc_from, srtp_ready_for_ssrc_from, unprotect_rtp_from_endpoint,
  unprotect_rtcp_from_endpoint, has_selected_transport_for_endpoint, has_transport_for_ssrc,
  protect_rtp_to_endpoint,
}
use meeting_system.Sfu.Ingress.Stun.{
  is_stun_packet, looks_like_dtls_record, looks_like_rtcp, parse_stun_username,
}
use meeting_system.Sfu.Ingress.Stun.Safety.{parse_stun_username-ok}
use meeting_system.Sfu.Ingress.State.{Platform, MediaIngress, resolve_publisher, endpoint_of}
use meeting_system.Sfu.Ingress.Rooms.{refresh_room_routes-rooms}
use meeting_system.Sfu.Ingress.Sending.{Outcome, seal, sent_to}
use meeting_system.Sfu.Ingress.Control.Rooms.{sent_to-seal-rooms, handle_control_packet-rooms}
use meeting_system.Sfu.Ingress.Media.{
  set_endpoints, change_subscriber, learn_endpoint, stun_answer, handle_stun_packet,
  handle_dtls_packet, deliver, observe, forward_media, if_parsed, handle_protected, handle_media,
  handle_control_or_media, handle_rtcp, handle_packet, total_size,
}

change_subscriber-IsRoom :
    (f : Subscriber → Subscriber) (user_id : Text) (room : Room)
    → IsRoom room
    → IsRoom (change_subscriber f user_id room).1 × Keeps room (change_subscriber f user_id room).1
unfolding Keeps
change_subscriber-IsRoom f user_id room v = elim (Option-cases (Room.get_subscriber room user_id)) [
  | inl e ↦ rw (e, change_subscriber) (v, (refl, refl))
  | inr (s, e) ↦
      rw (e, change_subscriber)
        (
          record {
            publishers = v.publishers;
            subscribers = Unique-insert user_id (some (f s)) room.subscribers v.subscribers;
            named = v.named;
            capacity = v.capacity;
          },
          (refl, refl),
        )
]

module _ {Dtls Srtp : Type 0} (p : Platform Dtls Srtp) where
  learn_endpoint-IsManager :
      (m : MediaIngress Dtls Srtp) (owner : Owner) (from : Endpoint)
      → IsManager m.rooms
      → IsManager (learn_endpoint p m owner from).rooms
  unfolding learn_endpoint
  learn_endpoint-IsManager m (meeting_id, user_id, kind) from v =
      let text = endpoint_key p.inet_ntop from in
      let f = change_subscriber (set_endpoints kind text) user_id in
      let changed = with_room m.rooms meeting_id f in
      let v' =
        with_room-IsManager m.rooms meeting_id f
          (change_subscriber-IsRoom (set_endpoints kind text) user_id) v in
      elim (Bool-cases (is_empty meeting_id || is_empty text)) [
        | inl nothing ↦ rw nothing v
        | inr named ↦ rw named (elim (Bool-cases changed.0) [
          | inr absent ↦ rw absent v
          | inl learned ↦
              rw learned
                (rw (refresh_room_routes-rooms p (record m { rooms = changed.1 }) meeting_id) v')
        ])
      ]

  stun_answer-IsManager :
      (m : MediaIngress Dtls Srtp) (bytes : List ℕ) (from : Endpoint) (owner : Option Owner)
      → IsManager m.rooms
      → IsManager (stun_answer p m bytes from owner).2.rooms
  stun_answer-IsManager m bytes from none v = v
  stun_answer-IsManager m bytes from (some owner) v = learn_endpoint-IsManager m owner from v

  deliver-rooms :
      (m : MediaIngress Dtls Srtp) (calls : List Call) → (deliver p m calls).1.rooms ≡ m.rooms
  unfolding deliver
  deliver-rooms m [] = refl
  deliver-rooms m ((callback, packet) ∷ rest) =
      let convert = protect_rtp_to_endpoint p.secure in
      deliver-rooms
        (sent_to (endpoint_of callback) (seal convert m (endpoint_of callback) packet)).2 rest
      ∙ sent_to-seal-rooms convert m (endpoint_of callback) packet

  forward_media-rooms :
      (m : MediaIngress Dtls Srtp) (bytes : List ℕ) (parsed : ParsedRtpPacket) (from : Endpoint)
      → (forward_media p m bytes parsed from).2.rooms ≡ m.rooms
  unfolding forward_media observe
  forward_media-rooms m bytes parsed from =
      elim (Option-cases (resolve_publisher m parsed.header.ssrc)) [
        | inl e ↦ rw (e, forward_media) refl
        | inr ((publisher, user_id, meeting_id), e) ↦
            let observed = observe p m parsed (length bytes) from user_id meeting_id in
            let routed = Router.route observed.router bytes in
            rw (e, forward_media) (deliver-rooms (record observed { router = routed.2 }) routed.1)
      ]

  -- The handling ends, with the rooms as they were.
  abbrev Leaves : MediaIngress Dtls Srtp → Read (Outcome Dtls Srtp) → Type 0
  Leaves m answer = (o : Outcome Dtls Srtp) × (answer ≡ ok o) × (o.2.rooms ≡ m.rooms)

  if_parsed-Leaves :
      (m : MediaIngress Dtls Srtp) (bytes : List ℕ) (f : ParsedRtpPacket → Read (Outcome Dtls Srtp))
      → ((parsed : ParsedRtpPacket) → Leaves m (f parsed))
      → Leaves m (if_parsed p m (parse bytes) f)
  if_parsed-Leaves m bytes f h = elim (Read-cases (parse bytes)) [
    | inl (parsed, e) ↦ rw e (h parsed)
    | inr (inl e) ↦ rw e (_, refl, refl)
    | inr (inr e) ↦ absurd (parse-ne-fault bytes e)
  ]

  handle_protected-Leaves :
      (m : MediaIngress Dtls Srtp) (bytes : List ℕ) (parsed : ParsedRtpPacket) (from : Endpoint)
      → Leaves m (handle_protected p m bytes parsed from)
  unfolding handle_protected
  handle_protected-Leaves m bytes parsed from =
      elim (Bool-cases (srtp_ready_for_ssrc_from m.transport_registry parsed.header.ssrc from)) [
        | inr unready ↦ rw unready (_, refl, refl)
        | inl ready ↦
            rw ready
              (elim (Bool-cases
                (unprotect_rtp_from_endpoint p.secure m.transport_registry from bytes).0.0) [
                  | inr bad ↦ rw bad (_, refl, refl)
                  | inl good ↦ rw good (
                      if_parsed-Leaves _ _ _
                        (λ inner. (_, refl, forward_media-rooms _ _ inner from)))
                ])
      ]

  handle_media-Leaves :
      (m : MediaIngress Dtls Srtp) (bytes : List ℕ) (from : Endpoint)
      → Leaves m (handle_media p m bytes from)
  unfolding handle_media
  handle_media-Leaves m bytes from = if_parsed-Leaves m bytes _ (λ parsed.
      elim (Bool-cases (transport_allows_ssrc_from m.transport_registry parsed.header.ssrc from)) [
        | inr refused ↦ rw refused (_, refl, refl)
        | inl allowed ↦
            rw allowed
              (elim (Bool-cases (has_transport_for_ssrc m.transport_registry parsed.header.ssrc)) [
                | inl secured ↦ rw secured (handle_protected-Leaves m bytes parsed from)
                | inr clear ↦ rw clear (_, refl, forward_media-rooms m bytes parsed from)
              ])
      ])

  handle_control_or_media-Leaves :
      (m : MediaIngress Dtls Srtp) (control bytes : List ℕ) (from : Endpoint) (now : ℕ)
      → Leaves m (handle_control_or_media p m control bytes from now)
  unfolding handle_control_or_media
  handle_control_or_media-Leaves m control bytes from now =
      let (packets, e, _) = parse_compound-Chained control in
      let (outcome, handled, kept) = handle_control_packet-rooms p m control from now in
      elim (Bool-cases (not (is_empty packets) && (total_size p packets == length control))) [
        | inl rtcp ↦ rw (e, rtcp, handled) (_, refl, kept)
        | inr media ↦ rw (e, media) (handle_media-Leaves m bytes from)
      ]

  handle_rtcp-Leaves :
      (m : MediaIngress Dtls Srtp) (bytes : List ℕ) (from : Endpoint) (now : ℕ)
      → Leaves m (handle_rtcp p m bytes from now)
  unfolding handle_rtcp
  handle_rtcp-Leaves m bytes from now =
      elim (Bool-cases (has_selected_transport_for_endpoint m.transport_registry from)) [
        | inr clear ↦ rw clear (handle_control_or_media-Leaves m bytes bytes from now)
        | inl secured ↦
            rw secured
              (elim (Bool-cases
                (unprotect_rtcp_from_endpoint p.secure m.transport_registry from bytes).0.0) [
                  | inr bad ↦ rw bad (_, refl, refl)
                  | inl good ↦ rw good (handle_control_or_media-Leaves _ _ bytes from now)
                ])
      ]

  -- The handling ends, with the rooms in order.
  abbrev pub Handles : Read (Outcome Dtls Srtp) → Type 0
  Handles answer = (o : Outcome Dtls Srtp) × (answer ≡ ok o) × IsManager o.2.rooms

  Leaves-Handles :
      (m : MediaIngress Dtls Srtp) (answer : Read (Outcome Dtls Srtp))
      → Leaves m answer
      → IsManager m.rooms
      → Handles answer
  Leaves-Handles m answer (o, e, kept) v = (o, e, rw kept v)

  handle_stun_packet-Handles :
      (m : MediaIngress Dtls Srtp) (bytes : List ℕ) (from : Endpoint)
      → IsManager m.rooms
      → Handles (handle_stun_packet p m bytes from)
  unfolding handle_stun_packet
  handle_stun_packet-Handles m bytes from v =
      let (username, e) = ok_of_is_ok (parse_stun_username bytes) (parse_stun_username-ok bytes) in
      elim (Bool-cases (is_empty username)) [
        | inl unnamed ↦ rw (e, unnamed) (_, refl, v)
        | inr named ↦ rw (e, named) (_, refl, stun_answer-IsManager _ bytes from _ v)
      ]

  -- Whatever datagram arrives from whatever endpoint: its handling ends, and keeps the rooms in order.
  pub handle_packet-IsManager :
      (m : MediaIngress Dtls Srtp) (bytes : List ℕ) (from : Endpoint) (now : ℕ)
      → IsManager m.rooms
      → Handles (handle_packet p m bytes from now)
  unfolding handle_packet handle_dtls_packet
  handle_packet-IsManager m bytes from now v = elim (Bool-cases (is_stun_packet bytes)) [
    | inl stun ↦ rw stun (handle_stun_packet-Handles m bytes from v)
    | inr e ↦ rw e (elim (Bool-cases (looks_like_dtls_record bytes)) [
      | inl dtls ↦ rw dtls (_, refl, v)
      | inr e' ↦ rw e' (elim (Bool-cases (looks_like_rtcp bytes)) [
        | inl rtcp ↦ rw rtcp (Leaves-Handles m _ (handle_rtcp-Leaves m bytes from now) v)
        | inr media ↦ rw media (Leaves-Handles m _ (handle_media-Leaves m bytes from) v)
      ])
    ])
  ]
