-- ===== src/Sfu/IngressTests.antt =====
-- The SFU on a small example: one meeting, and one user whose transport sends and receives.
use meeting_system.Prelude.{
  ℕ, ◌≡◌, ◌≤◌, ◌<◌, refl, ◌+◌, ◌^◌, true, false, List, [], ◌∷◌, none, some, arith,
}
use meeting_system.Prelude.Assoc.{text_beq}
use meeting_system.Prelude.Int.{pos}
use meeting_system.Sfu.Endpoint.{Endpoint, af_inet, same_endpoint, parse_endpoint, endpoint_key}
use meeting_system.Sfu.Endpoint.RoundTrip.{parse_endpoint-endpoint_key}
use meeting_system.Sfu.Transports.Ice.{IceLiteSession}
use meeting_system.Sfu.Transports.Ice
use meeting_system.Sfu.Transports.Participant.{ParticipantTransport, owns_ssrc, cleared}
use meeting_system.Sfu.Transports.Registry.{
  TransportRegistry, transport_allows_ssrc_from, has_transport_for_ssrc,
  select_endpoint_for_username,
}
use meeting_system.Sfu.Transports.Selection.{
  first_match, HasSender, select-allows, allows-HasSender,
}
use meeting_system.Sfu.RoomManager
use meeting_system.Sfu.RoomManager.Invariant.{IsManager}
use meeting_system.Sfu.Rtp.Parser.{ParsedRtpPacket, RtpHeader}
use meeting_system.Sfu.Fixtures.{platform}
use meeting_system.Sfu.Ingress.State
use meeting_system.Sfu.Ingress.State.{Platform, MediaIngress}
use meeting_system.Sfu.Ingress.Packets.{encode_remb_bitrate}
use meeting_system.Sfu.Ingress.Packets.Bitrate.{bitrate_of, encode_remb_bitrate_bounds}
use meeting_system.Sfu.Ingress.Members.{ServerSide}
use meeting_system.Sfu.Service
use meeting_system.Sfu.Service.{RpcService, dispatch}
use meeting_system.Sfu.Requests.{Messages}
use meeting_system.Sfu.Service.Runs
use meeting_system.Sfu.Service.Runs.{Reach-IsManager}

abbrev client : Endpoint
client = record { sin_family = af_inet; sin_port = 5004; sin_addr = 16777343 }

abbrev session : IceLiteSession
session = Ice.configure (b'c' ∷ []) (b'p' ∷ []) [] (b's' ∷ []) (b'q' ∷ []) []

-- The transport of the SSRC 5.
abbrev transport : IceLiteSession → ParticipantTransport ℕ ℕ
transport ice = record {
  meeting_id = b'm' ∷ [];
  user_id = b'u' ∷ [];
  publish_audio = true;
  publish_video = false;
  client_dtls_fingerprint = [];
  assigned_audio_ssrc = 5;
  assigned_video_ssrc = 0;
  ice_session = ice;
  dtls_transport = none;
  inbound_srtp = 0;
  outbound_srtp = 0;
  srtp_ready = false;
  last_error = cleared;
}

abbrev registry : IceLiteSession → TransportRegistry ℕ ℕ
registry ice = record { transports = (b'm' ∷ b'|' ∷ b'u' ∷ b'|' ∷ b'a' ∷ [], transport ice) ∷ [] }

parse_endpoint-endpoint_key_example :
    parse_endpoint platform.inet_pton (endpoint_key platform.inet_ntop client) ≡ some client
parse_endpoint-endpoint_key_example =
    parse_endpoint-endpoint_key platform.inet_pton platform.inet_ntop client refl
      (λ e. absurd (omega arith)) (omega arith) refl refl refl

matched :
    first_match (registry session).transports (b's' ∷ b':' ∷ b'c' ∷ []) ≡ some (transport session)
unfolding first_match Ice.matches_username Ice.configure text_beq
matched = refl

owned : owns_ssrc (transport session) 5 ≡ true
unfolding owns_ssrc
owned = refl

select-allows_example :
    transport_allows_ssrc_from
      (select_endpoint_for_username (registry session) (b's' ∷ b':' ∷ b'c' ∷ []) client).1
      5
      client
    ≡ true
select-allows_example =
    select-allows (registry session) (b's' ∷ b':' ∷ b'c' ∷ []) client 5 (transport session) refl
      matched owned

-- The session after the client's request.
abbrev selected : IceLiteSession
selected = Ice.select_endpoint session client

selected_owned : has_transport_for_ssrc (registry selected) 5 ≡ true
unfolding has_transport_for_ssrc owns_ssrc
selected_owned = refl

selected_allowed : transport_allows_ssrc_from (registry selected) 5 client ≡ true
unfolding transport_allows_ssrc_from owns_ssrc Ice.select_endpoint same_endpoint
selected_allowed = refl

allows-HasSender_example : HasSender (registry selected).transports 5 client
allows-HasSender_example =
    allows-HasSender (registry selected) 5 client selected_owned selected_allowed

encode_remb_bitrate_bounds_example :
    ((encode_remb_bitrate 1000000).1 < 2 ^ 18)
    × ((encode_remb_bitrate 1000000).0 ≤ 15)
    × (1000000 ≤ bitrate_of (encode_remb_bitrate 1000000))
    × (bitrate_of (encode_remb_bitrate 1000000) < 1000000 + 2 ^ (encode_remb_bitrate 1000000).0)
encode_remb_bitrate_bounds_example = encode_remb_bitrate_bounds 1000000 (omega arith)

-- A media packet of the SSRC 5, and the ingress whose client has not shown itself yet.
abbrev media : List ℕ
media = 0x80 ∷ 111 ∷ 0 ∷ 1 ∷ 0 ∷ 0 ∷ 0 ∷ 9 ∷ 0 ∷ 0 ∷ 0 ∷ 5 ∷ 7 ∷ []

abbrev ingress : MediaIngress ℕ ℕ
ingress = record (State.init RoomManager.empty 5004 512) { transport_registry = registry session }

abbrev media_header : RtpHeader
media_header = record {
  version = 2;
  padding = false;
  extension = false;
  csrc_count = 0;
  marker = false;
  payload_type = 111;
  sequence = 1;
  timestamp = 9;
  ssrc = 5;
  header_size = 12;
}

abbrev parsed_media : ParsedRtpPacket
parsed_media = record { header = media_header; payload = 12; payload_size = 1 }

-- Messages that read one meeting and one user out of any bytes.
abbrev messages : Messages
messages = record {
  parse_create_room = λ bytes. record { meeting_id = b'm' ∷ []; max_publishers = pos 2 };
  parse_destroy_room = λ bytes. record { meeting_id = b'm' ∷ [] };
  parse_add_publisher = λ bytes. record {
    meeting_id = b'm' ∷ [];
    user_id = b'u' ∷ [];
    audio_ssrc = 5;
    video_ssrc = 0;
  };
  parse_remove_publisher = λ bytes. record { meeting_id = b'm' ∷ []; user_id = b'u' ∷ [] };
  parse_setup_transport = λ bytes. record {
    meeting_id = b'm' ∷ [];
    user_id = b'u' ∷ [];
    publish_audio = true;
    publish_video = false;
    client_ice_ufrag = b'c' ∷ [];
    client_ice_pwd = b'p' ∷ [];
    client_dtls_fingerprint = b'f' ∷ [];
    client_candidates = [];
  };
  parse_trickle = λ bytes. record {
    meeting_id = b'm' ∷ [];
    user_id = b'u' ∷ [];
    candidate = [];
    end_of_candidates = true;
  };
  parse_close_transport = λ bytes. record { meeting_id = b'm' ∷ []; user_id = b'u' ∷ [] };
  parse_add_subscriber = λ bytes. record {
    meeting_id = b'm' ∷ [];
    user_id = b'u' ∷ [];
    audio_ssrc = 5;
    video_ssrc = 0;
  };
  parse_remove_subscriber = λ bytes. record { meeting_id = b'm' ∷ []; user_id = b'u' ∷ [] };
  serialize = λ method response. some [];
}

abbrev server : ServerSide ℕ
server = record {
  audio_ssrc = 5;
  video_ssrc = 0;
  ice_ufrag = b's' ∷ [];
  ice_pwd = b'q' ∷ [];
  initialized = true;
  fingerprint = b'f' ∷ [];
  started = some 0;
}

abbrev fresh : RpcService ℕ ℕ
fresh = Service.init (State.init RoomManager.empty 5004 512)

-- The service after a request with that number.
abbrev after : RpcService ℕ ℕ → ℕ → RpcService ℕ ℕ
after s method = (dispatch platform messages server s method (0 ∷ [])).2

-- A room is created, a transport is set up, and the room is destroyed.
Reach-IsManager_example : IsManager (after (after (after fresh 1) 8) 2).media_ingress.rooms
Reach-IsManager_example = Reach-IsManager platform (
    Runs.next
      (Runs.next (Runs.next (Runs.started 5004 512) (Runs.requested messages server 1 (0 ∷ [])))
        (Runs.requested messages server 8 (0 ∷ [])))
      (Runs.requested messages server 2 (0 ∷ [])))
