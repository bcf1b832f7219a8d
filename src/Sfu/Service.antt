-- ===== src/Sfu/Service.antt =====
-- meeting-server/sfu/server/RpcService: the requests of the signaling server. The service
-- shares the room manager with MediaIngress.
pub mod Invariant
pub mod Runs
use meeting_system.Prelude.{
  ℕ, ◌+◌, ◌%◌, ◌^◌, Bool, true, false, List, [], ◌∷◌, Option, none, some, ◌&&◌, ◌||◌, ◌==◌,
  if◌then◌else◌,
}
use meeting_system.Prelude.Assoc.{Text, is_empty}
use meeting_system.Prelude.Int.{ℤ, pos, negsuc}
use meeting_system.Sfu.RoomManager.{
  RoomManager, create_room, destroy_room, room_count, publisher_count,
}
use meeting_system.Sfu.Ingress.State.{Platform, MediaIngress}
use meeting_system.Sfu.Ingress.Members.{
  TransportSetupResult, no_setup, ClientSide, ServerSide, bind_publisher, bind_subscriber,
  remove_publisher, remove_subscriber, setup_transport, close_transport, trickle_ice_candidate,
}
use meeting_system.Sfu.Requests.{
  CreateRoomReq, MeetingReq, MemberReq, SsrcReq, SetupTransportReq, TrickleIceCandidateReq, Request,
  Response, RpcMethod, method_of, Messages, no_member, no_ssrcs, parsed, request_of,
  create_room_req, destroy_room_req, add_publisher_req, remove_publisher_req, get_node_status_req,
  setup_transport_req, trickle_ice_candidate_req, close_transport_req, add_subscriber_req,
  remove_subscriber_req, create_room_rsp, setup_transport_rsp, node_status_rsp, success_rsp,
  create_room_method, destroy_room_method, add_publisher_method, remove_publisher_method,
  get_node_status_method, setup_transport_method, trickle_method, close_transport_method,
  add_subscriber_method, remove_subscriber_method,
}

pub record RpcService (Dtls Srtp : Type 0) : Type 0 where
  pub media_ingress : MediaIngress Dtls Srtp
  pub advertised_address : Text

-- 16 publishers unless the request has a number above 0.
unfoldable pub max_publishers_of : ℤ → ℕ
max_publishers_of (pos n) = if n == 0 then 16 else n
max_publishers_of (negsuc n) = 16

abbrev pub is_unnamed : Text → Text → Bool
is_unnamed meeting_id user_id = is_empty meeting_id || is_empty user_id

module _ {Dtls Srtp : Type 0} where
  unfoldable pub init : MediaIngress Dtls Srtp → RpcService Dtls Srtp
  init ingress = record {
    media_ingress = ingress;
    advertised_address =
        b'1' ∷ b'2' ∷ b'7' ∷ b'.' ∷ b'0' ∷ b'.' ∷ b'0' ∷ b'.' ∷ b'1' ∷ b':' ∷ b'0' ∷ [];
  }

  unfoldable pub set_advertised_address : RpcService Dtls Srtp → Text → RpcService Dtls Srtp
  set_advertised_address s address = record s { advertised_address = address }

  abbrev pub with_rooms : RpcService Dtls Srtp → RoomManager → RpcService Dtls Srtp
  with_rooms s rooms = record s { media_ingress = record s.media_ingress { rooms = rooms } }

  unfoldable pub handle_create_room :
      RpcService Dtls Srtp → CreateRoomReq → Response × RpcService Dtls Srtp
  unfolding max_publishers_of
  handle_create_room s req =
      let created =
        create_room s.media_ingress.rooms req.meeting_id (max_publishers_of req.max_publishers) in
      if is_empty req.meeting_id
      then (create_room_rsp false s.advertised_address, s)
      else (create_room_rsp created.0 s.advertised_address, with_rooms s created.1)

  unfoldable pub handle_destroy_room :
      RpcService Dtls Srtp → MeetingReq → Response × RpcService Dtls Srtp
  handle_destroy_room s req =
      let destroyed = destroy_room s.media_ingress.rooms req.meeting_id in
      (success_rsp destroyed.0, with_rooms s destroyed.2)

  -- The answer of a call to MediaIngress that stands behind the test of the names.
  abbrev pub answered :
      RpcService Dtls Srtp
      → (meeting_id user_id : Text) → Bool × MediaIngress Dtls Srtp
      → Response × RpcService Dtls Srtp
  answered s meeting_id user_id answer =
      if is_unnamed meeting_id user_id
      then (success_rsp false, s)
      else (success_rsp answer.0, record s { media_ingress = answer.1 })

  unfoldable pub handle_get_node_status : RpcService Dtls Srtp → Response × RpcService Dtls Srtp
  handle_get_node_status s = (
    node_status_rsp true s.advertised_address s.media_ingress.port
        (room_count s.media_ingress.rooms % 2 ^ 32) (publisher_count s.media_ingress.rooms % 2 ^ 32)
        s.media_ingress.packet_count,
    s,
  )

  unfoldable pub handle_trickle_ice_candidate :
      RpcService Dtls Srtp → TrickleIceCandidateReq → Response × RpcService Dtls Srtp
  handle_trickle_ice_candidate s req = answered s req.meeting_id req.user_id (
      trickle_ice_candidate s.media_ingress req.meeting_id req.user_id req.candidate
        req.end_of_candidates)

module _ {Dtls Srtp : Type 0} (p : Platform Dtls Srtp) where
  unfoldable pub handle_add_publisher :
      RpcService Dtls Srtp → SsrcReq → Response × RpcService Dtls Srtp
  handle_add_publisher s req =
      answered s req.meeting_id req.user_id
        (bind_publisher p s.media_ingress req.meeting_id req.user_id req.audio_ssrc req.video_ssrc)

  unfoldable pub handle_add_subscriber :
      RpcService Dtls Srtp → SsrcReq → Response × RpcService Dtls Srtp
  handle_add_subscriber s req =
      answered s req.meeting_id req.user_id
        (bind_subscriber p s.media_ingress req.meeting_id req.user_id req.audio_ssrc req.video_ssrc)

  unfoldable pub handle_remove_publisher :
      RpcService Dtls Srtp → MemberReq → Response × RpcService Dtls Srtp
  handle_remove_publisher s req =
      answered s req.meeting_id req.user_id
        (remove_publisher p s.media_ingress req.meeting_id req.user_id)

  unfoldable pub handle_remove_subscriber :
      RpcService Dtls Srtp → MemberReq → Response × RpcService Dtls Srtp
  handle_remove_subscriber s req =
      answered s req.meeting_id req.user_id
        (remove_subscriber p s.media_ingress req.meeting_id req.user_id)

  unfoldable pub handle_close_transport :
      RpcService Dtls Srtp → MemberReq → Response × RpcService Dtls Srtp
  handle_close_transport s req =
      answered s req.meeting_id req.user_id
        (close_transport p s.media_ingress req.meeting_id req.user_id)

  -- With what the server draws and starts for the transport.
  unfoldable pub handle_setup_transport :
      ServerSide Dtls → RpcService Dtls Srtp → SetupTransportReq → Response × RpcService Dtls Srtp
  handle_setup_transport server s req =
      let client : ClientSide = record {
        ice_ufrag = req.client_ice_ufrag;
        ice_pwd = req.client_ice_pwd;
        dtls_fingerprint = req.client_dtls_fingerprint;
        candidates = req.client_candidates;
      } in
      let (success, result, ingress) =
        setup_transport p s.media_ingress req.meeting_id req.user_id req.publish_audio
          req.publish_video client s.advertised_address server in
      if is_unnamed req.meeting_id req.user_id then (setup_transport_rsp false no_setup, s) else (
        setup_transport_rsp (success && result.success) result,
        record s { media_ingress = ingress },
      )

  -- The handlers, by the request.
  unfoldable pub handle :
      ServerSide Dtls → RpcService Dtls Srtp → Request → Response × RpcService Dtls Srtp
  handle server s (create_room_req req) = handle_create_room s req
  handle server s (destroy_room_req req) = handle_destroy_room s req
  handle server s (add_publisher_req req) = handle_add_publisher s req
  handle server s (remove_publisher_req req) = handle_remove_publisher s req
  handle server s get_node_status_req = handle_get_node_status s
  handle server s (setup_transport_req req) = handle_setup_transport server s req
  handle server s (trickle_ice_candidate_req req) = handle_trickle_ice_candidate s req
  handle server s (close_transport_req req) = handle_close_transport s req
  handle server s (add_subscriber_req req) = handle_add_subscriber s req
  handle server s (remove_subscriber_req req) = handle_remove_subscriber s req

  abbrev pub or_empty : Option (List ℕ) → Bool × List ℕ
  or_empty none = (false, [])
  or_empty (some bytes) = (true, bytes)

  -- Whether it succeeds, the response's payload, and the service after it.
  unfoldable pub dispatch :
      Messages
      → ServerSide Dtls
      → RpcService Dtls Srtp
      → ℕ
      → List ℕ
      → Bool × List ℕ × RpcService Dtls Srtp
  dispatch ms server s method payload = elim (method_of method) [
    | none ↦ (false, [], s)
    | some known ↦
        let answer = handle server s (request_of ms known payload) in
        let bytes = or_empty (ms.serialize known answer.0) in (bytes.0, bytes.1, answer.1)
  ]
