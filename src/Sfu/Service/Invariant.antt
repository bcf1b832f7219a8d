-- ===== src/Sfu/Service/Invariant.antt =====
-- The rooms are in order whatever requests and datagrams come.
use meeting_system.Prelude.{
  ℕ, Bool, true, false, List, ◌&&◌, ◌||◌, ◌==◌, inl, inr, Bool-cases, Option-cases,
}
use meeting_system.Prelude.Assoc.{Text, is_empty}
use meeting_system.Sfu.RoomManager.{get_room}
use meeting_system.Sfu.RoomManager.Invariant.{IsManager, call, creates, destroys, call-IsManager}
use meeting_system.Sfu.Ingress.State.{Platform, MediaIngress}
use meeting_system.Sfu.Ingress.Members.{
  bind_subscriber, bind_both, setup_answer, setup_transport, close_transport, trickle_ice_candidate,
  ClientSide, ServerSide, TransportSetupResult,
}
use meeting_system.Sfu.Ingress.Rooms.{
  bind_publisher-IsManager, bind_subscriber-IsManager, remove_publisher-IsManager,
  remove_subscriber-IsManager,
}
use meeting_system.Sfu.Service.{
  RpcService, answered, max_publishers_of, handle_create_room, handle_destroy_room,
  handle_get_node_status, handle_trickle_ice_candidate, handle_add_publisher, handle_add_subscriber,
  handle_remove_publisher, handle_remove_subscriber, handle_close_transport, handle_setup_transport,
  handle, dispatch,
}
use meeting_system.Sfu.Requests.{
  Request, Messages, CreateRoomReq, SetupTransportReq, create_room_req, destroy_room_req,
  add_publisher_req, remove_publisher_req, get_node_status_req, setup_transport_req,
  trickle_ice_candidate_req, close_transport_req, add_subscriber_req, remove_subscriber_req,
  method_of, request_of,
}

module _ {Dtls Srtp : Type 0} (p : Platform Dtls Srtp) where
  setup_answer-IsManager :
      (result : TransportSetupResult) (answer : Bool × MediaIngress Dtls Srtp)
      → IsManager answer.1.rooms
      → IsManager (setup_answer p result answer).2.rooms
  setup_answer-IsManager result (false, m) v = v
  setup_answer-IsManager result (true, m) v = v

  bind_both-IsManager :
      (m : MediaIngress Dtls Srtp) (meeting_id user_id : Text) (audio_ssrc video_ssrc : ℕ)
      → IsManager m.rooms
      → IsManager (bind_both p m meeting_id user_id audio_ssrc video_ssrc).1.rooms
  unfolding bind_both
  bind_both-IsManager m meeting_id user_id audio_ssrc video_ssrc v =
      let subscribed = bind_subscriber p m meeting_id user_id audio_ssrc video_ssrc in
      let v' = bind_subscriber-IsManager p m meeting_id user_id audio_ssrc video_ssrc v in
      elim (Bool-cases subscribed.0) [
        | inr failed ↦ rw failed v'
        | inl fine ↦ rw fine (elim (Bool-cases ((audio_ssrc == 0) && (video_ssrc == 0))) [
          | inl silent ↦ rw silent v'
          | inr sending ↦
              rw sending (
                bind_publisher-IsManager p subscribed.1 meeting_id user_id audio_ssrc video_ssrc v')
        ])
      ]

  setup_transport-IsManager :
      (m : MediaIngress Dtls Srtp) (meeting_id user_id : Text) (publish_audio publish_video : Bool)
      (client : ClientSide) (advertised : Text) (server : ServerSide Dtls)
      → IsManager m.rooms
      → IsManager
          (setup_transport p m meeting_id user_id publish_audio publish_video client advertised
            server).2.rooms
  unfolding setup_transport
  setup_transport-IsManager m meeting_id user_id publish_audio publish_video client advertised
        server v =
      elim (Bool-cases (
        is_empty meeting_id
        || (is_empty user_id
            || (is_empty client.ice_ufrag
                || (is_empty client.ice_pwd || is_empty client.dtls_fingerprint))))) [
                  | inl unnamed ↦ rw unnamed v
                  | inr named ↦ rw named (elim (Option-cases (get_room m.rooms meeting_id)) [
                    | inl e ↦ rw (e, setup_transport) v
                    | inr (room, e) ↦
                        rw (e, setup_transport)
                          (elim (Bool-cases server.initialized) [
                            | inr failed ↦ rw failed v
                            | inl fine ↦ rw fine (elim (Option-cases server.started) [
                              | inl e' ↦ rw (e', setup_transport) v
                              | inr (dtls, e') ↦
                                  rw (e', setup_transport)
                                    (setup_answer-IsManager _ _
                                      (bind_both-IsManager _ meeting_id user_id _ _ v))
                            ])
                          ])
                  ])
                ]

  answered-IsManager :
      (s : RpcService Dtls Srtp) (meeting_id user_id : Text)
      (answer : Bool × MediaIngress Dtls Srtp)
      → IsManager s.media_ingress.rooms
      → IsManager answer.1.rooms
      → IsManager (answered s meeting_id user_id answer).1.media_ingress.rooms
  answered-IsManager s meeting_id user_id answer v w =
      elim (Bool-cases (is_empty meeting_id || is_empty user_id)) [
        | inl unnamed ↦ rw unnamed v
        | inr named ↦ rw named w
      ]

  close_transport-IsManager :
      (m : MediaIngress Dtls Srtp) (meeting_id user_id : Text)
      → IsManager m.rooms
      → IsManager (close_transport p m meeting_id user_id).1.rooms
  unfolding close_transport
  close_transport-IsManager m meeting_id user_id v =
      elim (Bool-cases (is_empty meeting_id || is_empty user_id)) [
        | inl unnamed ↦ rw unnamed v
        | inr named ↦ rw named (
            remove_publisher-IsManager p _ meeting_id user_id
              (remove_subscriber-IsManager p _ meeting_id user_id v))
      ]

  trickle-IsManager :
      (m : MediaIngress Dtls Srtp) (meeting_id user_id candidate : Text) (end_of_candidates : Bool)
      → IsManager m.rooms
      → IsManager (trickle_ice_candidate m meeting_id user_id candidate end_of_candidates).1.rooms
  unfolding trickle_ice_candidate
  trickle-IsManager m meeting_id user_id candidate end_of_candidates v =
      elim (Bool-cases (is_empty meeting_id || is_empty user_id)) [
        | inl unnamed ↦ rw unnamed v
        | inr named ↦ rw named v
      ]

  handle_setup_transport-IsManager :
      (server : ServerSide Dtls) (s : RpcService Dtls Srtp) (req : SetupTransportReq)
      → IsManager s.media_ingress.rooms
      → IsManager (handle_setup_transport p server s req).1.media_ingress.rooms
  unfolding handle_setup_transport
  handle_setup_transport-IsManager server s req v =
      elim (Bool-cases (is_empty req.meeting_id || is_empty req.user_id)) [
        | inl unnamed ↦ rw unnamed v
        | inr named ↦ rw named (setup_transport-IsManager s.media_ingress _ _ _ _ _ _ server v)
      ]

  handle_create_room-IsManager :
      (s : RpcService Dtls Srtp) (req : CreateRoomReq)
      → IsManager s.media_ingress.rooms
      → IsManager (handle_create_room s req).1.media_ingress.rooms
  unfolding handle_create_room call
  handle_create_room-IsManager s req v = elim (Bool-cases (is_empty req.meeting_id)) [
    | inl unnamed ↦ rw unnamed v
    | inr named ↦ rw named (
        call-IsManager s.media_ingress.rooms
          (creates req.meeting_id (max_publishers_of req.max_publishers)) v)
  ]

  -- Whatever the request: its handler keeps the rooms in order.
  pub handle-IsManager :
      (server : ServerSide Dtls) (s : RpcService Dtls Srtp) (req : Request)
      → IsManager s.media_ingress.rooms
      → IsManager (handle p server s req).1.media_ingress.rooms
  unfolding handle call handle_destroy_room handle_add_publisher handle_add_subscriber
      handle_remove_publisher handle_remove_subscriber handle_close_transport
      handle_trickle_ice_candidate handle_get_node_status
  handle-IsManager server s (create_room_req req) v = handle_create_room-IsManager s req v
  handle-IsManager server s (destroy_room_req req) v =
      call-IsManager s.media_ingress.rooms (destroys req.meeting_id) v
  handle-IsManager server s (add_publisher_req req) v =
      answered-IsManager s req.meeting_id req.user_id _ v (bind_publisher-IsManager p _ _ _ _ _ v)
  handle-IsManager server s (remove_publisher_req req) v =
      answered-IsManager s req.meeting_id req.user_id _ v (remove_publisher-IsManager p _ _ _ v)
  handle-IsManager server s get_node_status_req v = v
  handle-IsManager server s (setup_transport_req req) v =
      handle_setup_transport-IsManager server s req v
  handle-IsManager server s (trickle_ice_candidate_req req) v =
      answered-IsManager s req.meeting_id req.user_id _ v (trickle-IsManager _ _ _ _ _ v)
  handle-IsManager server s (close_transport_req req) v =
      answered-IsManager s req.meeting_id req.user_id _ v (close_transport-IsManager _ _ _ v)
  handle-IsManager server s (add_subscriber_req req) v =
      answered-IsManager s req.meeting_id req.user_id _ v (bind_subscriber-IsManager p _ _ _ _ _ v)
  handle-IsManager server s (remove_subscriber_req req) v =
      answered-IsManager s req.meeting_id req.user_id _ v (remove_subscriber-IsManager p _ _ _ v)

  pub dispatch-IsManager :
      (ms : Messages) (server : ServerSide Dtls) (s : RpcService Dtls Srtp) (method : ℕ)
      (payload : List ℕ)
      → IsManager s.media_ingress.rooms
      → IsManager (dispatch p ms server s method payload).2.media_ingress.rooms
  unfolding dispatch
  dispatch-IsManager ms server s method payload v = elim (Option-cases (method_of method)) [
    | inl e ↦ rw (e, dispatch) v
    | inr (known, e) ↦ rw (e, dispatch) (handle-IsManager server s (request_of ms known payload) v)
  ]
