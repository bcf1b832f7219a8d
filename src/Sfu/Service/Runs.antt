-- ===== src/Sfu/Service/Runs.antt =====
-- The SFU as a whole: RpcServer's thread dispatches requests, UdpServer's hands over datagrams, and
-- SfuDaemon sends its estimates and sets the address. Each call holds the locks, so they come one
-- after the other, in any order.
use meeting_system.Prelude.{
  ℕ, ◌≡◌, refl, List, ◌||◌, ◌==◌, ◌*◌, inl, inr, Bool-cases, Option-cases, min,
}
use meeting_system.Prelude.Assoc.{Text, is_empty, lookup, nat_eq, text_eq}
use meeting_system.Prelude.Assoc.Laws.{Everywhere-nil}
use meeting_system.Prelude.Bytes.{ok}
use meeting_system.Sfu.Endpoint.{Endpoint}
use meeting_system.Sfu.Room
use meeting_system.Sfu.Room.{Publisher}
use meeting_system.Sfu.RoomManager
use meeting_system.Sfu.RoomManager.{RoomManager, get_room}
use meeting_system.Sfu.RoomManager.Invariant.{IsManager}
use meeting_system.Sfu.Ingress.State
use meeting_system.Sfu.Ingress.State.{Platform, MediaIngress, resolve_publisher_endpoint}
use meeting_system.Sfu.Ingress.Sending.{Outcome}
use meeting_system.Sfu.Ingress.Members.{ServerSide}
use meeting_system.Sfu.Ingress.Remb.{
  source_to_estimate, is_too_soon, with_estimate, send_estimated, send_estimate_to,
  send_estimated_remb_to_publisher,
}
use meeting_system.Sfu.Ingress.Control.Rooms.{sent_to-seal-rooms}
use meeting_system.Sfu.Ingress.Media.{handle_packet}
use meeting_system.Sfu.Ingress.Media.Rooms.{handle_packet-IsManager}
use meeting_system.Sfu.Service
use meeting_system.Sfu.Service.{RpcService, set_advertised_address, dispatch}
use meeting_system.Sfu.Requests.{Messages}
use meeting_system.Sfu.Service.Invariant.{dispatch-IsManager}

module _ {Dtls Srtp : Type 0} (p : Platform Dtls Srtp) where
  with_estimate-rooms :
      (m : MediaIngress Dtls Srtp) (source_ssrc : ℕ) → (with_estimate m source_ssrc).rooms ≡ m.rooms
  with_estimate-rooms m source_ssrc =
      elim (Option-cases (lookup source_ssrc m.estimated_remb_by_source)) [
        | inl e ↦ rw (e, with_estimate) refl
        | inr (state, e) ↦ rw (e, with_estimate) refl
      ]

  send_estimate_to-rooms :
      (m : MediaIngress Dtls Srtp) (publisher : Publisher) (bitrate_kbps now : ℕ)
      → (send_estimate_to p m publisher bitrate_kbps now).2.rooms ≡ m.rooms
  unfolding send_estimate_to send_estimated
  send_estimate_to-rooms m publisher bitrate_kbps now =
      let source_ssrc = source_to_estimate publisher in
      elim (Option-cases (resolve_publisher_endpoint m source_ssrc)) [
        | inl e ↦ rw (e, send_estimate_to) refl
        | inr (endpoint, e) ↦
            rw (e, send_estimate_to)
              (elim (Bool-cases (
                is_too_soon (lookup source_ssrc m.estimated_remb_by_source)
                  (min bitrate_kbps 4294967 * 1000) now)) [
                    | inl soon ↦ rw soon (with_estimate-rooms m source_ssrc)
                    | inr later ↦ rw later (sent_to-seal-rooms _ _ endpoint _)
                  ])
      ]

  send_estimated_remb-rooms :
      (m : MediaIngress Dtls Srtp) (meeting_id user_id : Text) (bitrate_kbps now : ℕ)
      → (send_estimated_remb_to_publisher p m meeting_id user_id bitrate_kbps now).2.rooms ≡ m.rooms
  unfolding send_estimated_remb_to_publisher
  send_estimated_remb-rooms m meeting_id user_id bitrate_kbps now =
      elim (Bool-cases (is_empty meeting_id || (is_empty user_id || (bitrate_kbps == 0)))) [
        | inl unnamed ↦ rw unnamed refl
        | inr named ↦ rw named (elim (Option-cases (get_room m.rooms meeting_id)) [
          | inl e ↦ rw (e, send_estimated_remb_to_publisher) refl
          | inr (room, e) ↦
              rw (e, send_estimated_remb_to_publisher)
                (elim (Option-cases (Room.get_publisher room user_id)) [
                  | inl e' ↦ rw (e', send_estimated_remb_to_publisher) refl
                  | inr (publisher, e') ↦
                      rw (e', send_estimated_remb_to_publisher)
                        (send_estimate_to-rooms m publisher bitrate_kbps now)
                ])
        ])
      ]

  -- What can happen to the SFU.
  pub data Step (s : RpcService Dtls Srtp) : RpcService Dtls Srtp → Type 0 where
    requested :
        (ms : Messages) (server : ServerSide Dtls) (method : ℕ) (payload : List ℕ)
        → Step s (dispatch p ms server s method payload).2
    received :
        (bytes : List ℕ) (from : Endpoint) (now : ℕ) (o : Outcome Dtls Srtp)
        → handle_packet p s.media_ingress bytes from now ≡ ok o
        → Step s (record s { media_ingress = o.2 })
    estimated :
        (meeting_id user_id : Text) (bitrate_kbps now : ℕ)
        → Step s (record s {
          media_ingress =
              (send_estimated_remb_to_publisher p s.media_ingress meeting_id user_id bitrate_kbps
                now).2;
        })
    advertised : (address : Text) → Step s (set_advertised_address s address)

  -- The states of an SFU that starts with no room.
  pub data Reach : RpcService Dtls Srtp → Type 0 where
    started :
        (port nack_capacity : ℕ)
        → Reach (Service.init (State.init RoomManager.empty port nack_capacity))
    next : {s t : RpcService Dtls Srtp} → Reach s → Step s t → Reach t

  outcome-IsManager :
      (m : MediaIngress Dtls Srtp) (bytes : List ℕ) (from : Endpoint) (now : ℕ)
      (o : Outcome Dtls Srtp)
      → handle_packet p m bytes from now ≡ ok o
      → IsManager m.rooms
      → IsManager o.2.rooms
  outcome-IsManager m bytes from now o e v =
      let (o', e', v') = handle_packet-IsManager p m bytes from now v in
      let same : o ≡ o' = cc (e, e') in rw same v'

  Step-IsManager :
      {s t : RpcService Dtls Srtp}
      → Step s t
      → IsManager s.media_ingress.rooms
      → IsManager t.media_ingress.rooms
  Step-IsManager (requested ms server method payload) v =
      dispatch-IsManager p ms server _ method payload v
  Step-IsManager (received bytes from now o e) v = outcome-IsManager _ bytes from now o e v
  Step-IsManager (estimated meeting_id user_id bitrate_kbps now) v =
      rw (send_estimated_remb-rooms _ meeting_id user_id bitrate_kbps now) v
  Step-IsManager (advertised address) v = unfold set_advertised_address in v

  -- Whatever requests, datagrams and estimates come, in whatever order, the meetings are distinct, and
  -- every room is in order and stands under its own name, with a limit that is not 0.
  pub Reach-IsManager : {s : RpcService Dtls Srtp} → Reach s → IsManager s.media_ingress.rooms
  unfolding Service.init State.init
  Reach-IsManager (started port nack_capacity) = record { unique = tt; hosted = Everywhere-nil _ }
  Reach-IsManager (next r step) = Step-IsManager step (Reach-IsManager r)
