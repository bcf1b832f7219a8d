-- ===== src/Sfu/Requests.antt =====
-- meeting-server/sfu/server/RpcService and RpcProtocol: the methods, the requests and the answers. The
-- generated protobuf code is a parameter: what `ParseFromArray` leaves in a message, and what
-- `SerializeToString` writes, if it succeeds.
use meeting_system.Prelude.{ℕ, Bool, false, List, [], ◌∷◌, Option, none, some, ◌==◌, if◌then◌else◌}
use meeting_system.Prelude.Assoc.{Text}
use meeting_system.Prelude.Int.{ℤ, pos}
use meeting_system.Sfu.Ingress.Members.{TransportSetupResult}

pub record CreateRoomReq : Type 0 where
  pub meeting_id : Text
  pub max_publishers : ℤ

pub record MeetingReq : Type 0 where
  pub meeting_id : Text

-- The requests that name a user: to close a transport, to remove a publisher or a subscriber.
pub record MemberReq : Type 0 where
  pub meeting_id : Text
  pub user_id : Text

-- The requests to add a publisher or a subscriber.
pub record SsrcReq : Type 0 where
  pub meeting_id : Text
  pub user_id : Text
  pub audio_ssrc : ℕ
  pub video_ssrc : ℕ

pub record SetupTransportReq : Type 0 where
  pub meeting_id : Text
  pub user_id : Text
  pub publish_audio : Bool
  pub publish_video : Bool
  pub client_ice_ufrag : Text
  pub client_ice_pwd : Text
  pub client_dtls_fingerprint : Text
  pub client_candidates : List Text

pub record TrickleIceCandidateReq : Type 0 where
  pub meeting_id : Text
  pub user_id : Text
  pub candidate : Text
  pub end_of_candidates : Bool

pub data Request : Type 0 where
  create_room_req : CreateRoomReq → Request
  destroy_room_req : MeetingReq → Request
  add_publisher_req : SsrcReq → Request
  remove_publisher_req : MemberReq → Request
  get_node_status_req : Request
  setup_transport_req : SetupTransportReq → Request
  trickle_ice_candidate_req : TrickleIceCandidateReq → Request
  close_transport_req : MemberReq → Request
  add_subscriber_req : SsrcReq → Request
  remove_subscriber_req : MemberReq → Request

-- The answers; those that hold a success only are one constructor.
pub data Response : Type 0 where
  create_room_rsp : Bool → Text → Response
  setup_transport_rsp : Bool → TransportSetupResult → Response
  node_status_rsp :
      (success : Bool) → Text → (media_port room_count publisher_count packet_count : ℕ) → Response
  success_rsp : Bool → Response

-- `RpcMethod` with its numbers on the wire, `none` for the methods that the SFU does not serve.
pub data RpcMethod : Type 0 where
  create_room_method destroy_room_method add_publisher_method remove_publisher_method : RpcMethod
  get_node_status_method setup_transport_method trickle_method close_transport_method : RpcMethod
  add_subscriber_method remove_subscriber_method : RpcMethod

unfoldable pub method_of : ℕ → Option RpcMethod
method_of n =
    if n == 1
    then some create_room_method
    else if n == 2
    then some destroy_room_method
    else if n == 3
    then some add_publisher_method
    else if n == 4
    then some remove_publisher_method
    else if n == 5
    then some get_node_status_method
    else if n == 8
    then some setup_transport_method
    else if n == 9
    then some trickle_method
    else if n == 10
    then some close_transport_method
    else if n == 11
    then some add_subscriber_method
    else if n == 12
    then some remove_subscriber_method
    else none

pub record Messages : Type 0 where
  pub parse_create_room : List ℕ → CreateRoomReq
  pub parse_destroy_room : List ℕ → MeetingReq
  pub parse_add_publisher : List ℕ → SsrcReq
  pub parse_remove_publisher : List ℕ → MemberReq
  pub parse_setup_transport : List ℕ → SetupTransportReq
  pub parse_trickle : List ℕ → TrickleIceCandidateReq
  pub parse_close_transport : List ℕ → MemberReq
  pub parse_add_subscriber : List ℕ → SsrcReq
  pub parse_remove_subscriber : List ℕ → MemberReq
  pub serialize : RpcMethod → Response → Option (List ℕ)

-- The messages before they are parsed.
abbrev pub no_member : MemberReq
no_member = record { meeting_id = []; user_id = [] }

abbrev pub no_ssrcs : SsrcReq
no_ssrcs = record { meeting_id = []; user_id = []; audio_ssrc = 0; video_ssrc = 0 }

-- `parse` unless the payload is empty.
abbrev pub parsed {ℓ} : {A : Type ℓ} → (List ℕ → A) → A → List ℕ → A
parsed parse default [] = default
parsed parse default (b ∷ bytes) = parse (b ∷ bytes)

unfoldable pub request_of : Messages → RpcMethod → List ℕ → Request
request_of ms create_room_method payload =
    create_room_req
      (parsed ms.parse_create_room (record { meeting_id = []; max_publishers = pos 0 }) payload)
request_of ms destroy_room_method payload =
    destroy_room_req (parsed ms.parse_destroy_room (record { meeting_id = [] }) payload)
request_of ms add_publisher_method payload =
    add_publisher_req (parsed ms.parse_add_publisher no_ssrcs payload)
request_of ms remove_publisher_method payload =
    remove_publisher_req (parsed ms.parse_remove_publisher no_member payload)
request_of ms get_node_status_method payload = get_node_status_req
request_of ms setup_transport_method payload = setup_transport_req (
    parsed ms.parse_setup_transport
      (record {
        meeting_id = [];
        user_id = [];
        publish_audio = false;
        publish_video = false;
        client_ice_ufrag = [];
        client_ice_pwd = [];
        client_dtls_fingerprint = [];
        client_candidates = [];
      })
      payload)
request_of ms trickle_method payload = trickle_ice_candidate_req (
    parsed ms.parse_trickle
      (record { meeting_id = []; user_id = []; candidate = []; end_of_candidates = false }) payload)
request_of ms close_transport_method payload =
    close_transport_req (parsed ms.parse_close_transport no_member payload)
request_of ms add_subscriber_method payload =
    add_subscriber_req (parsed ms.parse_add_subscriber no_ssrcs payload)
request_of ms remove_subscriber_method payload =
    remove_subscriber_req (parsed ms.parse_remove_subscriber no_member payload)
