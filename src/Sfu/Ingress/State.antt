-- ===== src/Sfu/Ingress/State.antt =====
-- meeting-server/sfu/server/MediaIngress: its state. The maps are association lists; the router's
-- callback for an endpoint is a number that stands for the endpoint. A loss is the numerator of its
-- 256ths, a time a number of nanoseconds. Each of the maps has a mutex of its own: a call of a method
-- is one step here, which is what holds while no other thread is in a method.
use meeting_system.Prelude.{
  ℕ, ◌+◌, ◌*◌, ◌/◌, ◌%◌, List, [], ◌∷◌, ◌++◌, Option, none, some, ◌==◌, if◌then◌else◌,
}
use meeting_system.Prelude.Assoc.{Text, nat_eq, text_eq, lookup}
use meeting_system.Sfu.Endpoint.{Endpoint, af_inet}
use meeting_system.Sfu.Room.{Publisher}
use meeting_system.Sfu.RoomManager.{RoomManager, find_publisher_by_ssrc}
use meeting_system.Sfu.Rtp.Router.{RtpRouter}
use meeting_system.Sfu.Rtp.Router
use meeting_system.Sfu.Ingress.Packets.{SenderReportLedgerEntry}
use meeting_system.Sfu.Transports.Participant.{Secure}
use meeting_system.Sfu.Transports.Registry.{TransportRegistry}

-- What the code relies on: address texts, DTLS and SRTP.
pub record Platform (Dtls Srtp : Type 0) : Type 0 where
  pub secure : Secure Dtls Srtp
  pub inet_pton : Text → Option ℕ
  pub inet_ntop : ℕ → Text

pub record PacketObservation : Type 0 where
  pub meeting_id : Text
  pub user_id : Text
  pub ssrc : ℕ
  pub sequence : ℕ
  pub timestamp : ℕ
  pub bytes : ℕ

pub record PublisherTrafficCounters : Type 0 where
  pub meeting_id : Text
  pub user_id : Text
  pub packet_count : ℕ
  pub byte_count : ℕ
  pub packet_loss : ℕ
  pub jitter_ms : ℕ
  pub rtt_ms : ℕ

pub record RembFeedbackSample : Type 0 where
  pub bitrate_exp : ℕ
  pub bitrate_mantissa : ℕ
  pub bitrate_bps : ℕ
  pub observed_at : ℕ

pub record EstimatedRembState : Type 0 where
  pub bitrate_bps : ℕ
  pub sent_at : ℕ

pub record MediaIngress (Dtls Srtp : Type 0) : Type 0 where
  pub port : ℕ
  pub rooms : RoomManager
  pub router : RtpRouter
  pub packet_count : ℕ
  pub last_observation : PacketObservation
  pub publisher_traffic : List (Text × PublisherTrafficCounters)
  pub sender_reports : List (ℕ × SenderReportLedgerEntry)
  pub feedback_routes : List (Text × ℕ)
  pub publisher_endpoints : List (ℕ × Endpoint)
  pub pli_forward_by_source : List (ℕ × ℕ)
  pub remb_feedback_by_source : List (ℕ × List (Text × RembFeedbackSample))
  pub estimated_remb_by_source : List (ℕ × EstimatedRembState)
  pub transport_registry : TransportRegistry Dtls Srtp

module _ {Dtls Srtp : Type 0} where
  -- The constructor, with the port of the socket.
  unfoldable pub init : RoomManager → ℕ → ℕ → MediaIngress Dtls Srtp
  init rooms port nack_capacity = record {
    port = port;
    rooms = rooms;
    router = Router.init nack_capacity;
    packet_count = 0;
    last_observation = record {
      meeting_id = [];
      user_id = [];
      ssrc = 0;
      sequence = 0;
      timestamp = 0;
      bytes = 0;
    };
    publisher_traffic = [];
    sender_reports = [];
    feedback_routes = [];
    publisher_endpoints = [];
    pli_forward_by_source = [];
    remb_feedback_by_source = [];
    estimated_remb_by_source = [];
    transport_registry = record { transports = [] };
  }

  -- The publisher, its user and its meeting.
  unfoldable pub resolve_publisher : MediaIngress Dtls Srtp → ℕ → Option (Publisher × Text × Text)
  resolve_publisher m ssrc = elim (find_publisher_by_ssrc m.rooms ssrc) [
    | none ↦ none
    | some (room, publisher, user_id, meeting_id) ↦ some (publisher, user_id, meeting_id)
  ]

  unfoldable pub resolve_publisher_endpoint : MediaIngress Dtls Srtp → ℕ → Option Endpoint
  resolve_publisher_endpoint m source_ssrc =
      if source_ssrc == 0 then none else lookup source_ssrc m.publisher_endpoints

-- The number of the callback that sends to an IPv4 endpoint, and the endpoint of a number.
abbrev pub callback_of : Endpoint → ℕ
callback_of e = e.sin_addr * 65536 + e.sin_port

abbrev pub endpoint_of : ℕ → Endpoint
endpoint_of n = record { sin_family = af_inet; sin_addr = n / 65536; sin_port = n % 65536 }

unfoldable pub publisher_traffic_key : Text → Text → Text
publisher_traffic_key meeting_id user_id = meeting_id ++ (10 ∷ user_id)
