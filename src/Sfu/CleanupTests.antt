-- ===== src/Sfu/CleanupTests.antt =====
-- A publisher leaves a small meeting, and a subscriber's REMB.
use meeting_system.Prelude.{ℕ, ◌≡◌, refl, true, [], ◌∷◌, some, arith, inl}
use meeting_system.Prelude.Assoc.{Text, text_beq, text_eq, lookup, contains}
use meeting_system.Sfu.Endpoint.{Endpoint, af_inet}
use meeting_system.Sfu.Room
use meeting_system.Sfu.Room.{Room, Publisher}
use meeting_system.Sfu.RoomManager.{get_room, with_room}
use meeting_system.Sfu.Rtp.Rtcp.Feedback.{RtcpRembFeedback}
use meeting_system.Sfu.Ingress.State
use meeting_system.Sfu.Ingress.State.{MediaIngress}
use meeting_system.Sfu.Fixtures.{platform}
use meeting_system.Sfu.Ingress.Members.{in_room, remove_publisher}
use meeting_system.Sfu.Ingress.Cleanup.{IsForgotten, remove_publisher-IsForgotten}

abbrev meeting : Text
meeting = b'm' ∷ []

abbrev user : Text
user = b'u' ∷ []

abbrev sender : Publisher
sender = record { user_id = user; audio_ssrc = 5; video_ssrc = 6 }

abbrev busy : Room
busy = record {
  meeting_id = meeting;
  max_publishers = 2;
  publishers = (user, some sender) ∷ [];
  subscribers = [];
}

-- The endpoint of the sender's audio is known.
abbrev ingress : MediaIngress ℕ ℕ
ingress = record (State.init (record { rooms = (meeting, busy) ∷ [] }) 5004 512) {
  publisher_endpoints =
      (5, record { sin_family = af_inet; sin_port = 5004; sin_addr = 16777343 }) ∷ [];
}

hosted : get_room ingress.rooms meeting ≡ some busy
unfolding get_room State.init lookup text_beq
hosted = refl

published : Room.get_publisher busy user ≡ some sender
unfolding Room.get_publisher lookup text_beq
published = refl

removed : (remove_publisher platform ingress meeting user).0 ≡ true
unfolding remove_publisher in_room get_room with_room Room.remove_publisher contains State.init
    lookup text_beq
removed = refl

remove_publisher-IsForgotten_example :
    IsForgotten (remove_publisher platform ingress meeting user).1 5
remove_publisher-IsForgotten_example =
    remove_publisher-IsForgotten platform ingress meeting user busy sender 5 hosted published
      removed (λ e. absurd (omega arith)) (inl refl)

abbrev subscriber : Endpoint
subscriber = record { sin_family = af_inet; sin_port = 5006; sin_addr = 16777343 }

abbrev remb : RtcpRembFeedback
remb = record {
  sender_ssrc = 9;
  media_ssrc = 5;
  bitrate_exp = 2;
  bitrate_mantissa = 100000;
  bitrate_bps = 400000;
  target_ssrcs = 5 ∷ [];
}
