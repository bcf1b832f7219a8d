-- ===== src/Sfu/Ingress/Members.antt =====
-- meeting-server/sfu/server/MediaIngress: publishers, subscribers and transports. What is drawn at
-- random, and what DtlsContext and DtlsTransport answer, is an argument.
use meeting_system.Prelude.{
  ℕ, Bool, true, false, List, [], ◌∷◌, ◌++◌, Option, none, some, not, ◌&&◌, ◌||◌, ◌==◌,
  if◌then◌else◌,
}
use meeting_system.Prelude.Assoc.{Text, is_empty, nat_eq, text_eq, erase}
use meeting_system.Prelude.Strings.{to_string}
use meeting_system.Sfu.Endpoint.{host_from_advertised_address}
use meeting_system.Sfu.Room
use meeting_system.Sfu.Room.{Room, Publisher, Subscriber, new_subscriber}
use meeting_system.Sfu.RoomManager.{get_room, with_room}
use meeting_system.Sfu.Rtp.Router
use meeting_system.Sfu.Transports.Ice
use meeting_system.Sfu.Transports.Participant.{new_transport}
use meeting_system.Sfu.Transports.Registry
use meeting_system.Sfu.Ingress.State.{Platform, MediaIngress, publisher_traffic_key}
use meeting_system.Sfu.Ingress.Routes.{remove_publisher_routes, refresh_room_routes}

abbrev pub if_given : ℕ → ℕ → ℕ
if_given given previous = if not (given == 0) then given else previous

abbrev pub audio_of : Option Publisher → ℕ
audio_of none = 0
audio_of (some publisher) = publisher.audio_ssrc

abbrev pub video_of : Option Publisher → ℕ
video_of none = 0
video_of (some publisher) = publisher.video_ssrc

-- The subscriber that takes the place of an existing one, with its endpoints.
unfoldable pub merged_subscriber : Text → Option Subscriber → ℕ → ℕ → Subscriber
merged_subscriber user_id none audio_ssrc video_ssrc =
    new_subscriber user_id [] (if_given audio_ssrc 0) (if_given video_ssrc 0)
merged_subscriber user_id (some existing) audio_ssrc video_ssrc =
    record (new_subscriber user_id existing.endpoint (if_given audio_ssrc existing.audio_ssrc)
      (if_given video_ssrc existing.video_ssrc)) {
        audio_endpoint = existing.audio_endpoint;
        video_endpoint = existing.video_endpoint;
      }

module _ {Dtls Srtp : Type 0} where
  -- The tests that four of the methods begin with: the names are not empty, and the room is there.
  unfoldable pub in_room :
      MediaIngress Dtls Srtp
      → Text
      → Text
      → (Room → Bool × MediaIngress Dtls Srtp)
      → Bool × MediaIngress Dtls Srtp
  in_room m meeting_id user_id next =
      if is_empty meeting_id || is_empty user_id
      then (false, m)
      else elim (get_room m.rooms meeting_id) [ none ↦ (false, m) | some room ↦ next room ]

  abbrev pub register : MediaIngress Dtls Srtp → ℕ → MediaIngress Dtls Srtp
  register m ssrc =
      if ssrc == 0 then m else record m { router = (Router.register_publisher m.router ssrc).1 }

  -- The routes of an SSRC that the publisher no longer sends.
  abbrev pub remove_replaced : MediaIngress Dtls Srtp → ℕ → ℕ → MediaIngress Dtls Srtp
  remove_replaced m previous merged =
      if not (previous == 0) && not (previous == merged)
      then remove_publisher_routes m previous
      else m

module _ {Dtls Srtp : Type 0} (p : Platform Dtls Srtp) where
  unfoldable pub bind_in_room :
      MediaIngress Dtls Srtp
      → Room
      → (meeting_id user_id : Text) → (audio_ssrc video_ssrc : ℕ) → Bool × MediaIngress Dtls Srtp
  bind_in_room m room meeting_id user_id audio_ssrc video_ssrc =
      let existing = Room.get_publisher room user_id in
      let audio = if_given audio_ssrc (audio_of existing) in
      let video = if_given video_ssrc (video_of existing) in
      let publisher : Publisher = record {
        user_id = user_id;
        audio_ssrc = audio;
        video_ssrc = video;
      } in
      let added = with_room m.rooms meeting_id (λ r. Room.add_publisher r (some publisher)) in
      let changed = record m { rooms = added.1 } in
      let cleared =
        remove_replaced (remove_replaced changed (audio_of existing) audio) (video_of existing)
          video in
      if (audio == 0) && (video == 0)
      then (false, m)
      else if not added.0
      then (false, changed)
      else (true, refresh_room_routes p (register (register cleared audio) video) meeting_id)

  unfoldable pub bind_publisher :
      MediaIngress Dtls Srtp
      → (meeting_id user_id : Text) → (audio_ssrc video_ssrc : ℕ) → Bool × MediaIngress Dtls Srtp
  bind_publisher m meeting_id user_id audio_ssrc video_ssrc =
      in_room m meeting_id user_id
        (λ room. bind_in_room m room meeting_id user_id audio_ssrc video_ssrc)

  unfoldable pub bind_subscriber :
      MediaIngress Dtls Srtp
      → (meeting_id user_id : Text) → (audio_ssrc video_ssrc : ℕ) → Bool × MediaIngress Dtls Srtp
  unfolding merged_subscriber
  bind_subscriber m meeting_id user_id audio_ssrc video_ssrc = in_room m meeting_id user_id λ room.
      let subscriber =
        merged_subscriber user_id (Room.get_subscriber room user_id) audio_ssrc video_ssrc in
      let added = with_room m.rooms meeting_id (λ r. Room.add_subscriber r (some subscriber)) in
      let changed = record m { rooms = added.1 } in
      if not added.0 then (false, changed) else (true, refresh_room_routes p changed meeting_id)

  -- What the removal of a publisher takes from the tables, beside its room entry.
  unfoldable pub forget_publisher :
      MediaIngress Dtls Srtp → Text → Text → Option Publisher → MediaIngress Dtls Srtp
  forget_publisher m meeting_id user_id none = record m {
    publisher_traffic = erase (publisher_traffic_key meeting_id user_id) m.publisher_traffic;
  }
  forget_publisher m meeting_id user_id (some publisher) =
      let m' =
        remove_publisher_routes (remove_publisher_routes m publisher.audio_ssrc)
          publisher.video_ssrc in
      let reports =
        if publisher.audio_ssrc == 0
        then m'.sender_reports
        else erase publisher.audio_ssrc m'.sender_reports in
      record m' {
        publisher_traffic = erase (publisher_traffic_key meeting_id user_id) m'.publisher_traffic;
        sender_reports =
            if publisher.video_ssrc == 0 then reports else erase publisher.video_ssrc reports;
      }

  unfoldable pub remove_publisher :
      MediaIngress Dtls Srtp → Text → Text → Bool × MediaIngress Dtls Srtp
  unfolding forget_publisher
  remove_publisher m meeting_id user_id = in_room m meeting_id user_id λ room.
      let removed = with_room m.rooms meeting_id (λ r. Room.remove_publisher r user_id) in
      let changed = record m { rooms = removed.1 } in
      if not removed.0
      then (false, changed)
      else (true, forget_publisher changed meeting_id user_id (Room.get_publisher room user_id))

  unfoldable pub remove_subscriber :
      MediaIngress Dtls Srtp → Text → Text → Bool × MediaIngress Dtls Srtp
  remove_subscriber m meeting_id user_id = in_room m meeting_id user_id λ room.
      let removed = with_room m.rooms meeting_id (λ r. Room.remove_subscriber r user_id) in
      let changed = record m { rooms = removed.1 } in
      if not removed.0 then (false, changed) else (true, refresh_room_routes p changed meeting_id)

  unfoldable pub close_transport :
      MediaIngress Dtls Srtp → Text → Text → Bool × MediaIngress Dtls Srtp
  close_transport m meeting_id user_id =
      let erased = record m {
        transport_registry =
            (Registry.erase_user_transports m.transport_registry meeting_id user_id).1;
      } in
      if is_empty meeting_id || is_empty user_id then (false, m) else (
        true,
        (remove_publisher (remove_subscriber erased meeting_id user_id).1 meeting_id user_id).1,
      )

module _ {Dtls Srtp : Type 0} where
  unfoldable pub trickle_ice_candidate :
      MediaIngress Dtls Srtp
      → (meeting_id user_id candidate : Text) → Bool
      → Bool × MediaIngress Dtls Srtp
  trickle_ice_candidate m meeting_id user_id candidate last =
      let answer =
        Registry.append_ice_candidate m.transport_registry meeting_id user_id candidate last in
      if is_empty meeting_id || is_empty user_id
      then (false, m)
      else (answer.0, record m { transport_registry = answer.1 })

-- `TransportSetupResult`
pub record TransportSetupResult : Type 0 where
  pub success : Bool
  pub server_ice_ufrag : Text
  pub server_ice_pwd : Text
  pub server_dtls_fingerprint : Text
  pub server_candidates : List Text
  pub assigned_audio_ssrc : ℕ
  pub assigned_video_ssrc : ℕ

abbrev pub no_setup : TransportSetupResult
no_setup = record {
  success = false;
  server_ice_ufrag = [];
  server_ice_pwd = [];
  server_dtls_fingerprint = [];
  server_candidates = [];
  assigned_audio_ssrc = 0;
  assigned_video_ssrc = 0;
}

-- What the client says of its side.
pub record ClientSide : Type 0 where
  pub ice_ufrag : Text
  pub ice_pwd : Text
  pub dtls_fingerprint : Text
  pub candidates : List Text

-- The random draws, whether the DTLS context initialises, its fingerprint, and the DTLS transport that
-- starts with the client's fingerprint, if it does.
pub record ServerSide (Dtls : Type 0) : Type 0 where
  pub audio_ssrc : ℕ
  pub video_ssrc : ℕ
  pub ice_ufrag : Text
  pub ice_pwd : Text
  pub initialized : Bool
  pub fingerprint : Text
  pub started : Option Dtls

unfoldable pub make_host_candidate : Text → ℕ → Text
make_host_candidate host port =
    (b'c' ∷ b'a' ∷ b'n' ∷ b'd' ∷ b'i' ∷ b'd' ∷ b'a' ∷ b't' ∷ b'e' ∷ b':' ∷ b'1' ∷ 32 ∷ b'1' ∷ 32
      ∷ b'u' ∷ b'd' ∷ b'p' ∷ 32 ∷ b'2' ∷ b'1' ∷ b'3' ∷ b'0' ∷ b'7' ∷ b'0' ∷ b'6' ∷ b'4' ∷ b'3'
      ∷ b'1' ∷ 32 ∷ [])
    ++ (host
        ++ (32
            ∷ (to_string port ++ (32 ∷ b't' ∷ b'y' ∷ b'p' ∷ 32 ∷ b'h' ∷ b'o' ∷ b's' ∷ b't' ∷ []))))

abbrev pub host_or_local : Text → Text
host_or_local [] = b'1' ∷ b'2' ∷ b'7' ∷ b'.' ∷ b'0' ∷ b'.' ∷ b'0' ∷ b'.' ∷ b'1' ∷ []
host_or_local (c ∷ cs) = c ∷ cs

module _ {Dtls Srtp : Type 0} (p : Platform Dtls Srtp) where
  -- The transport is in the registry; the subscriber and the publisher are bound.
  unfoldable pub bind_both :
      MediaIngress Dtls Srtp
      → (meeting_id user_id : Text) → (audio_ssrc video_ssrc : ℕ) → Bool × MediaIngress Dtls Srtp
  bind_both m meeting_id user_id audio_ssrc video_ssrc =
      let subscribed = bind_subscriber p m meeting_id user_id audio_ssrc video_ssrc in
      let published = bind_publisher p subscribed.1 meeting_id user_id audio_ssrc video_ssrc in
      if not subscribed.0
      then subscribed
      else if (audio_ssrc == 0) && (video_ssrc == 0)
      then subscribed
      else published

  abbrev pub setup_answer :
      TransportSetupResult
      → Bool × MediaIngress Dtls Srtp
      → Bool × TransportSetupResult × MediaIngress Dtls Srtp
  setup_answer result (false, m) = (false, no_setup, m)
  setup_answer result (true, m) = (true, result, m)

  unfoldable pub setup_transport :
      MediaIngress Dtls Srtp
      → (meeting_id user_id : Text) → (publish_audio publish_video : Bool) → ClientSide
      → Text
      → ServerSide Dtls
      → Bool × TransportSetupResult × MediaIngress Dtls Srtp
  unfolding bind_both
  setup_transport m meeting_id user_id publish_audio publish_video client advertised server =
      let audio = if publish_audio then server.audio_ssrc else 0 in
      let video = if publish_video then server.video_ssrc else 0 in
      let candidates : List Text =
        make_host_candidate (host_or_local (host_from_advertised_address advertised)) m.port ∷ [] in
      let ice =
        Ice.configure client.ice_ufrag client.ice_pwd client.candidates server.ice_ufrag
          server.ice_pwd candidates in
      let registered = λ (dtls : Dtls). record m {
        transport_registry =
            Registry.upsert m.transport_registry
              (new_transport p.secure meeting_id user_id publish_audio publish_video
                client.dtls_fingerprint audio video ice (some dtls))
              (Registry.kind publish_audio publish_video);
      } in
      let result : TransportSetupResult = record {
        success = true;
        server_ice_ufrag = server.ice_ufrag;
        server_ice_pwd = server.ice_pwd;
        server_dtls_fingerprint = server.fingerprint;
        server_candidates = candidates;
        assigned_audio_ssrc = audio;
        assigned_video_ssrc = video;
      } in
      if is_empty meeting_id
        || (is_empty user_id
            || (is_empty client.ice_ufrag
                || (is_empty client.ice_pwd || is_empty client.dtls_fingerprint)))
      then (false, no_setup, m)
      else elim (get_room m.rooms meeting_id) [
        | none ↦ (false, no_setup, m)
        | some room ↦ if not server.initialized then (false, no_setup, m) else elim server.started [
          | none ↦ (false, no_setup, m)
          | some dtls ↦
              setup_answer result (bind_both (registered dtls) meeting_id user_id audio video)
        ]
      ]
