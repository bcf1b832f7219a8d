-- ===== src/Sfu/Ingress/Routes.antt =====
-- meeting-server/sfu/server/MediaIngress: the routes of a room's publishers to its subscribers.
use meeting_system.Prelude.{
  ℕ, suc, ◌*◌, ◌%◌, ◌^◌, Bool, false, List, [], ◌∷◌, ◌++◌, Option, none, some, not, ◌&&◌, ◌||◌, ltb,
  ◌==◌, if◌then◌else◌,
}
use meeting_system.Prelude.Assoc.{Text, text_beq, is_empty, nat_eq, text_eq, insert, erase}
use meeting_system.Prelude.Strings.{to_string}
use Prim.Native.Nat.{bit_xor}
use meeting_system.Sfu.Endpoint.{Endpoint, parse_endpoint, feedback_route_key}
use meeting_system.Sfu.Room
use meeting_system.Sfu.Room.{Room, Publisher, Subscriber}
use meeting_system.Sfu.RoomManager.{get_room}
use meeting_system.Sfu.Rtp.Router
use meeting_system.Sfu.Ingress.State.{Platform, MediaIngress, callback_of}

abbrev pub hash_byte : ℕ → ℕ → ℕ
hash_byte hash ch = bit_xor hash ch * 16777619 % 2 ^ 32

unfoldable pub hash_text : ℕ → Text → ℕ
hash_text hash [] = hash
hash_text hash (ch ∷ rest) = hash_text (hash_byte hash ch) rest

unfoldable pub make_route_rewrite_ssrc : Text → Text → ℕ → Bool → ℕ
unfolding hash_text
make_route_rewrite_ssrc meeting_id user_id source_ssrc video =
    let kind =
      if video
      then (b'v' ∷ b'i' ∷ b'd' ∷ b'e' ∷ b'o' ∷ [])
      else (b'a' ∷ b'u' ∷ b'd' ∷ b'i' ∷ b'o' ∷ []) in
    let key =
      meeting_id ++ (b'|' ∷ (user_id ++ (b'|' ∷ (kind ++ (b'|' ∷ to_string source_ssrc))))) in
    let hash = hash_text 2166136261 key % 2 ^ 31 in
    let hash' = if (hash == 0) || (hash == source_ssrc) then bit_xor hash 0x5A5A5A5A else hash in
    if hash' == 0 then 0x13572468 else hash'

-- The SSRC under which the subscriber gets the source: its own for that kind, the source's if it has
-- none, one made for the route if several publishers send that kind.
unfoldable pub rewritten_ssrc : Text → Text → (source_ssrc preferred same_kind : ℕ) → Bool → ℕ
rewritten_ssrc meeting_id user_id source_ssrc preferred same_kind video =
    let made = make_route_rewrite_ssrc meeting_id user_id source_ssrc video in
    let other =
      if (made == preferred) || (made == source_ssrc) then bit_xor made 0x01010101 else made in
    if ltb 1 same_kind && not (preferred == 0)
    then if other == 0 then bit_xor source_ssrc 0x01010101 else other
    else if not (preferred == 0)
    then preferred
    else source_ssrc

abbrev pub first_text : Text → Text → Text → Text
first_text a b c = if not (is_empty a) then a else if not (is_empty b) then b else c

unfoldable pub endpoint_text : Bool → Subscriber → Text
endpoint_text video s =
    if video
    then first_text s.video_endpoint s.endpoint s.audio_endpoint
    else first_text s.audio_endpoint s.endpoint s.video_endpoint

unfoldable pub count_same_kind : Bool → List (Option Publisher) → ℕ
count_same_kind video [] = 0
count_same_kind video (none ∷ rest) = count_same_kind video rest
count_same_kind video (some p ∷ rest) =
    let later = count_same_kind video rest in
    if (if video then p.video_ssrc else p.audio_ssrc) == 0 then later else suc later

-- The entries of a map that do not stand for the source.
unfoldable pub without_source : List (Text × ℕ) → ℕ → List (Text × ℕ)
without_source [] source_ssrc = []
without_source ((k, source) ∷ rest) source_ssrc =
    let later = without_source rest source_ssrc in
    if source == source_ssrc then later else (k, source) ∷ later

-- What the refreshing of a source's routes computes from the room first.
pub record Source : Type 0 where
  pub meeting_id : Text
  pub source_ssrc : ℕ
  pub is_video : Bool
  pub user_id : Text
  pub skip_self_forward : Bool
  pub same_kind : ℕ

abbrev pub source_is_video : Option (Publisher × Text) → ℕ → Bool
source_is_video none source_ssrc = false
source_is_video (some (publisher, user_id)) source_ssrc = publisher.video_ssrc == source_ssrc

abbrev pub source_user : Option (Publisher × Text) → Text
source_user none = []
source_user (some (publisher, user_id)) = user_id

unfoldable pub source_of : Room → Text → ℕ → Source
unfolding count_same_kind
source_of room meeting_id source_ssrc =
    let found = Room.find_publisher_by_ssrc room source_ssrc in
    record {
      meeting_id = meeting_id;
      source_ssrc = source_ssrc;
      is_video = source_is_video found source_ssrc;
      user_id = source_user found;
      skip_self_forward = ltb 1 (Room.subscriber_count room);
      same_kind =
          count_same_kind (source_is_video found source_ssrc) (Room.snapshot_publishers room);
    }

module _ {Dtls Srtp : Type 0} (p : Platform Dtls Srtp) where
  -- The endpoint and the SSRC of the subscriber's route, if it gets one.
  unfoldable pub route_to : Source → Subscriber → Option (Endpoint × ℕ)
  unfolding endpoint_text
  route_to source s =
      let text = endpoint_text source.is_video s in
      if source.skip_self_forward
        && (not (is_empty source.user_id) && text_beq s.user_id source.user_id)
      then none
      else if is_empty text
      then none
      else elim (parse_endpoint p.inet_pton text) [
        | none ↦ none
        | some endpoint ↦ some (
          endpoint,
          rewritten_ssrc source.meeting_id s.user_id source.source_ssrc
              (if source.is_video then s.video_ssrc else s.audio_ssrc) source.same_kind
              source.is_video,
        )
      ]

  unfoldable pub add_route : MediaIngress Dtls Srtp → ℕ → Endpoint × ℕ → MediaIngress Dtls Srtp
  add_route m source_ssrc (endpoint, rewritten) = record m {
    router = (Router.add_subscriber m.router source_ssrc rewritten (some (callback_of endpoint))).1;
    feedback_routes =
        insert (feedback_route_key p.inet_ntop endpoint rewritten) source_ssrc m.feedback_routes;
  }

  -- The loop over the subscribers.
  unfoldable pub add_routes :
      MediaIngress Dtls Srtp → Source → List (Option Subscriber) → MediaIngress Dtls Srtp
  add_routes m source [] = m
  add_routes m source (none ∷ rest) = add_routes m source rest
  add_routes m source (some s ∷ rest) =
      add_routes
        (elim (route_to source s) [ none ↦ m | some route ↦ add_route m source.source_ssrc route ])
        source rest

  unfoldable pub refresh_in_room : MediaIngress Dtls Srtp → Room → Text → ℕ → MediaIngress Dtls Srtp
  refresh_in_room m room meeting_id source_ssrc =
      let cleared = record m {
        feedback_routes = without_source m.feedback_routes source_ssrc;
        router = Router.remove_subscribers m.router source_ssrc;
      } in
      add_routes cleared (source_of room meeting_id source_ssrc) (Room.snapshot_subscribers room)

  unfoldable pub refresh_publisher_routes :
      MediaIngress Dtls Srtp → Text → ℕ → MediaIngress Dtls Srtp
  refresh_publisher_routes m meeting_id source_ssrc =
      if source_ssrc == 0 then m else elim (get_room m.rooms meeting_id) [
        | none ↦ m
        | some room ↦ refresh_in_room m room meeting_id source_ssrc
      ]

  -- The loop over the publishers. (A source 0 is skipped by the refreshing itself.)
  unfoldable pub refresh_all :
      MediaIngress Dtls Srtp → Text → List (Option Publisher) → MediaIngress Dtls Srtp
  refresh_all m meeting_id [] = m
  refresh_all m meeting_id (none ∷ rest) = refresh_all m meeting_id rest
  refresh_all m meeting_id (some publisher ∷ rest) =
      refresh_all
        (refresh_publisher_routes (refresh_publisher_routes m meeting_id publisher.audio_ssrc)
          meeting_id publisher.video_ssrc)
        meeting_id rest

  unfoldable pub refresh_room_routes : MediaIngress Dtls Srtp → Text → MediaIngress Dtls Srtp
  refresh_room_routes m meeting_id = elim (get_room m.rooms meeting_id) [
    | none ↦ m
    | some room ↦ refresh_all m meeting_id (Room.snapshot_publishers room)
  ]

module _ {Dtls Srtp : Type 0} where
  unfoldable pub remove_publisher_routes : MediaIngress Dtls Srtp → ℕ → MediaIngress Dtls Srtp
  remove_publisher_routes m source_ssrc = if source_ssrc == 0 then m else record m {
    router =
        Router.unregister_publisher (Router.remove_subscribers m.router source_ssrc) source_ssrc;
    feedback_routes = without_source m.feedback_routes source_ssrc;
    publisher_endpoints = erase source_ssrc m.publisher_endpoints;
    pli_forward_by_source = erase source_ssrc m.pli_forward_by_source;
    remb_feedback_by_source = erase source_ssrc m.remb_feedback_by_source;
    estimated_remb_by_source = erase source_ssrc m.estimated_remb_by_source;
  }
