-- ===== src/Sfu/Room.antt =====
-- meeting-server/sfu/room/Publisher, Subscriber and Room. A `std::shared_ptr` in a map is an
-- `Option`, `none` for a null pointer; a method holds the room's mutex from beginning to end, so a
-- call is one step.
pub mod Capacity
pub mod Lookup
use meeting_system.Prelude.{
  ℕ, Bool, true, false, List, [], ◌∷◌, Option, none, some, not, ◌&&◌, ◌||◌, leb, ◌==◌,
  if◌then◌else◌, length,
}
use meeting_system.Prelude.Assoc.{
  Text, text_eq, is_empty, lookup, contains, insert, erase, keys, values,
}
use meeting_system.Prelude.Sort.{sort}

pub record Publisher : Type 0 where
  pub user_id : Text
  pub audio_ssrc : ℕ
  pub video_ssrc : ℕ

abbrev pub publisher_empty : Publisher → Bool
publisher_empty p = is_empty p.user_id

pub record Subscriber : Type 0 where
  pub user_id : Text
  pub endpoint : Text
  pub audio_endpoint : Text
  pub video_endpoint : Text
  pub audio_ssrc : ℕ
  pub video_ssrc : ℕ

-- The constructor leaves the two media endpoints empty.
unfoldable pub new_subscriber : Text → Text → ℕ → ℕ → Subscriber
new_subscriber user_id endpoint audio_ssrc video_ssrc = record {
  user_id = user_id;
  endpoint = endpoint;
  audio_endpoint = [];
  video_endpoint = [];
  audio_ssrc = audio_ssrc;
  video_ssrc = video_ssrc;
}

abbrev pub subscriber_empty : Subscriber → Bool
subscriber_empty s = is_empty s.user_id

abbrev pub PublisherMap : Type 0
PublisherMap = List (Text × Option Publisher)

abbrev pub SubscriberMap : Type 0
SubscriberMap = List (Text × Option Subscriber)

pub record Room : Type 0 where
  pub meeting_id : Text
  pub max_publishers : ℕ
  pub publishers : PublisherMap
  pub subscribers : SubscriberMap

unfoldable pub new_room : Text → ℕ → Room
new_room meeting_id max_publishers = record {
  meeting_id = meeting_id;
  max_publishers = max_publishers;
  publishers = [];
  subscribers = [];
}

unfoldable pub publisher_count : Room → ℕ
publisher_count r = length r.publishers

unfoldable pub subscriber_count : Room → ℕ
subscriber_count r = length r.subscribers

unfoldable pub add_publisher : Room → Option Publisher → Bool × Room
add_publisher r none = (false, r)
add_publisher r (some p) =
    if publisher_empty p
    then (false, r)
    else if contains p.user_id r.publishers
    then (true, record r { publishers = insert p.user_id (some p) r.publishers })
    else if not (r.max_publishers == 0) && leb r.max_publishers (length r.publishers)
    then (false, r)
    else (true, record r { publishers = insert p.user_id (some p) r.publishers })

unfoldable pub remove_publisher : Room → Text → Bool × Room
remove_publisher r user_id =
    if is_empty user_id
    then (false, r)
    else (contains user_id r.publishers, record r { publishers = erase user_id r.publishers })

-- A null pointer in the map, and a missing entry, are both the null pointer.
abbrev pub flatten {ℓ} : {A : Type ℓ} → Option (Option A) → Option A
flatten none = none
flatten (some o) = o

unfoldable pub get_publisher : Room → Text → Option Publisher
get_publisher r user_id = if is_empty user_id then none else flatten (lookup user_id r.publishers)

abbrev pub sends : Publisher → ℕ → Bool
sends p ssrc = p.audio_ssrc == ssrc || p.video_ssrc == ssrc

-- The loop over the map: the first publisher with that SSRC, and its key.
unfoldable pub find_ssrc : PublisherMap → ℕ → Option (Publisher × Text)
find_ssrc [] ssrc = none
find_ssrc ((user_id, none) ∷ rest) ssrc = find_ssrc rest ssrc
find_ssrc ((user_id, some p) ∷ rest) ssrc =
    let later = find_ssrc rest ssrc in if sends p ssrc then some (p, user_id) else later

unfoldable pub find_publisher_by_ssrc : Room → ℕ → Option (Publisher × Text)
find_publisher_by_ssrc r ssrc = if ssrc == 0 then none else find_ssrc r.publishers ssrc

unfoldable pub keys_of {ℓ} : {V : Type ℓ} → List (Text × V) → List Text
keys_of m = sort (keys m)

unfoldable pub get_publisher_ids : Room → List Text
get_publisher_ids r = keys_of r.publishers

unfoldable pub snapshot_publishers : Room → List (Option Publisher)
snapshot_publishers r = values r.publishers

unfoldable pub add_subscriber : Room → Option Subscriber → Bool × Room
add_subscriber r none = (false, r)
add_subscriber r (some s) =
    if subscriber_empty s
    then (false, r)
    else (true, record r { subscribers = insert s.user_id (some s) r.subscribers })

unfoldable pub remove_subscriber : Room → Text → Bool × Room
remove_subscriber r user_id =
    if is_empty user_id
    then (false, r)
    else (contains user_id r.subscribers, record r { subscribers = erase user_id r.subscribers })

unfoldable pub get_subscriber : Room → Text → Option Subscriber
get_subscriber r user_id = if is_empty user_id then none else flatten (lookup user_id r.subscribers)

unfoldable pub get_subscriber_ids : Room → List Text
get_subscriber_ids r = keys_of r.subscribers

unfoldable pub snapshot_subscribers : Room → List (Option Subscriber)
snapshot_subscribers r = values r.subscribers

unfoldable pub remove_participant : Room → Text → Bool × Room
remove_participant r user_id = if is_empty user_id then (false, r) else (
  contains user_id r.publishers || contains user_id r.subscribers,
  record r { publishers = erase user_id r.publishers; subscribers = erase user_id r.subscribers },
)

unfoldable pub clear : Room → Room
clear r = record r { publishers = []; subscribers = [] }
