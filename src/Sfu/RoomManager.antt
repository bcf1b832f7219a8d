-- ===== src/Sfu/RoomManager.antt =====
-- meeting-server/sfu/room/RoomManager. `GetRoom` hands out the room itself, so what a caller does to
-- the room is written back under the room's key (`with_room`). A pointer in the map is never null.
pub mod Invariant
pub mod Search
use meeting_system.Prelude.{
  ℕ, ◌+◌, Bool, true, false, List, [], ◌∷◌, Option, none, some, ◌||◌, ◌==◌, if◌then◌else◌, length,
}
use meeting_system.Prelude.Assoc.{Text, text_eq, is_empty, is_some, lookup, contains, insert, erase}
use meeting_system.Sfu.Room
use meeting_system.Sfu.Room.{Room, Publisher, keys_of}

pub record RoomManager : Type 0 where
  pub rooms : List (Text × Room)

abbrev pub empty : RoomManager
empty = record { rooms = [] }

unfoldable pub create_room : RoomManager → Text → ℕ → Bool × RoomManager
create_room m meeting_id max_publishers =
    if is_empty meeting_id || max_publishers == 0
    then (false, m)
    else if contains meeting_id m.rooms
    then (false, m)
    else (
      true,
      record m { rooms = insert meeting_id (Room.new_room meeting_id max_publishers) m.rooms },
    )

-- The room is cleared before it leaves the map; whoever still holds it sees it empty.
unfoldable pub destroy_room : RoomManager → Text → Bool × Option Room × RoomManager
destroy_room m meeting_id =
    if is_empty meeting_id then (false, none, m) else elim (lookup meeting_id m.rooms) [
      | none ↦ (false, none, m)
      | some room ↦ (true, some (Room.clear room), record m { rooms = erase meeting_id m.rooms })
    ]

-- A change to the room that the map holds under that key.
unfoldable pub with_room : RoomManager → Text → (Room → Bool × Room) → Bool × RoomManager
with_room m meeting_id f = elim (lookup meeting_id m.rooms) [
  | none ↦ (false, m)
  | some room ↦ ((f room).0, record m { rooms = insert meeting_id (f room).1 m.rooms })
]

unfoldable pub remove_participant : RoomManager → Text → Text → Bool × RoomManager
unfolding with_room
remove_participant m meeting_id user_id =
    if is_empty meeting_id || is_empty user_id
    then (false, m)
    else with_room m meeting_id (λ room. Room.remove_participant room user_id)

-- `GetRoom` and `GetRoomShared`.
unfoldable pub get_room : RoomManager → Text → Option Room
get_room m meeting_id = if is_empty meeting_id then none else lookup meeting_id m.rooms

-- The loop over the rooms: the first with that SSRC, the publisher in it, and its key.
unfoldable pub find_in_rooms : List (Text × Room) → ℕ → Option (Room × Publisher × Text × Text)
find_in_rooms [] ssrc = none
find_in_rooms ((meeting_id, room) ∷ rest) ssrc =
    let later = find_in_rooms rest ssrc in
    elim (Room.find_publisher_by_ssrc room ssrc) [
      | none ↦ later
      | some (publisher, user_id) ↦ some (room, publisher, user_id, meeting_id)
    ]

unfoldable pub find_publisher_by_ssrc : RoomManager → ℕ → Option (Room × Publisher × Text × Text)
find_publisher_by_ssrc m ssrc = if ssrc == 0 then none else find_in_rooms m.rooms ssrc

unfoldable pub has_room : RoomManager → Text → Bool
has_room m meeting_id = if is_empty meeting_id then false else contains meeting_id m.rooms

unfoldable pub room_count : RoomManager → ℕ
room_count m = length m.rooms

unfoldable pub count_publishers : List (Text × Room) → ℕ
count_publishers [] = 0
count_publishers ((meeting_id, room) ∷ rest) = Room.publisher_count room + count_publishers rest

unfoldable pub publisher_count : RoomManager → ℕ
unfolding count_publishers
publisher_count m = count_publishers m.rooms

unfoldable pub get_room_ids : RoomManager → List Text
get_room_ids m = keys_of m.rooms
