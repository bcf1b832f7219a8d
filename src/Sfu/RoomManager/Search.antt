-- ===== src/Sfu/RoomManager/Search.antt =====
-- What the manager answers after its methods, its search by SSRC, and its count of publishers.
use mathlib.Core.List.{Perm}
use meeting_system.Prelude.{
  ℕ, ◌+◌, ◌≤◌, ◌≡◌, Option, ◌≢◌, true, List, [], ◌∷◌, none, some, arith, not, ◌&&◌, ◌==◌,
  if◌then◌else◌,
}
use meeting_system.Prelude.Assoc.{
  Text, text_eq, text_beq, text_beq_iff, is_empty, is_some, lookup, keys, Unique,
}
use meeting_system.Prelude.Assoc.Laws.{
  lookup-insert, lookup-erase, contains-lookup, Everywhere, Everywhere-head, Everywhere-tail,
}
use meeting_system.Prelude.Sort.{IsSorted, sort-IsSorted, sort-perm}
use meeting_system.Sfu.Room
use meeting_system.Sfu.Room.{Room, Publisher, sends, get_publisher, keys_of}
use meeting_system.Sfu.Room.Lookup.{find_publisher_by_ssrc_sound, find_publisher_by_ssrc_complete}
use meeting_system.Sfu.RoomManager.{
  RoomManager, create_room, destroy_room, get_room, has_room, find_in_rooms, find_publisher_by_ssrc,
  count_publishers, publisher_count, get_room_ids,
}
use meeting_system.Sfu.RoomManager.Invariant.{IsManager, IsHosted}

-- `CreateRoom` succeeds exactly for a new name with a limit. Then that name has an empty room with
-- the limit, and every other name what it had; else nothing changes.
pub create_room_lem :
    (m : RoomManager) (meeting_id : Text) (max_publishers : ℕ) (other : Text)
    → let (made, m') = create_room m meeting_id max_publishers in
      (made
        ≡ (not (is_empty meeting_id) && (not (max_publishers == 0) && not (has_room m meeting_id))))
      × (get_room m' other ≡ (
          if made && text_beq meeting_id other
          then some (Room.new_room meeting_id max_publishers)
          else get_room m other))
unfolding create_room get_room has_room
create_room_lem m meeting_id max_publishers other = ground (
  arith,
  text_beq_iff meeting_id other,
  lookup-insert meeting_id other (Room.new_room meeting_id max_publishers) m.rooms,
)

-- Of a room that someone still holds: it has no participant.
abbrev pub IsCleared : Option Room → Type 0
IsCleared none = Unit {0}
IsCleared (some room) = (room.publishers ≡ []) × (room.subscribers ≡ [])

-- `DestroyRoom` succeeds exactly for a room that is there. Then the room is gone, every other is what
-- it was, and those who still hold the room see no participant in it.
pub destroy_room_lem :
    (m : RoomManager) (meeting_id other : Text)
    → let (gone, held, m') = destroy_room m meeting_id in
      (gone ≡ has_room m meeting_id)
      × (get_room m' other ≡ (if text_beq meeting_id other then none else get_room m other))
      × IsCleared held
unfolding destroy_room get_room has_room Room.clear
destroy_room_lem m [] other = ground (arith, text_beq_iff [] other)
destroy_room_lem m (c ∷ cs) other = ground (
  arith,
  text_beq_iff (c ∷ cs) other,
  contains-lookup (c ∷ cs) m.rooms,
  lookup-erase (c ∷ cs) other m.rooms,
)

-- The sum of the rooms' limits.
pub capacity : List (Text × Room) → ℕ
capacity [] = 0
capacity ((meeting_id, room) ∷ rest) = room.max_publishers + capacity rest

count_publishers-le :
    (rooms : List (Text × Room))
    → Unique rooms
    → Everywhere IsHosted rooms
    → count_publishers rooms ≤ capacity rooms
unfolding count_publishers capacity Room.publisher_count
count_publishers-le [] u h = omega arith
count_publishers-le ((meeting_id, room) ∷ rest) u h =
    let hosted : IsHosted meeting_id room = Everywhere-head IsHosted meeting_id room rest h in
    omega (
      arith,
      hosted.0.capacity hosted.2,
      count_publishers-le rest u.1 (Everywhere-tail IsHosted meeting_id room rest u.0 h),
    )

-- The manager never counts more publishers than its rooms admit together.
pub publisher_count-le : (m : RoomManager) → IsManager m → publisher_count m ≤ capacity m.rooms
unfolding publisher_count
publisher_count-le m v = count_publishers-le m.rooms v.unique v.hosted

find_in_rooms_sound :
    (rooms : List (Text × Room)) (ssrc : ℕ) (room : Room) (p : Publisher)
    (user_id meeting_id : Text)
    → Unique rooms
    → find_in_rooms rooms ssrc ≡ some (room, p, user_id, meeting_id)
    → (lookup meeting_id rooms ≡ some room)
      × (Room.find_publisher_by_ssrc room ssrc ≡ some (p, user_id))
unfolding find_in_rooms lookup
find_in_rooms_sound [] ssrc room p user_id meeting_id u e = ground arith
find_in_rooms_sound ((j, r) ∷ rest) ssrc room p user_id meeting_id u e = ground (
  arith,
  find_in_rooms_sound rest ssrc room p user_id meeting_id u.1,
  contains-lookup j rest,
  text_beq_iff j meeting_id,
)

find_in_rooms_complete :
    (rooms : List (Text × Room)) (ssrc : ℕ) (room : Room) (meeting_id : Text)
    → lookup meeting_id rooms ≡ some room
    → is_some (Room.find_publisher_by_ssrc room ssrc) ≡ true
    → is_some (find_in_rooms rooms ssrc) ≡ true
unfolding find_in_rooms lookup
find_in_rooms_complete [] ssrc room meeting_id e f = ground arith
find_in_rooms_complete ((j, r) ∷ rest) ssrc room meeting_id e f =
    ground (arith, find_in_rooms_complete rest ssrc room meeting_id)

find_in_rooms_lem :
    (m : RoomManager) (ssrc : ℕ) (room : Room) (p : Publisher) (user_id meeting_id : Text)
    → IsManager m
    → find_publisher_by_ssrc m ssrc ≡ some (room, p, user_id, meeting_id)
    → (lookup meeting_id m.rooms ≡ some room)
      × (Room.find_publisher_by_ssrc room ssrc ≡ some (p, user_id))
unfolding find_publisher_by_ssrc
find_in_rooms_lem m ssrc room p user_id meeting_id v e =
    ground (arith, find_in_rooms_sound m.rooms ssrc room p user_id meeting_id v.unique)

-- In a manager in order, what the search over all rooms finds is a publisher that sends the SSRC, in
-- a room that the manager hosts under that name.
pub find_publisher_by_ssrc-hosted :
    (m : RoomManager) (ssrc : ℕ) (room : Room) (p : Publisher) (user_id meeting_id : Text)
    → IsManager m
    → find_publisher_by_ssrc m ssrc ≡ some (room, p, user_id, meeting_id)
    → (get_room m meeting_id ≡ some room)
      × (get_publisher room user_id ≡ some p)
      × (sends p ssrc ≡ true)
unfolding get_room
find_publisher_by_ssrc-hosted m ssrc room p user_id meeting_id v e =
    let (held, found) = find_in_rooms_lem m ssrc room p user_id meeting_id v e in
    let hosted : IsHosted meeting_id room = v.hosted meeting_id room held in
    let (here, sent, _) = find_publisher_by_ssrc_sound room ssrc p user_id hosted.0 found in
    (rw hosted.3 held, here, sent)

-- The search for an SSRC other than 0 finds something whenever some room of the manager holds a
-- publisher that sends it.
pub find_publisher_by_ssrc-somewhere :
    (m : RoomManager) (ssrc : ℕ) (room : Room) (p : Publisher) (user_id meeting_id : Text)
    → ssrc ≢ 0
    → get_room m meeting_id ≡ some room
    → get_publisher room user_id ≡ some p
    → sends p ssrc ≡ true
    → is_some (find_publisher_by_ssrc m ssrc) ≡ true
unfolding find_publisher_by_ssrc get_room
find_publisher_by_ssrc-somewhere m ssrc room p user_id meeting_id nonzero held here sent =
    let there : lookup meeting_id m.rooms ≡ some room = ground arith in
    ground (
      arith,
      find_in_rooms_complete m.rooms ssrc room meeting_id there
          (find_publisher_by_ssrc_complete room ssrc p user_id nonzero here sent),
    )

-- The ids that the manager reports are the keys of its map, in order.
pub get_room_ids_lem :
    (m : RoomManager) → IsSorted (get_room_ids m) × Perm (get_room_ids m) (keys m.rooms)
unfolding get_room_ids keys_of
get_room_ids_lem m = (sort-IsSorted (keys m.rooms), sort-perm (keys m.rooms))
