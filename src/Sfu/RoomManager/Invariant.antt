-- ===== src/Sfu/RoomManager/Invariant.antt =====
-- After any calls every room is in order, stands under its own name, and admits somebody.
use meeting_system.Prelude.{
  ℕ, ◌≡◌, ◌≢◌, refl, Bool, false, List, [], ◌∷◌, none, some, arith, ◌||◌, ◌==◌, inl, inr,
  Bool-cases, Option-cases,
}
use meeting_system.Prelude.Assoc.{Text, text_eq, is_empty, contains, lookup, insert, Unique}
use meeting_system.Prelude.Assoc.Laws.{
  Everywhere, Everywhere-nil, Everywhere-insert, Everywhere-erase, Unique-insert, Unique-erase,
}
use meeting_system.Sfu.Room
use meeting_system.Sfu.Room.{Room, publisher_count}
use meeting_system.Sfu.Room.Capacity.{
  IsRoom, new_room-IsRoom, Change, change, change-IsRoom, remove_participant-IsRoom,
}
use meeting_system.Sfu.RoomManager
use meeting_system.Sfu.RoomManager.{
  RoomManager, create_room, destroy_room, with_room, remove_participant, get_room, has_room,
  room_count,
}

abbrev pub IsHosted : Text → Room → Type 0
IsHosted meeting_id room =
    IsRoom room
    × (room.meeting_id ≡ meeting_id)
    × (room.max_publishers ≢ 0)
    × (is_empty meeting_id ≡ false)

pub record IsManager (m : RoomManager) : Type 0 where
  pub unique : Unique m.rooms
  pub hosted : Everywhere IsHosted m.rooms

-- What the rest of the SFU asks of the manager: `changes` is a change to a room through `GetRoom`.
pub data Call : Type 0 where
  creates : Text → ℕ → Call
  destroys : Text → Call
  removes : (meeting_id user_id : Text) → Call
  changes : Text → Change → Call

unfoldable pub call : RoomManager → Call → RoomManager
call m (creates meeting_id max_publishers) = (create_room m meeting_id max_publishers).1
call m (destroys meeting_id) = (destroy_room m meeting_id).2
call m (removes meeting_id user_id) = (remove_participant m meeting_id user_id).1
call m (changes meeting_id c) = (with_room m meeting_id (λ room. change room c)).1

insert-IsManager :
    (m : RoomManager) (meeting_id : Text) (room : Room)
    → IsManager m
    → IsHosted meeting_id room
    → IsManager (record m { rooms = insert meeting_id room m.rooms })
insert-IsManager m meeting_id room v h = record {
  unique = Unique-insert meeting_id room m.rooms v.unique;
  hosted = Everywhere-insert IsHosted meeting_id room m.rooms h v.hosted;
}

-- A room that keeps its name and its limit.
unfoldable pub Keeps : Room → Room → Type 0
Keeps room room' =
    (room'.meeting_id ≡ room.meeting_id) × (room'.max_publishers ≡ room.max_publishers)

pub change-Keeps : (room : Room) (c : Change) → Keeps room (change room c).1
unfolding Keeps change Room.add_publisher Room.remove_publisher Room.add_subscriber
    Room.remove_subscriber Room.remove_participant Room.clear
change-Keeps room (Change.adds_publisher none) = (refl, refl)
change-Keeps room (Change.adds_publisher (some p)) = ground arith
change-Keeps room (Change.adds_subscriber none) = (refl, refl)
change-Keeps room (Change.adds_subscriber (some s)) = ground arith
change-Keeps room c = ground arith

pub with_room-IsManager :
    (m : RoomManager) (meeting_id : Text) (f : Room → Bool × Room)
    → ((room : Room) → IsRoom room → IsRoom (f room).1 × Keeps room (f room).1)
    → IsManager m
    → IsManager (with_room m meeting_id f).1
unfolding with_room Keeps
with_room-IsManager m meeting_id f keep v = elim (Option-cases (lookup meeting_id m.rooms)) [
  | inl e ↦ rw (e, with_room) v
  | inr (room, e) ↦
      let h : IsHosted meeting_id room = v.hosted meeting_id room e in
      let k : IsRoom (f room).1 × Keeps room (f room).1 = keep room h.0 in
      rw (e, with_room)
        (insert-IsManager m meeting_id (f room).1 v (k.0, ground arith, ground arith, h.3))
]

create_room-IsManager :
    (m : RoomManager) (meeting_id : Text) (max_publishers : ℕ)
    → IsManager m
    → IsManager (create_room m meeting_id max_publishers).1
unfolding create_room
create_room-IsManager m meeting_id max_publishers v =
    elim (Bool-cases (is_empty meeting_id || max_publishers == 0)) [
      | inl refused ↦ rw refused v
      | inr named ↦ rw named (elim (Bool-cases (contains meeting_id m.rooms)) [
        | inl old ↦ rw old v
        | inr new ↦ rw new (
            insert-IsManager m meeting_id _ v (
              new_room-IsRoom meeting_id max_publishers,
              unfold Room.new_room in refl,
              unfold Room.new_room in λ e. ground arith,
              ground arith,
            ))
      ])
    ]

destroy_room-IsManager :
    (m : RoomManager) (meeting_id : Text) → IsManager m → IsManager (destroy_room m meeting_id).2
unfolding destroy_room
destroy_room-IsManager m [] v = v
destroy_room-IsManager m (c ∷ cs) v = elim (Option-cases (lookup (c ∷ cs) m.rooms)) [
  | inl e ↦ rw (e, destroy_room) v
  | inr (room, e) ↦
      rw (e, destroy_room)
        (record {
          unique = Unique-erase (c ∷ cs) m.rooms v.unique;
          hosted = Everywhere-erase IsHosted (c ∷ cs) m.rooms v.hosted;
        })
]

remove_participant-IsManager :
    (m : RoomManager) (meeting_id user_id : Text)
    → IsManager m
    → IsManager (remove_participant m meeting_id user_id).1
unfolding remove_participant
remove_participant-IsManager m meeting_id user_id v =
    elim (Bool-cases (is_empty meeting_id || is_empty user_id)) [
      | inl refused ↦ rw refused v
      | inr named ↦ rw named (
          with_room-IsManager m meeting_id (λ room. Room.remove_participant room user_id)
            (λ room k. (
              remove_participant-IsRoom room user_id k,
              unfold change in change-Keeps room (Change.removes_participant user_id),
            ))
            v)
    ]

-- Every call keeps the invariant.
pub call-IsManager : (m : RoomManager) (c : Call) → IsManager m → IsManager (call m c)
unfolding call
call-IsManager m (creates meeting_id max_publishers) v =
    create_room-IsManager m meeting_id max_publishers v
call-IsManager m (destroys meeting_id) v = destroy_room-IsManager m meeting_id v
call-IsManager m (removes meeting_id user_id) v =
    remove_participant-IsManager m meeting_id user_id v
call-IsManager m (changes meeting_id c) v =
    with_room-IsManager m meeting_id (λ room. change room c)
      (λ room k. (change-IsRoom room c k, change-Keeps room c)) v

unfoldable pub run : RoomManager → List Call → RoomManager
run m [] = m
run m (c ∷ cs) = run (call m c) cs

run-IsManager : (m : RoomManager) (cs : List Call) → IsManager m → IsManager (run m cs)
unfolding run
run-IsManager m [] v = v
run-IsManager m (c ∷ cs) v = run-IsManager (call m c) cs (call-IsManager m c v)

-- After any calls to an empty manager the meetings are distinct, and every room is in order, stands
-- under its own name, which is not empty, and has a limit that is not 0: it holds at most that many
-- publishers.
pub run-empty-IsManager : (cs : List Call) → IsManager (run RoomManager.empty cs)
run-empty-IsManager cs =
    run-IsManager _ cs (record { unique = tt; hosted = Everywhere-nil IsHosted })
