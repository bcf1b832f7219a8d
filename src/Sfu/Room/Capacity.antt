-- ===== src/Sfu/Room/Capacity.antt =====
-- The invariant of a room: distinct users, no null pointers, every publisher under its own name,
-- and no more publishers than the room admits.
use native.Mathlib.Nat.{le_trans}
use meeting_system.Prelude.{
  ℕ, ◌≤◌, ◌<◌, ◌≡◌, ◌≢◌, refl, Bool, true, false, [], ◌∷◌, Option, none, some, arith, not, ◌&&◌,
  leb, ◌==◌, length, inl, inr, Bool-cases,
}
use meeting_system.Prelude.Assoc.{Text, text_eq, contains, Unique, is_empty, insert, erase}
use meeting_system.Prelude.Assoc.Laws.{
  Unique-insert, Unique-erase, length-insert, length-erase, Everywhere, Everywhere-nil,
  Everywhere-insert, Everywhere-erase,
}
use meeting_system.Sfu.Room.{
  Publisher, Subscriber, Room, new_room, add_publisher, remove_publisher, add_subscriber,
  remove_subscriber, remove_participant, clear, publisher_empty, PublisherMap, SubscriberMap,
  subscriber_empty,
}

-- An entry holds a publisher of that name.
abbrev pub IsNamed : Text → Option Publisher → Type 0
IsNamed user_id entry =
    (p : Publisher) × (entry ≡ some p) × (p.user_id ≡ user_id) × (is_empty user_id ≡ false)

pub record IsRoom (r : Room) : Type 0 where
  pub publishers : Unique r.publishers
  pub subscribers : Unique r.subscribers
  pub named : Everywhere IsNamed r.publishers
  pub capacity : r.max_publishers ≢ 0 → length r.publishers ≤ r.max_publishers

pub new_room-IsRoom :
    (meeting_id : Text) (max_publishers : ℕ) → IsRoom (new_room meeting_id max_publishers)
unfolding new_room
new_room-IsRoom meeting_id max_publishers = record {
  publishers = tt;
  subscribers = tt;
  named = Everywhere-nil IsNamed;
  capacity = λ h. omega arith;
}

insert-IsRoom :
    (r : Room) (p : Publisher)
    → IsRoom r
    → publisher_empty p ≡ false
    → (contains p.user_id r.publishers ≡ false
        → r.max_publishers ≢ 0
        → length r.publishers < r.max_publishers)
    → IsRoom (record r { publishers = insert p.user_id (some p) r.publishers })
insert-IsRoom r p v named room = record {
  publishers = Unique-insert p.user_id (some p) r.publishers v.publishers;
  subscribers = v.subscribers;
  named = Everywhere-insert IsNamed p.user_id (some p) r.publishers (p, refl, refl, named) v.named;
  capacity = λ limited. grow (v.capacity limited) (λ absent. room absent limited);
}
  where
    grow :
        length r.publishers ≤ r.max_publishers
        → (contains p.user_id r.publishers ≡ false → length r.publishers < r.max_publishers)
        → length (insert p.user_id (some p) r.publishers) ≤ r.max_publishers
    grow h k = elim (Bool-cases (contains p.user_id r.publishers)) [
      | inl present ↦ ground (arith, present, length-insert p.user_id (some p) r.publishers)
      | inr absent ↦ ground (arith, absent, k absent, length-insert p.user_id (some p) r.publishers)
    ]

pub add_publisher-IsRoom :
    (r : Room) (publisher : Option Publisher) → IsRoom r → IsRoom (add_publisher r publisher).1
unfolding add_publisher
add_publisher-IsRoom r none v = v
add_publisher-IsRoom r (some p) v = elim (Bool-cases (publisher_empty p)) [
  | inl empty ↦ rw empty v
  | inr named ↦ rw named (elim (Bool-cases (contains p.user_id r.publishers)) [
    | inl present ↦ rw present (insert-IsRoom r p v named (λ absent. absurd (clash present absent)))
    | inr absent ↦
        elim (Bool-cases
          (not (r.max_publishers == 0) && leb r.max_publishers (length r.publishers))) [
            | inl full ↦ rw (absent, full) v
            | inr room ↦ rw (absent, room) (insert-IsRoom r p v named (λ _ limited. ground arith))
          ]
  ])
]
  where
    clash : contains p.user_id r.publishers ≡ true → contains p.user_id r.publishers ≡ false → ⊥
    clash a b = cc

length-erase-le :
    (user_id : Text) (m : PublisherMap) → Unique m → length (erase user_id m) ≤ length m
length-erase-le user_id m u = omega (arith, length-erase user_id m u)

erase-IsRoom :
    (r : Room) (user_id : Text) (subscribers : SubscriberMap)
    → IsRoom r
    → Unique subscribers
    → IsRoom (record r { publishers = erase user_id r.publishers; subscribers = subscribers })
erase-IsRoom r user_id subscribers v u = record {
  publishers = Unique-erase user_id r.publishers v.publishers;
  subscribers = u;
  named = Everywhere-erase IsNamed user_id r.publishers v.named;
  capacity =
      λ limited. le_trans (length-erase-le user_id r.publishers v.publishers) (v.capacity limited);
}

pub remove_publisher-IsRoom :
    (r : Room) (user_id : Text) → IsRoom r → IsRoom (remove_publisher r user_id).1
unfolding remove_publisher
remove_publisher-IsRoom r [] v = v
remove_publisher-IsRoom r (c ∷ cs) v = erase-IsRoom r (c ∷ cs) r.subscribers v v.subscribers

subscribers-IsRoom :
    (r : Room) (subscribers : SubscriberMap)
    → IsRoom r
    → Unique subscribers
    → IsRoom (record r { subscribers = subscribers })
subscribers-IsRoom r subscribers v u = record {
  publishers = v.publishers;
  subscribers = u;
  named = v.named;
  capacity = v.capacity;
}

pub add_subscriber-IsRoom :
    (r : Room) (subscriber : Option Subscriber) → IsRoom r → IsRoom (add_subscriber r subscriber).1
unfolding add_subscriber
add_subscriber-IsRoom r none v = v
add_subscriber-IsRoom r (some s) v = elim (Bool-cases (subscriber_empty s)) [
  | inl empty ↦ rw empty v
  | inr named ↦
      rw named
        (subscribers-IsRoom r _ v (Unique-insert s.user_id (some s) r.subscribers v.subscribers))
]

pub remove_subscriber-IsRoom :
    (r : Room) (user_id : Text) → IsRoom r → IsRoom (remove_subscriber r user_id).1
unfolding remove_subscriber
remove_subscriber-IsRoom r [] v = v
remove_subscriber-IsRoom r (c ∷ cs) v =
    subscribers-IsRoom r _ v (Unique-erase (c ∷ cs) r.subscribers v.subscribers)

pub remove_participant-IsRoom :
    (r : Room) (user_id : Text) → IsRoom r → IsRoom (remove_participant r user_id).1
unfolding remove_participant
remove_participant-IsRoom r [] v = v
remove_participant-IsRoom r (c ∷ cs) v =
    erase-IsRoom r (c ∷ cs) _ v (Unique-erase (c ∷ cs) r.subscribers v.subscribers)

pub clear-IsRoom : (r : Room) → IsRoom r → IsRoom (clear r)
unfolding clear
clear-IsRoom r v = record {
  publishers = tt;
  subscribers = tt;
  named = Everywhere-nil IsNamed;
  capacity = λ h. omega arith;
}

-- The methods that change a room.
pub data Change : Type 0 where
  adds_publisher : Option Publisher → Change
  removes_publisher removes_subscriber removes_participant : Text → Change
  adds_subscriber : Option Subscriber → Change
  clears : Change

unfoldable pub change : Room → Change → Bool × Room
change r (adds_publisher p) = add_publisher r p
change r (removes_publisher user_id) = remove_publisher r user_id
change r (removes_subscriber user_id) = remove_subscriber r user_id
change r (removes_participant user_id) = remove_participant r user_id
change r (adds_subscriber s) = add_subscriber r s
change r clears = (true, clear r)

-- Every method that changes a room keeps it in order: no user is twice a publisher or twice a
-- subscriber, every publisher stands under its own name, and a room with a limit stays within it.
pub change-IsRoom : (r : Room) (c : Change) → IsRoom r → IsRoom (change r c).1
unfolding change
change-IsRoom r (adds_publisher p) v = add_publisher-IsRoom r p v
change-IsRoom r (removes_publisher user_id) v = remove_publisher-IsRoom r user_id v
change-IsRoom r (removes_subscriber user_id) v = remove_subscriber-IsRoom r user_id v
change-IsRoom r (removes_participant user_id) v = remove_participant-IsRoom r user_id v
change-IsRoom r (adds_subscriber s) v = add_subscriber-IsRoom r s v
change-IsRoom r clears v = clear-IsRoom r v
