-- ===== src/Sfu/Room/Lookup.antt =====
-- What a room answers after its methods, and its search by SSRC.
use mathlib.Core.List.{Perm}
use meeting_system.Prelude.{
  ℕ, ◌≡◌, ◌≢◌, ◌⊎◌, Bool, true, false, [], ◌∷◌, none, some, arith, not, ◌&&◌, ◌||◌, ltb, ◌==◌,
  if◌then◌else◌, length,
}
use meeting_system.Prelude.Assoc.{
  Text, text_eq, text_beq, text_beq_iff, contains, lookup, Unique, is_empty, keys, is_some,
}
use meeting_system.Prelude.Assoc.Laws.{lookup-insert, lookup-erase, contains-lookup}
use meeting_system.Prelude.Sort.{IsSorted, sort-IsSorted, sort-perm}
use meeting_system.Sfu.Room.{
  Publisher, Room, add_publisher, get_publisher, get_subscriber, remove_participant,
  find_publisher_by_ssrc, find_ssrc, sends, keys_of, get_publisher_ids, PublisherMap,
}
use meeting_system.Sfu.Room.Capacity.{IsRoom}

-- A room admits a publisher with a name if it knows the name, has no limit, or is not full.
abbrev pub admits : Room → Publisher → Bool
admits r p =
    not (is_empty p.user_id)
    && (contains p.user_id r.publishers
        || (r.max_publishers == 0 || ltb (length r.publishers) r.max_publishers))

-- `AddPublisher` succeeds exactly when the room admits the publisher. Then the room answers with it
-- under its name, and as before under every other; else the room stays as it was.
pub add_publisher_lem :
    (r : Room) (p : Publisher) (user_id : Text)
    → ((add_publisher r (some p)).0 ≡ admits r p)
      × (get_publisher (add_publisher r (some p)).1 user_id
          ≡ (if admits r p && text_beq p.user_id user_id then some p else get_publisher r user_id))
      × ((admits r p ≡ true) ⊎ ((add_publisher r (some p)).1 ≡ r))
unfolding add_publisher get_publisher
add_publisher_lem r p user_id =
    ground
      (arith, text_beq_iff p.user_id user_id, lookup-insert p.user_id user_id (some p) r.publishers)

-- After `RemoveParticipant` the user is neither a publisher nor a subscriber, and every other user is
-- what it was; it answers whether the user was either.
pub remove_participant_lem :
    (r : Room) (user_id other : Text)
    → is_empty user_id ≡ false
    → let (found, r') = remove_participant r user_id in
      (found ≡ (contains user_id r.publishers || contains user_id r.subscribers))
      × (get_publisher r' other ≡ (if text_beq user_id other then none else get_publisher r other))
      × (get_subscriber r' other
          ≡ (if text_beq user_id other then none else get_subscriber r other))
unfolding remove_participant get_publisher get_subscriber
remove_participant_lem r user_id other h = ground (
  arith,
  text_beq_iff user_id other,
  lookup-erase user_id other r.publishers,
  lookup-erase user_id other r.subscribers,
)

-- An entry with that SSRC.
abbrev pub Found : PublisherMap → ℕ → Publisher × Text → Type 0
Found m ssrc (p, user_id) = (lookup user_id m ≡ some (some p)) × (sends p ssrc ≡ true)

find_ssrc_sound :
    (m : PublisherMap) (ssrc : ℕ) (p : Publisher) (user_id : Text)
    → Unique m
    → find_ssrc m ssrc ≡ some (p, user_id)
    → Found m ssrc (p, user_id)
unfolding find_ssrc lookup
find_ssrc_sound [] ssrc p user_id u e = ground arith
find_ssrc_sound ((j, none) ∷ m) ssrc p user_id u e =
    ground
      (arith, find_ssrc_sound m ssrc p user_id u.1 e, contains-lookup j m, text_beq_iff j user_id)
find_ssrc_sound ((j, some q) ∷ m) ssrc p user_id u e =
    ground
      (arith, find_ssrc_sound m ssrc p user_id u.1, contains-lookup j m, text_beq_iff j user_id)

find_ssrc_complete :
    (m : PublisherMap) (ssrc : ℕ) (p : Publisher) (user_id : Text)
    → Found m ssrc (p, user_id)
    → is_some (find_ssrc m ssrc) ≡ true
unfolding find_ssrc lookup
find_ssrc_complete [] ssrc p user_id found = ground arith
find_ssrc_complete ((j, none) ∷ m) ssrc p user_id found =
    ground (arith, find_ssrc_complete m ssrc p user_id)
find_ssrc_complete ((j, some q) ∷ m) ssrc p user_id found =
    ground (arith, find_ssrc_complete m ssrc p user_id)

named_key :
    (r : Room) (p : Publisher) (user_id : Text)
    → IsRoom r
    → lookup user_id r.publishers ≡ some (some p)
    → is_empty user_id ≡ false
named_key r p user_id v e = (v.named user_id (some p) e).3

-- In a room in order, what the search finds is a publisher that the room holds under that name and
-- that sends the SSRC; the SSRC is not 0.
pub find_publisher_by_ssrc_sound :
    (r : Room) (ssrc : ℕ) (p : Publisher) (user_id : Text)
    → IsRoom r
    → find_publisher_by_ssrc r ssrc ≡ some (p, user_id)
    → (get_publisher r user_id ≡ some p) × (sends p ssrc ≡ true) × (ssrc ≢ 0)
unfolding find_publisher_by_ssrc get_publisher
find_publisher_by_ssrc_sound r ssrc p user_id v e =
    ground
      (arith, find_ssrc_sound r.publishers ssrc p user_id v.publishers, named_key r p user_id v)

-- The search for an SSRC other than 0 finds something whenever the room holds a publisher that sends
-- it.
pub find_publisher_by_ssrc_complete :
    (r : Room) (ssrc : ℕ) (p : Publisher) (user_id : Text)
    → ssrc ≢ 0
    → get_publisher r user_id ≡ some p
    → sends p ssrc ≡ true
    → is_some (find_publisher_by_ssrc r ssrc) ≡ true
unfolding find_publisher_by_ssrc get_publisher
find_publisher_by_ssrc_complete r ssrc p user_id h e s =
    ground (arith, find_ssrc_complete r.publishers ssrc p user_id)

-- The ids that a room reports are the keys of its map, in order.
pub get_publisher_ids_lem :
    (r : Room) → IsSorted (get_publisher_ids r) × Perm (get_publisher_ids r) (keys r.publishers)
unfolding get_publisher_ids keys_of
get_publisher_ids_lem r = (sort-IsSorted (keys r.publishers), sort-perm (keys r.publishers))
