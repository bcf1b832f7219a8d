-- ===== src/Sfu/Ingress/Traffic.antt =====
-- meeting-server/sfu/server/MediaIngress: SnapshotPublisherTraffic.
use mathlib.Core.List.{Perm}
use mathlib.Core.List.Perm
use meeting_system.Prelude.{
  ◌≡◌, Bool, true, false, List, [], ◌∷◌, none, some, not, inl, inr, Bool-cases, if◌then◌else◌,
}
use meeting_system.Prelude.Assoc.{Text, is_some, text_beq}
use meeting_system.Prelude.Sort.{text_leb}
use meeting_system.Sfu.Room
use meeting_system.Sfu.RoomManager.{RoomManager, get_room}
use meeting_system.Sfu.Ingress.State.{MediaIngress, PublisherTrafficCounters}

-- Whether the room of the counters is there, with their user as a publisher.
unfoldable pub is_live : RoomManager → PublisherTrafficCounters → Bool
is_live rooms counters = elim (get_room rooms counters.meeting_id) [
  | none ↦ false
  | some room ↦ is_some (Room.get_publisher room counters.user_id)
]

-- The loop: the counters that are not live are erased.
unfoldable pub live_traffic :
    RoomManager → List (Text × PublisherTrafficCounters) → List (Text × PublisherTrafficCounters)
live_traffic rooms [] = []
live_traffic rooms ((k, counters) ∷ rest) =
    let later = live_traffic rooms rest in
    if is_live rooms counters then (k, counters) ∷ later else later

unfoldable pub counters_of : List (Text × PublisherTrafficCounters) → List PublisherTrafficCounters
counters_of [] = []
counters_of ((k, counters) ∷ rest) = counters ∷ counters_of rest

-- The order of the snapshots: by meeting, then by user.
unfoldable pub is_before : PublisherTrafficCounters → PublisherTrafficCounters → Bool
is_before left right =
    if not (text_beq left.meeting_id right.meeting_id)
    then not (text_leb right.meeting_id left.meeting_id)
    else not (text_leb right.user_id left.user_id)

unfoldable pub place :
    PublisherTrafficCounters → List PublisherTrafficCounters → List PublisherTrafficCounters
place counters [] = counters ∷ []
place counters (next ∷ rest) =
    if is_before next counters then next ∷ place counters rest else counters ∷ next ∷ rest

-- `std::sort`, which promises the sorted arrangement of what it is given.
unfoldable pub sort_traffic : List PublisherTrafficCounters → List PublisherTrafficCounters
unfolding place
sort_traffic [] = []
sort_traffic (counters ∷ rest) = place counters (sort_traffic rest)

place-perm :
    (counters : PublisherTrafficCounters) (rest : List PublisherTrafficCounters)
    → Perm (place counters rest) (counters ∷ rest)
unfolding place
place-perm counters [] = Perm.refl (counters ∷ [])
place-perm counters (next ∷ rest) = elim (Bool-cases (is_before next counters)) [
  | inl e ↦
      rw e (Perm.trans (Perm.cons next (place-perm counters rest)) (Perm.swap counters next rest))
  | inr e ↦ rw e (Perm.refl (counters ∷ next ∷ rest))
]

sort_traffic-perm : (traffic : List PublisherTrafficCounters) → Perm (sort_traffic traffic) traffic
unfolding sort_traffic
sort_traffic-perm [] = Perm.refl []
sort_traffic-perm (counters ∷ rest) =
    Perm.trans (place-perm counters (sort_traffic rest))
      (Perm.cons counters (sort_traffic-perm rest))

-- All of them are live.
unfoldable pub AreLive : RoomManager → List (Text × PublisherTrafficCounters) → Type 0
AreLive rooms [] = Unit
AreLive rooms ((k, counters) ∷ rest) = (is_live rooms counters ≡ true) × AreLive rooms rest

live_traffic-AreLive :
    (rooms : RoomManager) (traffic : List (Text × PublisherTrafficCounters))
    → AreLive rooms (live_traffic rooms traffic)
unfolding live_traffic AreLive
live_traffic-AreLive rooms [] = tt
live_traffic-AreLive rooms ((k, counters) ∷ rest) =
    let later = live_traffic-AreLive rooms rest in
    elim (Bool-cases (is_live rooms counters)) [ inl e ↦ rw e (e, later) | inr e ↦ rw e later ]

module _ {Dtls Srtp : Type 0} where
  unfoldable pub snapshot_publisher_traffic :
      MediaIngress Dtls Srtp → List PublisherTrafficCounters × MediaIngress Dtls Srtp
  unfolding live_traffic sort_traffic
  snapshot_publisher_traffic m =
      let live = live_traffic m.rooms m.publisher_traffic in
      (sort_traffic (counters_of live), record m { publisher_traffic = live })

  -- The snapshot lists the counters that stay, each as often as it is there, and those that stay are
  -- of publishers that are still in their rooms.
  pub snapshot_publisher_traffic-AreLive :
      (m : MediaIngress Dtls Srtp)
      → Perm
          (snapshot_publisher_traffic m).0
          (counters_of (snapshot_publisher_traffic m).1.publisher_traffic)
        × AreLive
            (snapshot_publisher_traffic m).1.rooms
            (snapshot_publisher_traffic m).1.publisher_traffic
  unfolding snapshot_publisher_traffic
  snapshot_publisher_traffic-AreLive m = (
    sort_traffic-perm (counters_of (live_traffic m.rooms m.publisher_traffic)),
    live_traffic-AreLive m.rooms m.publisher_traffic,
  )
