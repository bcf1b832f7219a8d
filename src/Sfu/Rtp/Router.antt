-- ===== src/Sfu/Rtp/Router.antt =====
-- meeting-server/sfu/rtp/RtpRouter. A callback is a number, and a call of it is an entry of the list
-- that `route` returns. Routes are never null once a method has returned, so a map holds them
-- directly; a call is one step, which is what the locks give while no other thread unregisters the
-- publisher between the lookup and the calls.
pub mod Rewrite
pub mod Forwarding
pub mod Invariant
use meeting_system.Prelude.{
  ℕ, ◌+◌, ◌*◌, ◌/◌, ◌%◌, Bool, true, false, List, [], ◌∷◌, ◌++◌, Option, none, some, ◌||◌, ltb,
  ◌==◌, if◌then◌else◌, length, set,
}
use meeting_system.Prelude.Bytes.{Read, ok, reject, fault}
use meeting_system.Prelude.Assoc.{nat_eq, lookup, contains, insert, erase, is_some}
use meeting_system.Sfu.Rtp.Parser.{ParsedRtpPacket, parse}
use meeting_system.Sfu.Rtp.NackBuffer.{NackBuffer}
use meeting_system.Sfu.Rtp.NackBuffer

-- `forward` is `none` for an empty `std::function`.
pub record SubscriberRoute : Type 0 where
  pub rewritten_ssrc : ℕ
  pub forward : Option ℕ

pub record PublisherRoute : Type 0 where
  pub nack : NackBuffer
  pub subscribers : List SubscriberRoute

pub record RtpRouter : Type 0 where
  pub nack_capacity : ℕ
  pub publishers : List (ℕ × PublisherRoute)

-- A call of `forward(data, len)`.
abbrev pub Call : Type 0
Call = ℕ × List ℕ

unfoldable pub init : ℕ → RtpRouter
init nack_capacity = record {
  nack_capacity = if ltb 0 nack_capacity then nack_capacity else 500;
  publishers = [];
}

abbrev pub new_route : RtpRouter → PublisherRoute
new_route r = record { nack = NackBuffer.init r.nack_capacity 1600; subscribers = [] }

unfoldable pub register_publisher : RtpRouter → ℕ → Bool × RtpRouter
register_publisher r source_ssrc = if source_ssrc == 0 then (false, r) else (
  true,
  if contains source_ssrc r.publishers
      then r
      else record r { publishers = insert source_ssrc (new_route r) r.publishers },
)

unfoldable pub unregister_publisher : RtpRouter → ℕ → RtpRouter
unregister_publisher r source_ssrc = record r { publishers = erase source_ssrc r.publishers }

-- `publishers_[ssrc]`, made if it is not there.
unfoldable pub route_or_new : RtpRouter → ℕ → PublisherRoute
route_or_new r source_ssrc = elim (lookup source_ssrc r.publishers) [
  | none ↦ new_route r
  | some route ↦ route
]

unfoldable pub add_subscriber : RtpRouter → ℕ → ℕ → Option ℕ → Bool × RtpRouter
unfolding route_or_new
add_subscriber r source_ssrc rewritten_ssrc none = (false, r)
add_subscriber r source_ssrc rewritten_ssrc (some forward) =
    if source_ssrc == 0 || rewritten_ssrc == 0
    then (false, r)
    else let route = route_or_new r source_ssrc in
      let added : SubscriberRoute = record {
        rewritten_ssrc = rewritten_ssrc;
        forward = some forward;
      } in
      (
        true,
        record r {
          publishers =
              insert source_ssrc (record route { subscribers = route.subscribers ++ (added ∷ []) })
                r.publishers;
        },
      )

unfoldable pub remove_subscribers : RtpRouter → ℕ → RtpRouter
remove_subscribers r source_ssrc = elim (lookup source_ssrc r.publishers) [
  | none ↦ r
  | some route ↦ record r {
    publishers = insert source_ssrc (record route { subscribers = [] }) r.publishers;
  }
]

unfoldable pub rewrite_ssrc : ℕ → List ℕ → List ℕ
rewrite_ssrc ssrc packet =
    if ltb (length packet) 12
    then packet
    else set
        (set (set (set packet 8 (ssrc / 16777216 % 256)) 9 (ssrc / 65536 % 256)) 10
          (ssrc / 256 % 256))
        11 (ssrc % 256)

-- The loop over the subscribers, with the calls that it makes.
unfoldable pub forward_all : List SubscriberRoute → List ℕ → List Call
forward_all [] packet = []
forward_all (sub ∷ subs) packet =
    let rest = forward_all subs packet in
    elim sub.forward [
      | none ↦ rest
      | some callback ↦ (callback, rewrite_ssrc sub.rewritten_ssrc packet) ∷ rest
    ]

unfoldable pub route_parsed : RtpRouter → List ℕ → ParsedRtpPacket → Bool × List Call × RtpRouter
route_parsed r packet parsed = elim (lookup parsed.header.ssrc r.publishers) [
  | none ↦ (false, [], r)
  | some route ↦ (
    true,
    forward_all route.subscribers packet,
    record r {
      publishers =
          insert parsed.header.ssrc
            (record route {
              nack = NackBuffer.store route.nack parsed.header.sequence (some packet);
            })
            r.publishers;
    },
  )
]

-- The result, the callbacks' calls in order, and the router with the packet stored.
unfoldable pub route : RtpRouter → List ℕ → Bool × List Call × RtpRouter
route r packet = elim (parse packet) [
  | ok parsed ↦ route_parsed r packet parsed
  | _ ↦ (false, [], r)
]

unfoldable pub get_retransmit_packet : RtpRouter → ℕ → ℕ → Option (List ℕ)
get_retransmit_packet r source_ssrc seq = elim (lookup source_ssrc r.publishers) [
  | none ↦ none
  | some route ↦ NackBuffer.get route.nack seq
]
