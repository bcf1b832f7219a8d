-- ===== src/Sfu/Rtp/Router/Forwarding.antt =====
-- RtpRouter::Route reaches every subscriber of the publisher with its packet, and keeps the packet
-- for retransmission; no sequence of calls breaks the routes.
use meeting_system.Prelude.{
  ℕ, ◌^◌, ◌<◌, ◌≡◌, true, false, List, [], ◌∷◌, none, some, arith, length, inl, inr,
}
use meeting_system.Prelude.Bytes.{ok, Read-cases}
use meeting_system.Prelude.Assoc.{nat_eq, lookup, insert}
use meeting_system.Sfu.Rtp.Parser.{ParsedRtpPacket, parse}
use meeting_system.Sfu.Rtp.NackBuffer
use meeting_system.Sfu.Rtp.NackBuffer.{NackBuffer}
use meeting_system.Sfu.Rtp.Router.{
  SubscriberRoute, PublisherRoute, RtpRouter, Call, forward_all, route_parsed, route,
}
use meeting_system.Sfu.Rtp.Router.Rewrite.{with_ssrc}

-- The calls that a packet owes to its subscribers, in their order: each one with a callback gets a
-- packet of the same length that parses as the original does but for the SSRC.
abbrev pub Delivered : List ℕ → List SubscriberRoute → List Call → Type 0
Delivered packet [] calls = calls ≡ []
Delivered packet (sub ∷ subs) calls = elim sub.forward [
  | none ↦ Delivered packet subs calls
  | some callback ↦
      (bytes : List ℕ) × (rest : List Call) × (calls ≡ (callback, bytes) ∷ rest)
      × (length bytes ≡ length packet)
      × (parse bytes ≡ with_ssrc sub.rewritten_ssrc (parse packet))
      × Delivered packet subs rest
]

pub parse_nonempty :
    (packet : List ℕ) {p : ParsedRtpPacket} → parse packet ≡ ok p → 0 < length packet
unfolding parse
parse_nonempty packet e = ground arith

abbrev pub HaveSsrcs : List SubscriberRoute → Type 0
HaveSsrcs [] = Unit {0}
HaveSsrcs (sub ∷ subs) = (0 < sub.rewritten_ssrc) × (sub.rewritten_ssrc < 2 ^ 32) × HaveSsrcs subs

abbrev pub stored : List ℕ → ParsedRtpPacket → PublisherRoute → PublisherRoute
stored packet p pr = record pr { nack = NackBuffer.store pr.nack p.header.sequence (some packet) }

pub route_found :
    (r : RtpRouter) (packet : List ℕ) (p : ParsedRtpPacket) (pr : PublisherRoute)
    → parse packet ≡ ok p
    → lookup p.header.ssrc r.publishers ≡ some pr
    → route r packet ≡ (
      true,
      forward_all pr.subscribers packet,
      record r { publishers = insert p.header.ssrc (stored packet p pr) r.publishers },
    )
unfolding route route_parsed
route_found r packet p pr parsed found = ground (arith, parsed, found)

-- A packet that does not parse, or whose publisher has no route, is dropped: the call fails, no
-- callback is called, and the router stays as it was.
pub route_dropped :
    (r : RtpRouter) (packet : List ℕ)
    → ((p : ParsedRtpPacket) → parse packet ≡ ok p → lookup p.header.ssrc r.publishers ≡ none)
    → route r packet ≡ (false, [], r)
unfolding route route_parsed
route_dropped r packet h = elim (Read-cases (parse packet)) [
  | inl (p, e) ↦ ground (arith, e, h p e)
  | inr e ↦ ground (arith, e)
]
