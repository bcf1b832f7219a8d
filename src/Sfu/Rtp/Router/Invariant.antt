-- ===== src/Sfu/Rtp/Router/Invariant.antt =====
-- No sequence of calls breaks the routes of an RtpRouter.
use meeting_system.Prelude.{
  ℕ, ◌^◌, ◌≤◌, ◌<◌, ◌≡◌, ◌∙◌, refl, List, [], ◌∷◌, ◌++◌, Option, none, some, ◌||◌, arith, ◌==◌,
  length, Option-cases, Bool-cases, inl, inr,
}
use meeting_system.Prelude.Bytes.{ok, Read-cases, not_both}
use meeting_system.Prelude.Assoc.{nat_eq, lookup, contains}
use meeting_system.Prelude.Assoc.Laws.{
  Everywhere, Everywhere-nil, Everywhere-insert, Everywhere-erase,
}
use meeting_system.Sfu.Rtp.Parser.{ParsedRtpPacket, parse}
use meeting_system.Sfu.Rtp.NackBuffer
use meeting_system.Sfu.Rtp.NackBuffer.Refine.{
  Packets, Represents, init-Represents, store-Represents, fifo_store, max_packet_size-store,
}
use meeting_system.Sfu.Rtp.Router.{
  SubscriberRoute, PublisherRoute, RtpRouter, init, new_route, register_publisher,
  unregister_publisher, route_or_new, add_subscriber, remove_subscribers, route,
}
use meeting_system.Sfu.Rtp.Router.Forwarding.{
  HaveSsrcs, stored, parse_nonempty, route_found, route_dropped,
}

-- What every route keeps: the packet size of its buffer, subscribers that can be addressed, and a
-- buffer that is a queue.
pub record IsRoute (pr : PublisherRoute) : Type 0 where
  pub size : pr.nack.max_packet_size ≡ 1600
  pub ssrcs : HaveSsrcs pr.subscribers
  pub kept : (q : Packets) × Represents pr.nack q

abbrev pub IsEntry : ℕ → PublisherRoute → Type 0
IsEntry ssrc pr = IsRoute pr

abbrev pub AreRoutes : RtpRouter → Type 0
AreRoutes r = Everywhere IsEntry r.publishers

-- What the rest of the SFU asks of the router.
pub data Request : Type 0 where
  register unregister unsubscribe : ℕ → Request
  subscribe : (source_ssrc rewritten_ssrc : ℕ) → Option ℕ → Request
  packet : List ℕ → Request

-- An SSRC is a `uint32_t`.
abbrev pub IsRequest : Request → Type 0
IsRequest (subscribe source_ssrc rewritten_ssrc forward) = rewritten_ssrc < 2 ^ 32
IsRequest (packet bytes) = length bytes ≤ 1600
IsRequest _ = Unit {0}

unfoldable pub step : RtpRouter → Request → RtpRouter
step r (register ssrc) = (register_publisher r ssrc).1
step r (unregister ssrc) = unregister_publisher r ssrc
step r (unsubscribe ssrc) = remove_subscribers r ssrc
step r (subscribe ssrc rewritten forward) = (add_subscriber r ssrc rewritten forward).1
step r (packet bytes) = (route r bytes).2

new_route-IsRoute : (r : RtpRouter) → IsRoute (new_route r)
unfolding NackBuffer.init
new_route-IsRoute r = record {
  size = refl;
  ssrcs = tt;
  kept = ([], init-Represents r.nack_capacity 1600);
}

route_or_new-IsRoute : (r : RtpRouter) (ssrc : ℕ) → AreRoutes r → IsRoute (route_or_new r ssrc)
unfolding route_or_new
route_or_new-IsRoute r ssrc routes = elim (Option-cases (lookup ssrc r.publishers)) [
  | inl e ↦ rw (e, route_or_new) (new_route-IsRoute r)
  | inr (v, e) ↦ rw (e, route_or_new) (routes ssrc v e)
]

HaveSsrcs-append :
    (subs : List SubscriberRoute) (sub : SubscriberRoute)
    → HaveSsrcs subs
    → 0 < sub.rewritten_ssrc
    → sub.rewritten_ssrc < 2 ^ 32
    → HaveSsrcs (subs ++ (sub ∷ []))
HaveSsrcs-append [] sub h lo hi = (lo, hi, tt)
HaveSsrcs-append (x ∷ subs) sub h lo hi = (h.0, h.1, HaveSsrcs-append subs sub h.2 lo hi)

stored-IsRoute :
    (bytes : List ℕ) (p : ParsedRtpPacket) (pr : PublisherRoute)
    → parse bytes ≡ ok p
    → length bytes ≤ 1600
    → IsRoute pr
    → IsRoute (stored bytes p pr)
stored-IsRoute bytes p pr parsed fits v = record {
  size = max_packet_size-store pr.nack p.header.sequence (some bytes) ∙ v.size;
  ssrcs = v.ssrcs;
  kept = (
    fifo_store pr.nack.capacity (v.kept).0 p.header.sequence bytes,
    store-Represents pr.nack (v.kept).0 p.header.sequence bytes (v.kept).1
        (parse_nonempty bytes parsed) (omega (arith, v.size)),
  );
}

register-AreRoutes :
    (r : RtpRouter) (ssrc : ℕ) → AreRoutes r → AreRoutes (register_publisher r ssrc).1
unfolding register_publisher
register-AreRoutes r ssrc routes = elim (Bool-cases (ssrc == 0)) [
  | inl zero_ssrc ↦ rw zero_ssrc routes
  | inr some_ssrc ↦ rw some_ssrc (elim (Bool-cases (contains ssrc r.publishers)) [
    | inl old ↦ rw old routes
    | inr new ↦
        rw new
          (Everywhere-insert IsEntry ssrc (new_route r) r.publishers (new_route-IsRoute r) routes)
  ])
]

unsubscribe-AreRoutes :
    (r : RtpRouter) (ssrc : ℕ) → AreRoutes r → AreRoutes (remove_subscribers r ssrc)
unfolding remove_subscribers
unsubscribe-AreRoutes r ssrc routes = elim (Option-cases (lookup ssrc r.publishers)) [
  | inl e ↦ rw (e, remove_subscribers) routes
  | inr (v, e) ↦
      rw (e, remove_subscribers)
        (Everywhere-insert IsEntry ssrc (record v { subscribers = [] }) r.publishers
          (record { size = (routes ssrc v e).size; ssrcs = tt; kept = (routes ssrc v e).kept })
          routes)
]

subscribe-AreRoutes :
    (r : RtpRouter) (ssrc rewritten forward : ℕ)
    → rewritten < 2 ^ 32
    → AreRoutes r
    → AreRoutes (add_subscriber r ssrc rewritten (some forward)).1
unfolding add_subscriber
subscribe-AreRoutes r ssrc rewritten forward fits routes =
    elim (Bool-cases (ssrc == 0 || rewritten == 0)) [
      | inl refused ↦ rw refused routes
      | inr taken ↦
          let v : IsRoute (route_or_new r ssrc) = route_or_new-IsRoute r ssrc routes in
          rw taken (
            Everywhere-insert IsEntry ssrc _ r.publishers
              (record {
                size = v.size;
                ssrcs = HaveSsrcs-append _ _ v.ssrcs (ground arith) fits;
                kept = v.kept;
              })
              routes)
    ]

packet-AreRoutes :
    (r : RtpRouter) (bytes : List ℕ)
    → length bytes ≤ 1600
    → AreRoutes r
    → AreRoutes (route r bytes).2
packet-AreRoutes r bytes fits routes = elim (Read-cases (parse bytes)) [
  | inr e ↦ rw (route_dropped r bytes λ p parsed. absurd (not_both (parse bytes) e parsed)) routes
  | inl (p, e) ↦ elim (Option-cases (lookup p.header.ssrc r.publishers)) [
    | inl unknown ↦ rw (route_dropped r bytes (dropped p e unknown)) routes
    | inr (v, known) ↦ rw (route_found r bytes p v e known) (
        Everywhere-insert IsEntry p.header.ssrc (stored bytes p v) r.publishers
          (stored-IsRoute bytes p v e fits (routes p.header.ssrc v known)) routes)
  ]
]
  where
    dropped :
        (p : ParsedRtpPacket)
        → parse bytes ≡ ok p
        → lookup p.header.ssrc r.publishers ≡ none
        → (q : ParsedRtpPacket) → parse bytes ≡ ok q
        → lookup q.header.ssrc r.publishers ≡ none
    dropped p e unknown q f = ground (arith, e, f, unknown)

-- Every request keeps every route in order.
pub step-AreRoutes :
    (r : RtpRouter) (q : Request) → IsRequest q → AreRoutes r → AreRoutes (step r q)
unfolding step
step-AreRoutes r (register ssrc) fits routes = register-AreRoutes r ssrc routes
step-AreRoutes r (unregister ssrc) fits routes =
    unfold unregister_publisher in Everywhere-erase IsEntry ssrc r.publishers routes
step-AreRoutes r (unsubscribe ssrc) fits routes = unsubscribe-AreRoutes r ssrc routes
step-AreRoutes r (subscribe ssrc rewritten none) fits routes = unfold add_subscriber in routes
step-AreRoutes r (subscribe ssrc rewritten (some forward)) fits routes =
    subscribe-AreRoutes r ssrc rewritten forward fits routes
step-AreRoutes r (packet bytes) fits routes = packet-AreRoutes r bytes fits routes

unfoldable pub run : RtpRouter → List Request → RtpRouter
run r [] = r
run r (q ∷ qs) = run (step r q) qs

abbrev pub AreRequests : List Request → Type 0
AreRequests [] = Unit {0}
AreRequests (q ∷ qs) = IsRequest q × AreRequests qs

run-AreRoutes :
    (r : RtpRouter) (qs : List Request) → AreRequests qs → AreRoutes r → AreRoutes (run r qs)
unfolding run
run-AreRoutes r [] fits routes = routes
run-AreRoutes r (q ∷ qs) fits routes =
    run-AreRoutes (step r q) qs fits.1 (step-AreRoutes r q fits.0 routes)

-- After any requests to a new router, with SSRCs of 32 bits and packets of at most 1600 bytes,
-- every route has subscribers that can be addressed and a buffer that is a bounded queue.
pub run-init-AreRoutes :
    (nack_capacity : ℕ) (qs : List Request)
    → AreRequests qs
    → AreRoutes (run (init nack_capacity) qs)
unfolding init
run-init-AreRoutes nack_capacity qs fits = run-AreRoutes _ qs fits (Everywhere-nil IsEntry)
