-- ===== src/Sfu/Ingress/Sending.antt =====
-- meeting-server/sfu/server/MediaIngress: what a call sends. An outcome is whether anything was
-- updated, what is sent, in order, and the state after it.
use meeting_system.Prelude.{
  ℕ, Bool, true, false, List, [], ◌∷◌, ◌++◌, Option, none, some, ◌||◌, ◌==◌, if◌then◌else◌,
}
use meeting_system.Prelude.Assoc.{nat_eq, text_eq, lookup}
use meeting_system.Sfu.Endpoint.{Endpoint, feedback_route_key}
use meeting_system.Sfu.Transports.Registry.{TransportRegistry, has_selected_transport_for_endpoint}
use meeting_system.Sfu.Ingress.State.{Platform, MediaIngress, resolve_publisher}

-- A datagram and where it is sent to.
abbrev pub Sent : Type 0
Sent = Endpoint × List ℕ

-- `EndpointRequiresSecureMedia` and one of the `Protect` calls: the packet to send, if any.
abbrev pub Converter : Type 0 → Type 0 → Type 0
Converter Dtls Srtp =
    TransportRegistry Dtls Srtp → Endpoint → List ℕ → (Bool × List ℕ) × TransportRegistry Dtls Srtp

abbrev pub Outcome : Type 0 → Type 0 → Type 0
Outcome Dtls Srtp = Bool × List Sent × MediaIngress Dtls Srtp

module _ {Dtls Srtp : Type 0} where
  unfoldable pub seal :
      Converter Dtls Srtp
      → MediaIngress Dtls Srtp
      → Endpoint
      → List ℕ
      → Option (List ℕ) × MediaIngress Dtls Srtp
  seal convert m endpoint packet =
      let answer = convert m.transport_registry endpoint packet in
      if has_selected_transport_for_endpoint m.transport_registry endpoint
      then (
        if answer.0.0 then some answer.0.1 else none,
        record m { transport_registry = answer.1 },
      )
      else (some packet, m)

  abbrev pub sent_to : Endpoint → Option (List ℕ) × MediaIngress Dtls Srtp → Outcome Dtls Srtp
  sent_to endpoint (none, m) = (false, [], m)
  sent_to endpoint (some packet, m) = (true, (endpoint, packet) ∷ [], m)

  -- A loop whose rounds each have an outcome.
  unfoldable pub each {ℓ} :
      {A : Type ℓ}
      → (MediaIngress Dtls Srtp → A → Outcome Dtls Srtp)
      → MediaIngress Dtls Srtp
      → List A
      → Outcome Dtls Srtp
  each f m [] = (false, [], m)
  each f m (x ∷ xs) =
      let first = f m x in
      let rest = each f first.2 xs in (first.0 || rest.0, first.1 ++ rest.1, rest.2)

  abbrev pub and_then :
      Outcome Dtls Srtp → (MediaIngress Dtls Srtp → Outcome Dtls Srtp) → Outcome Dtls Srtp
  and_then first f = let rest = f first.2 in (first.0 || rest.0, first.1 ++ rest.1, rest.2)

module _ {Dtls Srtp : Type 0} (p : Platform Dtls Srtp) where
  unfoldable pub resolve_nack_source_ssrc : MediaIngress Dtls Srtp → Endpoint → ℕ → ℕ
  resolve_nack_source_ssrc m from media_ssrc =
      if media_ssrc == 0 then 0 else elim (resolve_publisher m media_ssrc) [
        | some found ↦ media_ssrc
        | none ↦ elim (lookup (feedback_route_key p.inet_ntop from media_ssrc) m.feedback_routes) [
          | none ↦ 0
          | some source ↦ source
        ]
      ]
