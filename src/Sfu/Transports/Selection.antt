-- ===== src/Sfu/Transports/Selection.antt =====
-- Who may send media of an SSRC: the endpoint that the STUN user name selected.
use meeting_system.Prelude.{
  ℕ, ◌≡◌, ◌⊎◌, inl, inr, refl, Bool, true, false, [], ◌∷◌, Option, none, some, ◌&&◌, ◌||◌,
  if◌then◌else◌, arith, Bool-cases,
}
use meeting_system.Prelude.Assoc.{Text}
use meeting_system.Sfu.Endpoint.{Endpoint, af_inet, same_endpoint}
use meeting_system.Sfu.Transports.Ice
use meeting_system.Sfu.Transports.Participant.{ParticipantTransport, owns_ssrc}
use meeting_system.Sfu.Transports.Registry.{
  TransportMap, TransportRegistry, select_first, select_endpoint_for_username, selected_from,
  allows_loop, transport_allows_ssrc_from, owns_loop, has_transport_for_ssrc,
}

module _ {Dtls Srtp : Type 0} where
  -- The first transport that answers to the user name.
  unfoldable pub first_match :
      TransportMap Dtls Srtp → Text → Option (ParticipantTransport Dtls Srtp)
  first_match [] username = none
  first_match ((k, t) ∷ rest) username =
      if Ice.matches_username t.ice_session username then some t else first_match rest username

  owns-select_endpoint :
      (t : ParticipantTransport Dtls Srtp) (e : Endpoint) (ssrc : ℕ)
      → owns_ssrc (record t { ice_session = Ice.select_endpoint t.ice_session e }) ssrc
        ≡ owns_ssrc t ssrc
  unfolding owns_ssrc
  owns-select_endpoint t e ssrc = refl

  allows_loop-select :
      (m : TransportMap Dtls Srtp) (username : Text) (e : Endpoint) (ssrc : ℕ) (found : Bool)
      (t : ParticipantTransport Dtls Srtp)
      → e.sin_family ≡ af_inet
      → first_match m username ≡ some t
      → owns_ssrc t ssrc ≡ true
      → allows_loop (select_first m username e).1 ssrc e found ≡ true
  unfolding allows_loop select_first first_match same_endpoint Ice.select_endpoint
  allows_loop-select [] username e ssrc found t inet first owns = cc
  allows_loop-select ((k, u) ∷ rest) username e ssrc found t inet first owns =
      elim (Bool-cases (Ice.matches_username u.ice_session username)) [
        | inl yes_here ↦ rw yes_here (ground (arith, owns-select_endpoint u e ssrc))
        | inr not_here ↦ rw not_here (
            ground
              (arith, allows_loop-select rest username e ssrc (found || owns_ssrc u ssrc) t inet))
      ]

  -- Once the user name of a transport has come from an IPv4 endpoint, media of the SSRCs that the
  -- transport owns may come from that endpoint.
  pub select-allows :
      (r : TransportRegistry Dtls Srtp) (username : Text) (e : Endpoint) (ssrc : ℕ)
      (t : ParticipantTransport Dtls Srtp)
      → e.sin_family ≡ af_inet
      → first_match r.transports username ≡ some t
      → owns_ssrc t ssrc ≡ true
      → transport_allows_ssrc_from (select_endpoint_for_username r username e).1 ssrc e ≡ true
  unfolding transport_allows_ssrc_from select_endpoint_for_username
  select-allows r username e ssrc t inet first owns =
      ground (arith, allows_loop-select r.transports username e ssrc false t inet first owns)

  -- Some transport owns the SSRC, is connected, and has selected the endpoint.
  unfoldable pub HasSender : TransportMap Dtls Srtp → ℕ → Endpoint → Type 0
  HasSender [] ssrc e = ⊥
  HasSender ((k, t) ∷ rest) ssrc e =
      ((owns_ssrc t ssrc ≡ true)
        × (t.ice_session.ice_connected ≡ true)
        × (selected_from t e ≡ true))
      ⊎ HasSender rest ssrc e

  allows_loop-HasSender :
      (m : TransportMap Dtls Srtp) (ssrc : ℕ) (e : Endpoint) (found : Bool)
      → found || owns_loop m ssrc ≡ true
      → allows_loop m ssrc e found ≡ true
      → HasSender m ssrc e
  unfolding allows_loop owns_loop HasSender
  allows_loop-HasSender [] ssrc e found owned allowed = ground arith
  allows_loop-HasSender ((k, t) ∷ rest) ssrc e found owned allowed =
      elim (Bool-cases (owns_ssrc t ssrc && (t.ice_session.ice_connected && selected_from t e))) [
        | inl here ↦ inl (ground arith, ground arith, ground arith)
        | inr later ↦ inr (
            allows_loop-HasSender rest ssrc e (found || owns_ssrc t ssrc) (ground arith)
              (rw later at allowed))
      ]

  -- Media of an SSRC that a transport owns is let through only from an endpoint that an owner of the
  -- SSRC has selected.
  pub allows-HasSender :
      (r : TransportRegistry Dtls Srtp) (ssrc : ℕ) (e : Endpoint)
      → has_transport_for_ssrc r ssrc ≡ true
      → transport_allows_ssrc_from r ssrc e ≡ true
      → HasSender r.transports ssrc e
  unfolding has_transport_for_ssrc transport_allows_ssrc_from
  allows-HasSender r ssrc e owned allowed =
      allows_loop-HasSender r.transports ssrc e false (ground arith) (ground arith)
