-- ===== src/Sfu/Transports/Registry.antt =====
-- meeting-server/sfu/server/TransportRegistry. A method holds the mutex, so a call is one step.
use meeting_system.Prelude.{
  ℕ, Bool, true, false, List, [], ◌∷◌, ◌++◌, Option, none, some, not, ◌&&◌, ◌||◌, ltb, ◌==◌,
  if◌then◌else◌, length,
}
use meeting_system.Prelude.Assoc.{Text, text_eq, text_beq, insert}
use meeting_system.Prelude.Strings.{split_last}
use meeting_system.Sfu.Endpoint.{Endpoint, same_endpoint}
use meeting_system.Sfu.Transports.Ice
use meeting_system.Sfu.Transports.Participant.{
  Secure, ParticipantTransport, owns_ssrc, handle_dtls_datagram, protect, unprotect,
}

abbrev pub TransportMap : Type 0 → Type 0 → Type 0
TransportMap Dtls Srtp = List (Text × ParticipantTransport Dtls Srtp)

pub record TransportRegistry (Dtls Srtp : Type 0) : Type 0 where
  pub transports : TransportMap Dtls Srtp

-- "av", "video", "audio"
unfoldable pub kind : Bool → Bool → Text
kind publish_audio publish_video =
    if publish_audio && publish_video
    then b'a' ∷ b'v' ∷ []
    else if publish_video
    then b'v' ∷ b'i' ∷ b'd' ∷ b'e' ∷ b'o' ∷ []
    else b'a' ∷ b'u' ∷ b'd' ∷ b'i' ∷ b'o' ∷ []

unfoldable pub key : Text → Text → Text → Text
key meeting_id user_id media_kind = meeting_id ++ (b'|' ∷ (user_id ++ (b'|' ∷ media_kind)))

-- The media kind of a key: what stands behind its last bar.
unfoldable pub kind_of_key : Text → Text
kind_of_key k = elim (split_last b'|' k) [ none ↦ [] | some (before, after) ↦ after ]

-- The meeting, the user and the media kind of a transport.
abbrev pub Owner : Type 0
Owner = Text × Text × Text

module _ {Dtls Srtp : Type 0} where
  unfoldable pub upsert :
      TransportRegistry Dtls Srtp
      → ParticipantTransport Dtls Srtp
      → Text
      → TransportRegistry Dtls Srtp
  unfolding key
  upsert r t media_kind = record r {
    transports = insert (key t.meeting_id t.user_id media_kind) t r.transports;
  }

  abbrev pub is_of : ParticipantTransport Dtls Srtp → Text → Text → Bool
  is_of t meeting_id user_id = text_beq t.meeting_id meeting_id && text_beq t.user_id user_id

  unfoldable pub append_candidate :
      ParticipantTransport Dtls Srtp → Text → Bool → ParticipantTransport Dtls Srtp
  append_candidate t candidate last =
      let ice = Ice.append_client_candidate t.ice_session candidate in
      record t { ice_session = if last then Ice.mark_end_of_candidates ice else ice }

  -- The loop over the transports.
  unfoldable pub append_all :
      TransportMap Dtls Srtp → Text → Text → Text → Bool → Bool × TransportMap Dtls Srtp
  unfolding append_candidate
  append_all [] meeting_id user_id candidate last = (false, [])
  append_all ((k, t) ∷ rest) meeting_id user_id candidate last =
      let later = append_all rest meeting_id user_id candidate last in
      if is_of t meeting_id user_id
      then (true, (k, append_candidate t candidate last) ∷ later.1)
      else (later.0, (k, t) ∷ later.1)

  unfoldable pub append_ice_candidate :
      TransportRegistry Dtls Srtp → Text → Text → Text → Bool → Bool × TransportRegistry Dtls Srtp
  append_ice_candidate r meeting_id user_id candidate last =
      let answer = append_all r.transports meeting_id user_id candidate last in
      (answer.0, record r { transports = answer.1 })

  unfoldable pub erase_all : TransportMap Dtls Srtp → Text → Text → Bool × TransportMap Dtls Srtp
  erase_all [] meeting_id user_id = (false, [])
  erase_all ((k, t) ∷ rest) meeting_id user_id =
      let later = erase_all rest meeting_id user_id in
      if is_of t meeting_id user_id then (true, later.1) else (later.0, (k, t) ∷ later.1)

  unfoldable pub erase_user_transports :
      TransportRegistry Dtls Srtp → Text → Text → Bool × TransportRegistry Dtls Srtp
  erase_user_transports r meeting_id user_id =
      let answer = erase_all r.transports meeting_id user_id in
      (answer.0, record r { transports = answer.1 })

  -- The first transport of that user name gets the endpoint.
  unfoldable pub select_first :
      TransportMap Dtls Srtp → Text → Endpoint → Option Owner × TransportMap Dtls Srtp
  unfolding kind_of_key
  select_first [] username endpoint = (none, [])
  select_first ((k, t) ∷ rest) username endpoint =
      let later = select_first rest username endpoint in
      if not (Ice.matches_username t.ice_session username) then (later.0, (k, t) ∷ later.1) else (
        some (t.meeting_id, t.user_id, kind_of_key k),
        (k, record t { ice_session = Ice.select_endpoint t.ice_session endpoint }) ∷ rest,
      )

  unfoldable pub select_endpoint_for_username :
      TransportRegistry Dtls Srtp → Text → Endpoint → Option Owner × TransportRegistry Dtls Srtp
  select_endpoint_for_username r username endpoint =
      let answer = select_first r.transports username endpoint in
      (answer.0, record r { transports = answer.1 })

  abbrev pub selected_from : ParticipantTransport Dtls Srtp → Endpoint → Bool
  selected_from t endpoint =
      t.ice_session.has_selected_endpoint && same_endpoint t.ice_session.selected_endpoint endpoint

  -- The loop of `TransportAllowsSsrcFrom`, with `foundStructuredTransport`.
  unfoldable pub allows_loop : TransportMap Dtls Srtp → ℕ → Endpoint → Bool → Bool
  allows_loop [] ssrc endpoint found = not found
  allows_loop ((k, t) ∷ rest) ssrc endpoint found =
      if owns_ssrc t ssrc && (t.ice_session.ice_connected && selected_from t endpoint)
      then true
      else allows_loop rest ssrc endpoint (found || owns_ssrc t ssrc)

  unfoldable pub transport_allows_ssrc_from : TransportRegistry Dtls Srtp → ℕ → Endpoint → Bool
  unfolding allows_loop
  transport_allows_ssrc_from r ssrc endpoint =
      if ssrc == 0 then true else allows_loop r.transports ssrc endpoint false

  unfoldable pub owns_loop : TransportMap Dtls Srtp → ℕ → Bool
  owns_loop [] ssrc = false
  owns_loop ((k, t) ∷ rest) ssrc = if owns_ssrc t ssrc then true else owns_loop rest ssrc

  unfoldable pub has_transport_for_ssrc : TransportRegistry Dtls Srtp → ℕ → Bool
  unfolding owns_loop
  has_transport_for_ssrc r ssrc = if ssrc == 0 then false else owns_loop r.transports ssrc

  unfoldable pub selected_loop : TransportMap Dtls Srtp → Endpoint → Bool
  selected_loop [] endpoint = false
  selected_loop ((k, t) ∷ rest) endpoint =
      if selected_from t endpoint then true else selected_loop rest endpoint

  unfoldable pub has_selected_transport_for_endpoint : TransportRegistry Dtls Srtp → Endpoint → Bool
  unfolding selected_loop
  has_selected_transport_for_endpoint r endpoint = selected_loop r.transports endpoint

  unfoldable pub ready_loop : TransportMap Dtls Srtp → ℕ → Endpoint → Bool
  ready_loop [] ssrc endpoint = false
  ready_loop ((k, t) ∷ rest) ssrc endpoint =
      if owns_ssrc t ssrc && selected_from t endpoint
      then t.srtp_ready
      else ready_loop rest ssrc endpoint

  unfoldable pub srtp_ready_for_ssrc_from : TransportRegistry Dtls Srtp → ℕ → Endpoint → Bool
  unfolding ready_loop
  srtp_ready_for_ssrc_from r ssrc endpoint = ready_loop r.transports ssrc endpoint

  -- `FindBySelectedEndpoint`, and a call on the transport that it finds.
  unfoldable pub on_first {ℓ} :
      {A : Type ℓ}
      → (ParticipantTransport Dtls Srtp → A × ParticipantTransport Dtls Srtp)
      → TransportMap Dtls Srtp
      → Endpoint
      → Option A × TransportMap Dtls Srtp
  on_first f [] endpoint = (none, [])
  on_first f ((k, t) ∷ rest) endpoint =
      let later = on_first f rest endpoint in
      if selected_from t endpoint
      then (some (f t).0, (k, (f t).1) ∷ rest)
      else (later.0, (k, t) ∷ later.1)

module _ {Dtls Srtp : Type 0} (secure : Secure Dtls Srtp) where
  -- A datagram before ICE has connected is not handed to the transport.
  unfoldable pub handle_if_connected :
      List ℕ
      → ParticipantTransport Dtls Srtp
      → (Bool × List (List ℕ)) × ParticipantTransport Dtls Srtp
  handle_if_connected bytes t =
      let answer = handle_dtls_datagram secure t bytes in
      if t.ice_session.ice_connected then ((answer.0, answer.1), answer.2) else ((false, []), t)

  abbrev pub or_refused : Option (Bool × List (List ℕ)) → Bool × List (List ℕ)
  or_refused none = (false, [])
  or_refused (some answer) = answer

  unfoldable pub handle_dtls_from_endpoint :
      TransportRegistry Dtls Srtp
      → Endpoint
      → List ℕ
      → (Bool × List (List ℕ)) × TransportRegistry Dtls Srtp
  unfolding handle_if_connected
  handle_dtls_from_endpoint r endpoint bytes =
      let answer = on_first (handle_if_connected bytes) r.transports endpoint in
      (or_refused answer.0, record r { transports = answer.1 })

  abbrev pub Conversion : Type 0
  Conversion =
      ParticipantTransport Dtls Srtp → List ℕ → Bool × List ℕ × ParticipantTransport Dtls Srtp

  abbrev pub or_unchanged : List ℕ → Option (Bool × List ℕ) → Bool × List ℕ
  or_unchanged packet none = (false, packet)
  or_unchanged packet (some answer) = answer

  -- A conversion by the transport selected for the endpoint, for a packet of a least size.
  unfoldable pub convert :
      ℕ
      → Conversion
      → TransportRegistry Dtls Srtp
      → Endpoint
      → List ℕ
      → (Bool × List ℕ) × TransportRegistry Dtls Srtp
  convert least f r endpoint packet =
      let answer =
        on_first (λ t. let (done, bytes, t') = f t packet in ((done, bytes), t')) r.transports
          endpoint in
      if ltb (length packet) least
      then ((false, packet), r)
      else (or_unchanged packet answer.0, record r { transports = answer.1 })

  unfoldable pub unprotect_rtp_from_endpoint :
      TransportRegistry Dtls Srtp
      → Endpoint
      → List ℕ
      → (Bool × List ℕ) × TransportRegistry Dtls Srtp
  unfolding convert
  unprotect_rtp_from_endpoint = convert 12 (unprotect secure secure.unprotect_rtp)

  unfoldable pub unprotect_rtcp_from_endpoint :
      TransportRegistry Dtls Srtp
      → Endpoint
      → List ℕ
      → (Bool × List ℕ) × TransportRegistry Dtls Srtp
  unfolding convert
  unprotect_rtcp_from_endpoint = convert 1 (unprotect secure secure.unprotect_rtcp)

  unfoldable pub protect_rtp_to_endpoint :
      TransportRegistry Dtls Srtp
      → Endpoint
      → List ℕ
      → (Bool × List ℕ) × TransportRegistry Dtls Srtp
  unfolding convert
  protect_rtp_to_endpoint = convert 1 (protect secure secure.protect_rtp)

  unfoldable pub protect_rtcp_to_endpoint :
      TransportRegistry Dtls Srtp
      → Endpoint
      → List ℕ
      → (Bool × List ℕ) × TransportRegistry Dtls Srtp
  unfolding convert
  protect_rtcp_to_endpoint = convert 1 (protect secure secure.protect_rtcp)
