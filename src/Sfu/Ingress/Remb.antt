-- ===== src/Sfu/Ingress/Remb.antt =====
-- meeting-server/sfu/server/MediaIngress: the rates that subscribers report, and the one that the SFU
-- estimates, as REMB packets to a publisher.
pub mod Lowest
use meeting_system.Prelude.{
  ℕ, ◌+◌, ◌-◌, ◌*◌, ◌/◌, ◌%◌, ◌^◌, Bool, false, List, [], ◌∷◌, Option, none, some, not, ◌&&◌, ◌||◌,
  ltb, ◌==◌, if◌then◌else◌, min,
}
use meeting_system.Prelude.Assoc.{Text, is_empty, nat_eq, text_eq, lookup, insert, erase}
use meeting_system.Sfu.Endpoint.{Endpoint, endpoint_key}
use meeting_system.Sfu.Room
use meeting_system.Sfu.Room.{Publisher}
use meeting_system.Sfu.RoomManager.{get_room}
use meeting_system.Sfu.Rtp.Rtcp.Feedback.{RtcpRembFeedback}
use meeting_system.Sfu.Transports.Registry.{protect_rtcp_to_endpoint}
use meeting_system.Sfu.Ingress.Packets.{build_remb_packet, encode_remb_bitrate}
use meeting_system.Sfu.Ingress.State.{
  Platform, MediaIngress, RembFeedbackSample, EstimatedRembState, resolve_publisher_endpoint,
}
use meeting_system.Sfu.Ingress.Sending.{Outcome, seal, sent_to}

-- A sample is kept for three seconds.
unfoldable pub fresh_samples :
    List (Text × RembFeedbackSample) → ℕ → List (Text × RembFeedbackSample)
fresh_samples [] now = []
fresh_samples ((k, s) ∷ rest) now =
    let later = fresh_samples rest now in
    if ltb (s.observed_at + 3000000000) now then later else (k, s) ∷ later

-- The first of the lowest rates, where `selected` is the lowest so far.
unfoldable pub lowest_sample :
    RembFeedbackSample → List (Text × RembFeedbackSample) → RembFeedbackSample
lowest_sample selected [] = selected
lowest_sample selected ((k, s) ∷ rest) =
    lowest_sample (if ltb s.bitrate_bps selected.bitrate_bps then s else selected) rest

abbrev pub or_no_samples :
    Option (List (Text × RembFeedbackSample)) → List (Text × RembFeedbackSample)
or_no_samples none = []
or_no_samples (some samples) = samples

-- Within half a second a change of less than five percent is not announced.
unfoldable pub is_too_soon : Option EstimatedRembState → ℕ → ℕ → Bool
is_too_soon none bitrate now = false
is_too_soon (some state) bitrate now =
    let delta =
      if ltb bitrate state.bitrate_bps
      then state.bitrate_bps - bitrate
      else bitrate - state.bitrate_bps in
    let percent =
      if state.bitrate_bps == 0 then 100 else delta * 100 / state.bitrate_bps % 2 ^ 32 in
    not (state.sent_at == 0) && (ltb now (state.sent_at + 500000000) && ltb percent 5)

abbrev pub source_to_estimate : Publisher → ℕ
source_to_estimate publisher =
    if not (publisher.video_ssrc == 0) then publisher.video_ssrc else publisher.audio_ssrc

module _ {Dtls Srtp : Type 0} where
  abbrev pub choose_sample :
      MediaIngress Dtls Srtp
      → ℕ
      → List (Text × RembFeedbackSample)
      → Option (ℕ × ℕ) × MediaIngress Dtls Srtp
  choose_sample m source_ssrc [] =
      (none, record m { remb_feedback_by_source = erase source_ssrc m.remb_feedback_by_source })
  choose_sample m source_ssrc ((k, s) ∷ rest) =
      let lowest = lowest_sample s ((k, s) ∷ rest) in
      (
        some (lowest.bitrate_exp, lowest.bitrate_mantissa),
        record m {
          remb_feedback_by_source = insert source_ssrc ((k, s) ∷ rest) m.remb_feedback_by_source;
        },
      )

  -- The entry that `estimatedRembBySource_[ssrc]` makes.
  abbrev pub with_estimate : MediaIngress Dtls Srtp → ℕ → MediaIngress Dtls Srtp
  with_estimate m source_ssrc = elim (lookup source_ssrc m.estimated_remb_by_source) [
    | some state ↦ m
    | none ↦ record m {
      estimated_remb_by_source =
          insert source_ssrc (record { bitrate_bps = 0; sent_at = 0 }) m.estimated_remb_by_source;
    }
  ]

module _ {Dtls Srtp : Type 0} (p : Platform Dtls Srtp) where
  unfoldable pub select_aggregated_remb_for_source :
      MediaIngress Dtls Srtp
      → ℕ
      → Endpoint
      → RtcpRembFeedback
      → ℕ
      → Option (ℕ × ℕ) × MediaIngress Dtls Srtp
  unfolding fresh_samples lowest_sample
  select_aggregated_remb_for_source m source_ssrc from remb now =
      let key = endpoint_key p.inet_ntop from in
      let sample : RembFeedbackSample = record {
        bitrate_exp = remb.bitrate_exp;
        bitrate_mantissa = remb.bitrate_mantissa;
        bitrate_bps = remb.bitrate_bps;
        observed_at = now;
      } in
      let samples = or_no_samples (lookup source_ssrc m.remb_feedback_by_source) in
      if (source_ssrc == 0) || is_empty key
      then (none, m)
      else choose_sample m source_ssrc (fresh_samples (insert key sample samples) now)

  unfoldable pub send_estimated : MediaIngress Dtls Srtp → ℕ → Endpoint → ℕ → ℕ → Outcome Dtls Srtp
  send_estimated m source_ssrc endpoint bitrate now =
      let noted = record m {
        estimated_remb_by_source =
            insert source_ssrc (record { bitrate_bps = bitrate; sent_at = now })
              m.estimated_remb_by_source;
      } in
      let (exp, mantissa) = encode_remb_bitrate bitrate in
      sent_to endpoint (
        seal (protect_rtcp_to_endpoint p.secure) noted endpoint
          (build_remb_packet 0 source_ssrc exp mantissa source_ssrc))

  unfoldable pub send_estimate_to : MediaIngress Dtls Srtp → Publisher → ℕ → ℕ → Outcome Dtls Srtp
  unfolding send_estimated is_too_soon
  send_estimate_to m publisher bitrate_kbps now =
      let source_ssrc = source_to_estimate publisher in
      let bitrate = min bitrate_kbps 4294967 * 1000 in
      elim (resolve_publisher_endpoint m source_ssrc) [
        | none ↦ (false, [], m)
        | some endpoint ↦
            if is_too_soon (lookup source_ssrc m.estimated_remb_by_source) bitrate now
            then (false, [], with_estimate m source_ssrc)
            else send_estimated m source_ssrc endpoint bitrate now
      ]

  unfoldable pub send_estimated_remb_to_publisher :
      MediaIngress Dtls Srtp → Text → Text → ℕ → ℕ → Outcome Dtls Srtp
  unfolding send_estimate_to
  send_estimated_remb_to_publisher m meeting_id user_id bitrate_kbps now =
      if is_empty meeting_id || (is_empty user_id || (bitrate_kbps == 0))
      then (false, [], m)
      else elim (get_room m.rooms meeting_id) [
        | none ↦ (false, [], m)
        | some room ↦ elim (Room.get_publisher room user_id) [
          | none ↦ (false, [], m)
          | some publisher ↦ send_estimate_to m publisher bitrate_kbps now
        ]
      ]
