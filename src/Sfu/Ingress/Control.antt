-- ===== src/Sfu/Ingress/Control.antt =====
-- meeting-server/sfu/server/MediaIngress: what it does with RTCP.
pub mod Rooms
use meeting_system.Prelude.{
  ℕ, zero, suc, ◌+◌, ◌-◌, ◌*◌, ◌/◌, ◌%◌, ◌^◌, Bool, true, false, List, [], ◌∷◌, ◌++◌, Option, none,
  some, not, ◌&&◌, ◌||◌, ltb, leb, ◌==◌, if◌then◌else◌, min,
}
use meeting_system.Prelude.Assoc.{Text, is_empty, nat_eq, text_eq, lookup, insert, erase}
use meeting_system.Prelude.Bytes.{Read, ok, ◌>>=◌}
use meeting_system.Sfu.Endpoint.{Endpoint, endpoint_key, feedback_route_key}
use meeting_system.Sfu.Room
use meeting_system.Sfu.Room.{Publisher}
use meeting_system.Sfu.RoomManager.{get_room}
use meeting_system.Sfu.Rtp.Router.{get_retransmit_packet, rewrite_ssrc}
use meeting_system.Sfu.Rtp.Rtcp.Reports.{
  RtcpReceptionReport, RtcpSenderReport, parse_reception_reports, parse_sender_reports,
}
use meeting_system.Sfu.Rtp.Rtcp.Feedback.{
  RtcpNackFeedback, RtcpPliFeedback, RtcpRembFeedback, parse_nack_feedback, parse_pli_feedback,
  parse_remb_feedback,
}
use meeting_system.Sfu.Transports.Registry.{
  TransportRegistry, has_selected_transport_for_endpoint, protect_rtp_to_endpoint,
  protect_rtcp_to_endpoint, transport_allows_ssrc_from,
}
use meeting_system.Sfu.Ingress.Packets.{
  SenderReportLedgerEntry, build_remb_packet, encode_remb_bitrate, build_receiver_report_packet,
  build_pli_packet, jitter_to_ms, compact_ntp_from_timestamp, compute_rtt_ms,
}
use meeting_system.Sfu.Ingress.State.{
  Platform, MediaIngress, PublisherTrafficCounters, RembFeedbackSample, EstimatedRembState,
  resolve_publisher, resolve_publisher_endpoint, publisher_traffic_key,
}
use meeting_system.Sfu.Ingress.Sending.{
  Sent, Outcome, seal, sent_to, each, and_then, resolve_nack_source_ssrc,
}
use meeting_system.Sfu.Ingress.Remb.{select_aggregated_remb_for_source}

abbrev pub no_traffic : PublisherTrafficCounters
no_traffic = record {
  meeting_id = [];
  user_id = [];
  packet_count = 0;
  byte_count = 0;
  packet_loss = 0;
  jitter_ms = 0;
  rtt_ms = 0;
}

module _ {Dtls Srtp : Type 0} where
  -- A PLI is passed on once in 200 ms for each source.
  unfoldable pub should_forward_pli : MediaIngress Dtls Srtp → ℕ → ℕ → Bool × MediaIngress Dtls Srtp
  should_forward_pli m source_ssrc now =
      let forwarded = record m {
        pli_forward_by_source = insert source_ssrc now m.pli_forward_by_source;
      } in
      if source_ssrc == 0 then (false, m) else elim (lookup source_ssrc m.pli_forward_by_source) [
        | none ↦ (true, forwarded)
        | some last ↦ if ltb now (last + 200000000) then (false, m) else (true, forwarded)
      ]

  -- `publisherTraffic_[key]`, made if it is not there.
  unfoldable pub traffic_of : MediaIngress Dtls Srtp → Text → Text → PublisherTrafficCounters
  traffic_of m meeting_id user_id =
      elim (lookup (publisher_traffic_key meeting_id user_id) m.publisher_traffic) [
        | none ↦ no_traffic
        | some counters ↦ counters
      ]

module _ {Dtls Srtp : Type 0} (p : Platform Dtls Srtp) where
  -- A sender report is noted and answered.
  unfoldable pub handle_sender_report :
      Endpoint → ℕ → MediaIngress Dtls Srtp → RtcpSenderReport → Outcome Dtls Srtp
  handle_sender_report from now m report =
      let compact = compact_ntp_from_timestamp report.ntp_timestamp in
      let noted = record m {
        sender_reports =
            insert report.sender_ssrc (record { compact_ntp = compact; observed_at = now })
              m.sender_reports;
      } in
      elim (resolve_publisher m report.sender_ssrc) [
        | none ↦ (false, [], m)
        | some found ↦
            if not (transport_allows_ssrc_from m.transport_registry report.sender_ssrc from)
            then (false, [], m)
            else sent_to from (
                seal (protect_rtcp_to_endpoint p.secure) noted from
                  (build_receiver_report_packet 0 report.sender_ssrc compact 0))
      ]

  unfoldable pub handle_reception_report :
      ℕ → MediaIngress Dtls Srtp → RtcpReceptionReport → Outcome Dtls Srtp
  handle_reception_report now m report = elim (resolve_publisher m report.source_ssrc) [
    | none ↦ (false, [], m)
    | some (publisher, user_id, meeting_id) ↦ (
      true,
      [],
      record m {
        publisher_traffic =
            insert (publisher_traffic_key meeting_id user_id)
              (record (traffic_of m meeting_id user_id) {
                meeting_id = meeting_id;
                user_id = user_id;
                packet_loss = report.fraction_lost;
                jitter_ms = jitter_to_ms publisher report.source_ssrc report.jitter;
                rtt_ms = elim (lookup report.source_ssrc m.sender_reports) [
                  | none ↦ 0
                  | some entry ↦
                      compute_rtt_ms entry report.last_sender_report
                        report.delay_since_last_sender_report now
                ];
              })
              m.publisher_traffic;
      },
    )
  ]

  -- A lost packet that is still there is sent again, under the SSRC that was asked for.
  unfoldable pub retransmit :
      Endpoint → (media_ssrc source_ssrc : ℕ) → MediaIngress Dtls Srtp → ℕ → Outcome Dtls Srtp
  retransmit from media_ssrc source_ssrc m sequence =
      elim (get_retransmit_packet m.router source_ssrc sequence) [
        | none ↦ (false, [], m)
        | some packet ↦
            if is_empty packet
            then (false, [], m)
            else sent_to from (
                seal (protect_rtp_to_endpoint p.secure) m from
                  (if media_ssrc == source_ssrc then packet else rewrite_ssrc media_ssrc packet))
      ]

  unfoldable pub handle_nack :
      Endpoint → MediaIngress Dtls Srtp → RtcpNackFeedback → Outcome Dtls Srtp
  unfolding retransmit
  handle_nack from m nack =
      let source_ssrc = resolve_nack_source_ssrc p m from nack.media_ssrc in
      if source_ssrc == 0
      then (false, [], m)
      else each (retransmit from nack.media_ssrc source_ssrc) m nack.lost_sequences

  unfoldable pub handle_pli :
      Endpoint → ℕ → MediaIngress Dtls Srtp → RtcpPliFeedback → Outcome Dtls Srtp
  handle_pli from now m pli =
      let source_ssrc = resolve_nack_source_ssrc p m from pli.media_ssrc in
      let allowed = should_forward_pli m source_ssrc now in
      if source_ssrc == 0
      then (false, [], m)
      else if not allowed.0
      then (false, [], allowed.1)
      else elim (resolve_publisher_endpoint allowed.1 source_ssrc) [
        | none ↦ (false, [], allowed.1)
        | some endpoint ↦ sent_to endpoint (
            seal (protect_rtcp_to_endpoint p.secure) allowed.1 endpoint
              (build_pli_packet pli.sender_ssrc source_ssrc))
      ]

  abbrev pub send_selected :
      ℕ → ℕ → Endpoint → Option (ℕ × ℕ) × MediaIngress Dtls Srtp → Outcome Dtls Srtp
  send_selected sender_ssrc source_ssrc endpoint (none, m) = (false, [], m)
  send_selected sender_ssrc source_ssrc endpoint (some (exp, mantissa), m) = sent_to endpoint (
      seal (protect_rtcp_to_endpoint p.secure) m endpoint
        (build_remb_packet sender_ssrc source_ssrc exp mantissa source_ssrc))

  -- One target of a REMB.
  unfoldable pub handle_remb_target :
      Endpoint → ℕ → RtcpRembFeedback → MediaIngress Dtls Srtp → ℕ → Outcome Dtls Srtp
  handle_remb_target from now remb m target_ssrc =
      let source_ssrc = resolve_nack_source_ssrc p m from target_ssrc in
      if source_ssrc == 0 then (false, [], m) else elim (resolve_publisher_endpoint m source_ssrc) [
        | none ↦ (false, [], m)
        | some endpoint ↦
            send_selected remb.sender_ssrc source_ssrc endpoint
              (select_aggregated_remb_for_source p m source_ssrc from remb now)
      ]

  unfoldable pub handle_remb :
      Endpoint → ℕ → MediaIngress Dtls Srtp → RtcpRembFeedback → Outcome Dtls Srtp
  unfolding handle_remb_target
  handle_remb from now m remb = each (handle_remb_target from now remb) m remb.target_ssrcs

  -- The parsers read the datagram alone, so they may come before the loops.
  unfoldable pub handle_control_packet :
      MediaIngress Dtls Srtp → List ℕ → Endpoint → ℕ → Read (Outcome Dtls Srtp)
  handle_control_packet m bytes from now = do
    sender_reports ← parse_sender_reports bytes
    reports ← parse_reception_reports bytes
    nacks ← parse_nack_feedback bytes
    plis ← parse_pli_feedback bytes
    rembs ← parse_remb_feedback bytes
    ok (
        and_then
          (and_then
            (and_then
              (and_then (each (handle_sender_report from now) m sender_reports)
                (λ m. each (handle_reception_report now) m reports))
              (λ m. each (handle_nack from) m nacks))
            (λ m. each (handle_pli from now) m plis))
          (λ m. each (handle_remb from now) m rembs))
