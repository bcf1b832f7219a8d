-- ===== src/Sfu/Ingress/Control/Rooms.antt =====
-- RTCP leaves the rooms alone.
use meeting_system.Prelude.{
  ℕ, ◌≡◌, refl, ◌∙◌, List, [], ◌∷◌, Option, none, some, ◌||◌, ◌==◌, ltb, ◌+◌, inl, inr, Bool-cases,
  Option-cases,
}
use meeting_system.Prelude.Assoc.{Text, is_empty, lookup, nat_eq, text_eq}
use meeting_system.Prelude.Bytes.{ok, ok_of_is_ok}
use meeting_system.Sfu.Endpoint.{Endpoint, endpoint_key}
use meeting_system.Sfu.Rtp.Router.{get_retransmit_packet}
use meeting_system.Sfu.Rtp.Rtcp.Content.{parse_rtcp-ok}
use meeting_system.Sfu.Rtp.Rtcp.Reports.{
  RtcpReceptionReport, RtcpSenderReport, parse_reception_reports, parse_sender_reports,
}
use meeting_system.Sfu.Rtp.Rtcp.Feedback.{
  RtcpNackFeedback, RtcpPliFeedback, RtcpRembFeedback, parse_nack_feedback, parse_pli_feedback,
  parse_remb_feedback,
}
use meeting_system.Sfu.Transports.Registry.{
  has_selected_transport_for_endpoint, transport_allows_ssrc_from,
}
use meeting_system.Sfu.Ingress.State.{
  Platform, MediaIngress, resolve_publisher, resolve_publisher_endpoint,
}
use meeting_system.Sfu.Ingress.Sending.{
  Converter, Outcome, seal, sent_to, each, resolve_nack_source_ssrc,
}
use meeting_system.Sfu.Ingress.Remb.{select_aggregated_remb_for_source, choose_sample}
use meeting_system.Sfu.Ingress.Control.{
  should_forward_pli, handle_sender_report, handle_reception_report, retransmit, handle_nack,
  handle_pli, send_selected, handle_remb_target, handle_remb, handle_control_packet,
}

module _ {Dtls Srtp : Type 0} where
  pub sent_to-seal-rooms :
      (convert : Converter Dtls Srtp) (m : MediaIngress Dtls Srtp) (endpoint : Endpoint)
      (packet : List ℕ)
      → (sent_to endpoint (seal convert m endpoint packet)).2.rooms ≡ m.rooms
  unfolding seal
  sent_to-seal-rooms convert m endpoint packet =
      elim (Bool-cases (has_selected_transport_for_endpoint m.transport_registry endpoint)) [
        | inr clear ↦ rw clear refl
        | inl secured ↦
            rw secured (elim (Bool-cases (convert m.transport_registry endpoint packet).0.0) [
              | inl sealed ↦ rw sealed refl
              | inr failed ↦ rw failed refl
            ])
      ]

  each-rooms {ℓ} :
      {A : Type ℓ} (f : MediaIngress Dtls Srtp → A → Outcome Dtls Srtp) (m : MediaIngress Dtls Srtp)
      (xs : List A)
      → ((m : MediaIngress Dtls Srtp) (x : A) → (f m x).2.rooms ≡ m.rooms)
      → (each f m xs).2.rooms ≡ m.rooms
  unfolding each
  each-rooms f m [] h = refl
  each-rooms f m (x ∷ xs) h = each-rooms f (f m x).2 xs h ∙ h m x

module _ {Dtls Srtp : Type 0} (p : Platform Dtls Srtp) where
  handle_sender_report-rooms :
      (from : Endpoint) (now : ℕ) (m : MediaIngress Dtls Srtp) (report : RtcpSenderReport)
      → (handle_sender_report p from now m report).2.rooms ≡ m.rooms
  unfolding handle_sender_report
  handle_sender_report-rooms from now m report =
      elim (Option-cases (resolve_publisher m report.sender_ssrc)) [
        | inl e ↦ rw (e, handle_sender_report) refl
        | inr (found, e) ↦
            rw (e, handle_sender_report)
              (elim (Bool-cases
                (transport_allows_ssrc_from m.transport_registry report.sender_ssrc from)) [
                  | inl allowed ↦ rw allowed (sent_to-seal-rooms _ _ from _)
                  | inr refused ↦ rw refused refl
                ])
      ]

  handle_reception_report-rooms :
      (now : ℕ) (m : MediaIngress Dtls Srtp) (report : RtcpReceptionReport)
      → (handle_reception_report p now m report).2.rooms ≡ m.rooms
  unfolding handle_reception_report
  handle_reception_report-rooms now m report =
      elim (Option-cases (resolve_publisher m report.source_ssrc)) [
        | inl e ↦ rw (e, handle_reception_report) refl
        | inr (found, e) ↦ rw (e, handle_reception_report) refl
      ]

  retransmit-rooms :
      (from : Endpoint) (media_ssrc source_ssrc : ℕ) (m : MediaIngress Dtls Srtp) (sequence : ℕ)
      → (retransmit p from media_ssrc source_ssrc m sequence).2.rooms ≡ m.rooms
  unfolding retransmit
  retransmit-rooms from media_ssrc source_ssrc m sequence =
      elim (Option-cases (get_retransmit_packet m.router source_ssrc sequence)) [
        | inl e ↦ rw (e, retransmit) refl
        | inr (packet, e) ↦
            rw (e, retransmit)
              (elim (Bool-cases (is_empty packet)) [
                | inl nothing ↦ rw nothing refl
                | inr something ↦ rw something (sent_to-seal-rooms _ m from _)
              ])
      ]

  handle_nack-rooms :
      (from : Endpoint) (m : MediaIngress Dtls Srtp) (nack : RtcpNackFeedback)
      → (handle_nack p from m nack).2.rooms ≡ m.rooms
  unfolding handle_nack
  handle_nack-rooms from m nack =
      let source_ssrc = resolve_nack_source_ssrc p m from nack.media_ssrc in
      elim (Bool-cases (source_ssrc == 0)) [
        | inl unknown ↦ rw unknown refl
        | inr known ↦
            rw known (
              each-rooms _ m nack.lost_sequences
                (retransmit-rooms from nack.media_ssrc source_ssrc))
      ]

  should_forward_pli-rooms :
      (m : MediaIngress Dtls Srtp) (source_ssrc now : ℕ)
      → (should_forward_pli m source_ssrc now).1.rooms ≡ m.rooms
  unfolding should_forward_pli
  should_forward_pli-rooms m source_ssrc now = elim (Bool-cases (source_ssrc == 0)) [
    | inl unknown ↦ rw unknown refl
    | inr known ↦ rw known (elim (Option-cases (lookup source_ssrc m.pli_forward_by_source)) [
      | inl e ↦ rw (e, should_forward_pli) refl
      | inr (last, e) ↦
          rw (e, should_forward_pli)
            (elim (Bool-cases (ltb now (last + 200000000))) [
              | inl too_soon ↦ rw too_soon refl
              | inr later ↦ rw later refl
            ])
    ])
  ]

  handle_pli-rooms :
      (from : Endpoint) (now : ℕ) (m : MediaIngress Dtls Srtp) (pli : RtcpPliFeedback)
      → (handle_pli p from now m pli).2.rooms ≡ m.rooms
  unfolding handle_pli
  handle_pli-rooms from now m pli =
      let source_ssrc = resolve_nack_source_ssrc p m from pli.media_ssrc in
      let allowed = should_forward_pli m source_ssrc now in
      let e = should_forward_pli-rooms m source_ssrc now in
      elim (Bool-cases (source_ssrc == 0)) [
        | inl unknown ↦ rw unknown refl
        | inr known ↦ rw known (elim (Bool-cases allowed.0) [
          | inr too_soon ↦ rw too_soon e
          | inl forward ↦
              rw forward (elim (Option-cases (resolve_publisher_endpoint allowed.1 source_ssrc)) [
                | inl nowhere ↦ rw (nowhere, handle_pli) e
                | inr (endpoint, found) ↦
                    rw (found, handle_pli) (sent_to-seal-rooms _ allowed.1 endpoint _ ∙ e)
              ])
        ])
      ]

  choose_sample-rooms :
      (m : MediaIngress Dtls Srtp) (source_ssrc : ℕ) (samples : List (Text × _))
      → (choose_sample m source_ssrc samples).1.rooms ≡ m.rooms
  choose_sample-rooms m source_ssrc [] = refl
  choose_sample-rooms m source_ssrc ((k, s) ∷ rest) = refl

  select-rooms :
      (m : MediaIngress Dtls Srtp) (source_ssrc : ℕ) (from : Endpoint) (remb : RtcpRembFeedback)
      (now : ℕ)
      → (select_aggregated_remb_for_source p m source_ssrc from remb now).1.rooms ≡ m.rooms
  unfolding select_aggregated_remb_for_source
  select-rooms m source_ssrc from remb now =
      elim (Bool-cases ((source_ssrc == 0) || is_empty (endpoint_key p.inet_ntop from))) [
        | inl nothing ↦ rw nothing refl
        | inr something ↦ rw something (choose_sample-rooms m source_ssrc _)
      ]

  send_selected-rooms :
      (sender_ssrc source_ssrc : ℕ) (endpoint : Endpoint)
      (selected : Option (ℕ × ℕ) × MediaIngress Dtls Srtp)
      → (send_selected p sender_ssrc source_ssrc endpoint selected).2.rooms ≡ selected.1.rooms
  send_selected-rooms sender_ssrc source_ssrc endpoint (none, m) = refl
  send_selected-rooms sender_ssrc source_ssrc endpoint (some (exp, mantissa), m) =
      sent_to-seal-rooms _ m endpoint _

  handle_remb_target-rooms :
      (from : Endpoint) (now : ℕ) (remb : RtcpRembFeedback) (m : MediaIngress Dtls Srtp)
      (target_ssrc : ℕ)
      → (handle_remb_target p from now remb m target_ssrc).2.rooms ≡ m.rooms
  unfolding handle_remb_target
  handle_remb_target-rooms from now remb m target_ssrc =
      let source_ssrc = resolve_nack_source_ssrc p m from target_ssrc in
      elim (Bool-cases (source_ssrc == 0)) [
        | inl unknown ↦ rw unknown refl
        | inr known ↦ rw known (elim (Option-cases (resolve_publisher_endpoint m source_ssrc)) [
          | inl nowhere ↦ rw (nowhere, handle_remb_target) refl
          | inr (endpoint, found) ↦
              rw (found, handle_remb_target)
                (send_selected-rooms remb.sender_ssrc source_ssrc endpoint _
                  ∙ select-rooms m source_ssrc from remb now)
        ])
      ]

  handle_remb-rooms :
      (from : Endpoint) (now : ℕ) (m : MediaIngress Dtls Srtp) (remb : RtcpRembFeedback)
      → (handle_remb p from now m remb).2.rooms ≡ m.rooms
  unfolding handle_remb
  handle_remb-rooms from now m remb =
      each-rooms _ m remb.target_ssrcs (handle_remb_target-rooms from now remb)

  -- RTCP leaves the rooms alone.
  pub handle_control_packet-rooms :
      (m : MediaIngress Dtls Srtp) (bytes : List ℕ) (from : Endpoint) (now : ℕ)
      → (o : Outcome Dtls Srtp) × (handle_control_packet p m bytes from now ≡ ok o)
        × (o.2.rooms ≡ m.rooms)
  unfolding handle_control_packet
  handle_control_packet-rooms m bytes from now =
      let h = parse_rtcp-ok bytes in
      let (reports, e1) = ok_of_is_ok (parse_reception_reports bytes) h.0 in
      let (sender_reports, e2) = ok_of_is_ok (parse_sender_reports bytes) h.1 in
      let (nacks, e3) = ok_of_is_ok (parse_nack_feedback bytes) h.2 in
      let (plis, e4) = ok_of_is_ok (parse_pli_feedback bytes) h.3 in
      let (rembs, e5) = ok_of_is_ok (parse_remb_feedback bytes) h.4 in
      rw (e2, e1, e3, e4, e5)
        (
          _,
          refl,
          each-rooms (handle_remb p from now) _ rembs (handle_remb-rooms from now)
              ∙ (each-rooms (handle_pli p from now) _ plis (handle_pli-rooms from now)
                  ∙ (each-rooms (handle_nack p from) _ nacks (handle_nack-rooms from)
                      ∙ (each-rooms (handle_reception_report p now) _ reports
                            (handle_reception_report-rooms now)
                          ∙ each-rooms (handle_sender_report p from now) m sender_reports
                              (handle_sender_report-rooms from now)))),
        )
