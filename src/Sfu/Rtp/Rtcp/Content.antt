-- ===== src/Sfu/Rtp/Rtcp/Content.antt =====
-- The six parsers of RtcpHandler answer on every datagram: no read is outside it, no loop runs on.
use native.Mathlib.Nat.{mod-eq_of_lt}
use meeting_system.Prelude.{
  ℕ, zero, suc, ◌+◌, ◌-◌, ◌*◌, ◌^◌, ◌≤◌, ◌<◌, ◌≡◌, refl, true, List, arith, length, min,
}
use meeting_system.Prelude.Bytes.{byte_at, is_ok}
use meeting_system.Sfu.Rtp.Rtcp.{RtcpPacketSummary}
use meeting_system.Sfu.Rtp.Rtcp.Reports.{
  reception_report, report_blocks, packet_reports, parse_reception_reports, packet_sender_report,
  parse_sender_reports, base_offset,
}
use meeting_system.Sfu.Rtp.Rtcp.Feedback.{
  nack_blocks, packet_nack, parse_nack_feedback, packet_pli, parse_pli_feedback, target_ssrcs,
  remb_body, packet_remb, parse_remb_feedback, remb_bitrate,
}
use meeting_system.Sfu.Rtp.Rtcp.Safety.{IsWithin, parse-ok}

reception_report-ok :
    (bytes : List ℕ) (p : RtcpPacketSummary) (block : ℕ)
    → block + 24 ≤ length bytes
    → is_ok (reception_report bytes p block) ≡ true
unfolding reception_report
reception_report-ok bytes p block h = ground arith

report_blocks-ok :
    (bytes : List ℕ) (p : RtcpPacketSummary) (left block : ℕ)
    → is_ok (report_blocks bytes p left block) ≡ true
unfolding report_blocks
report_blocks-ok bytes p zero block = refl
report_blocks-ok bytes p (suc left) block =
    ground (arith, reception_report-ok bytes p block, report_blocks-ok bytes p left (block + 24))

packet_reports-ok : (bytes : List ℕ) (p : RtcpPacketSummary) → is_ok (packet_reports bytes p) ≡ true
unfolding packet_reports
packet_reports-ok bytes p = ground (arith, report_blocks-ok bytes p p.fmt (base_offset p))

packet_sender_report-ok :
    (bytes : List ℕ) (p : RtcpPacketSummary) → is_ok (packet_sender_report bytes p) ≡ true
unfolding packet_sender_report
packet_sender_report-ok bytes p = ground arith

nack_blocks-ok :
    (fuel : ℕ) (bytes : List ℕ) (end block : ℕ)
    → end ≤ length bytes
    → end < block + fuel
    → 0 < fuel
    → is_ok (nack_blocks fuel bytes end block) ≡ true
unfolding nack_blocks
nack_blocks-ok zero bytes end block h enough some_fuel = absurd (omega arith)
nack_blocks-ok (suc fuel) bytes end block h enough some_fuel =
    ground (arith, nack_blocks-ok fuel bytes end (block + 4))

packet_nack-ok : (bytes : List ℕ) (p : RtcpPacketSummary) → is_ok (packet_nack bytes p) ≡ true
unfolding packet_nack
packet_nack-ok bytes p =
    ground (arith, nack_blocks-ok p.packet_size bytes (p.offset + p.packet_size) (p.offset + 12))

packet_pli-ok : (bytes : List ℕ) (p : RtcpPacketSummary) → is_ok (packet_pli bytes p) ≡ true
unfolding packet_pli
packet_pli-ok bytes p = ground arith

target_ssrcs-ok :
    (bytes : List ℕ) (left i : ℕ)
    → i + left * 4 ≤ length bytes
    → is_ok (target_ssrcs bytes left i) ≡ true
unfolding target_ssrcs
target_ssrcs-ok bytes zero i h = refl
target_ssrcs-ok bytes (suc left) i h = ground (arith, target_ssrcs-ok bytes left (i + 4))

remb_body-ok :
    (bytes : List ℕ) (p : RtcpPacketSummary) (count : ℕ)
    → p.offset + 20 + count * 4 ≤ length bytes
    → is_ok (remb_body bytes p count) ≡ true
unfolding remb_body
remb_body-ok bytes p count h = ground (arith, target_ssrcs-ok bytes count (p.offset + 20))

packet_remb-ok :
    (bytes : List ℕ) (p : RtcpPacketSummary)
    → IsWithin (length bytes) p
    → is_ok (packet_remb bytes p) ≡ true
unfolding packet_remb
packet_remb-ok bytes p within = ground (arith, remb_body-ok bytes p (byte_at bytes (p.offset + 16)))

-- Whatever datagram arrives, each of the five parsers answers: it reads no byte outside the
-- datagram, and its loops end.
pub parse_rtcp-ok :
    (bytes : List ℕ)
    → (is_ok (parse_reception_reports bytes) ≡ true)
      × (is_ok (parse_sender_reports bytes) ≡ true)
      × (is_ok (parse_nack_feedback bytes) ≡ true)
      × (is_ok (parse_pli_feedback bytes) ≡ true)
      × (is_ok (parse_remb_feedback bytes) ≡ true)
unfolding parse_reception_reports parse_sender_reports parse_nack_feedback parse_pli_feedback
    parse_remb_feedback
parse_rtcp-ok bytes = (
  parse-ok (packet_reports bytes) bytes (λ p _. packet_reports-ok bytes p),
  parse-ok (packet_sender_report bytes) bytes (λ p _. packet_sender_report-ok bytes p),
  parse-ok (packet_nack bytes) bytes (λ p _. packet_nack-ok bytes p),
  parse-ok (packet_pli bytes) bytes (λ p _. packet_pli-ok bytes p),
  parse-ok (packet_remb bytes) bytes (packet_remb-ok bytes),
)

-- The bit rate of a REMB packet is `mantissa * 2 ^ exp`, at most 2 ^ 32 - 1, as long as that
-- product has 64 bits.
pub remb_bitrate_lem :
    (mantissa exp : ℕ)
    → mantissa * 2 ^ exp < 2 ^ 64
    → remb_bitrate mantissa exp ≡ min (mantissa * 2 ^ exp) (2 ^ 32 - 1)
unfolding remb_bitrate
remb_bitrate_lem mantissa exp h = ground (arith, mod-eq_of_lt h)
