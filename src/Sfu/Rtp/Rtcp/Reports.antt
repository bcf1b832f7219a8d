-- ===== src/Sfu/Rtp/Rtcp/Reports.antt =====
-- RtcpHandler: sender reports and reception reports.
use meeting_system.Prelude.{
  ℕ, zero, suc, ◌+◌, ◌-◌, ◌*◌, ◌^◌, List, [], ◌∷◌, not, ◌&&◌, ◌||◌, ltb, if◌then◌else◌, length,
}
use meeting_system.Prelude.Bytes.{Read, ok, ◌>>=◌, read_u8, read_u16, read_u32}
use meeting_system.Prelude.Int.{ℤ, pos, negsuc}
use meeting_system.Sfu.Rtp.Rtcp.{
  RtcpType, RtcpPacketSummary, parse_compound, for_each, is_sr, is_rr,
}

pub record RtcpReceptionReport : Type 0 where
  pub packet_type : RtcpType
  pub reporter_ssrc : ℕ
  pub source_ssrc : ℕ
  pub fraction_lost : ℕ
  pub cumulative_lost : ℤ
  pub highest_seq : ℕ
  pub jitter : ℕ
  pub last_sender_report : ℕ
  pub delay_since_last_sender_report : ℕ

pub record RtcpSenderReport : Type 0 where
  pub sender_ssrc : ℕ
  pub ntp_timestamp : ℕ
  pub rtp_timestamp : ℕ
  pub packet_count : ℕ
  pub octet_count : ℕ

-- 24 bits in two's complement.
abbrev pub signed24 : ℕ → ℤ
signed24 v = if ltb v (2 ^ 23) then pos v else negsuc (2 ^ 24 - v - 1)

-- `ReadS24`: three bytes.
abbrev pub read_s24 : List ℕ → ℕ → Read ℤ
read_s24 bytes i = do
  high ← read_u8 bytes i
  low ← read_u16 bytes (i + 1)
  ok (signed24 (high * 65536 + low))

unfoldable pub reception_report : List ℕ → RtcpPacketSummary → ℕ → Read RtcpReceptionReport
reception_report bytes p block = do
  source ← read_u32 bytes block
  fraction ← read_u8 bytes (block + 4)
  lost ← read_s24 bytes (block + 5)
  highest ← read_u32 bytes (block + 8)
  jitter ← read_u32 bytes (block + 12)
  last ← read_u32 bytes (block + 16)
  delay ← read_u32 bytes (block + 20)
  ok (record {
    packet_type = p.type;
    reporter_ssrc = p.sender_ssrc;
    source_ssrc = source;
    fraction_lost = fraction;
    cumulative_lost = lost;
    highest_seq = highest;
    jitter = jitter;
    last_sender_report = last;
    delay_since_last_sender_report = delay;
  })

-- The loop over the blocks of a packet, by the blocks left.
unfoldable pub report_blocks : List ℕ → RtcpPacketSummary → ℕ → ℕ → Read (List RtcpReceptionReport)
report_blocks bytes p zero block = ok []
report_blocks bytes p (suc left) block =
    let blocks = reception_report bytes p block >>= λ report.
    report_blocks bytes p left (block + 24) >>= λ rest. ok (report ∷ rest) in
    if ltb (p.offset + p.packet_size) (block + 24) || ltb (length bytes) (block + 24)
    then ok []
    else blocks

abbrev pub base_offset : RtcpPacketSummary → ℕ
base_offset p = p.offset + (if is_sr p.type then 28 else 8)

unfoldable pub packet_reports : List ℕ → RtcpPacketSummary → Read (List RtcpReceptionReport)
packet_reports bytes p =
    if (not (is_rr p.type) && not (is_sr p.type)) || ltb p.packet_size (base_offset p - p.offset)
    then ok []
    else report_blocks bytes p p.fmt (base_offset p)

unfoldable pub parse_reception_reports : List ℕ → Read (List RtcpReceptionReport)
parse_reception_reports bytes = parse_compound bytes >>= for_each (packet_reports bytes)

unfoldable pub packet_sender_report : List ℕ → RtcpPacketSummary → Read (List RtcpSenderReport)
packet_sender_report bytes p =
    if not (is_sr p.type) || (ltb p.packet_size 28 || ltb (length bytes) (p.offset + 28))
    then ok []
    else do
      sender ← read_u32 bytes (p.offset + 4)
      ntp_high ← read_u32 bytes (p.offset + 8)
      ntp_low ← read_u32 bytes (p.offset + 12)
      rtp ← read_u32 bytes (p.offset + 16)
      packets ← read_u32 bytes (p.offset + 20)
      octets ← read_u32 bytes (p.offset + 24)
      ok (
          record {
            sender_ssrc = sender;
            ntp_timestamp = ntp_high * 4294967296 + ntp_low;
            rtp_timestamp = rtp;
            packet_count = packets;
            octet_count = octets;
          }
          ∷ [])

unfoldable pub parse_sender_reports : List ℕ → Read (List RtcpSenderReport)
parse_sender_reports bytes = parse_compound bytes >>= for_each (packet_sender_report bytes)
