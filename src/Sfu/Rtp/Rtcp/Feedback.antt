-- ===== src/Sfu/Rtp/Rtcp/Feedback.antt =====
-- RtcpHandler: NACK, PLI and REMB feedback.
use meeting_system.Prelude.{
  ℕ, zero, suc, ◌+◌, ◌*◌, ◌/◌, ◌%◌, ◌^◌, List, [], ◌∷◌, ◌++◌, not, ◌&&◌, ◌||◌, ltb, ◌==◌,
  if◌then◌else◌, length,
}
use meeting_system.Prelude.Bytes.{Read, ok, fault, ◌>>=◌, read_u8, read_u16, read_u32}
use meeting_system.Sfu.Rtp.Rtcp.{
  RtcpPacketSummary, parse_compound, for_each, is_nack, is_pli, is_psfb,
}

pub record RtcpNackFeedback : Type 0 where
  pub sender_ssrc : ℕ
  pub media_ssrc : ℕ
  pub lost_sequences : List ℕ

pub record RtcpPliFeedback : Type 0 where
  pub sender_ssrc : ℕ
  pub media_ssrc : ℕ

pub record RtcpRembFeedback : Type 0 where
  pub sender_ssrc : ℕ
  pub media_ssrc : ℕ
  pub bitrate_exp : ℕ
  pub bitrate_mantissa : ℕ
  pub bitrate_bps : ℕ
  pub target_ssrcs : List ℕ

-- The loop over the bits of `blp`, by the bits left: those set name `pid + bit + 1`, in 16 bits.
unfoldable pub blp_sequences : ℕ → ℕ → ℕ → ℕ → List ℕ
blp_sequences zero bit pid blp = []
blp_sequences (suc left) bit pid blp =
    let rest = blp_sequences left (bit + 1) pid blp in
    if blp / 2 ^ bit % 2 == 0 then rest else (pid + bit + 1) % 65536 ∷ rest

-- The loop over the blocks up to `end`, on fuel; `fault` also stands for fuel that ran out.
unfoldable pub nack_blocks : ℕ → List ℕ → ℕ → ℕ → Read (List ℕ)
nack_blocks zero bytes end block = fault
nack_blocks (suc fuel) bytes end block =
    let lost = read_u16 bytes block >>= λ pid. read_u16 bytes (block + 2) >>= λ blp.
    nack_blocks fuel bytes end (block + 4) >>= λ rest.
    ok (pid ∷ blp_sequences 16 0 pid blp ++ rest) in
    if ltb end (block + 4) then ok [] else lost

unfoldable pub packet_nack : List ℕ → RtcpPacketSummary → Read (List RtcpNackFeedback)
packet_nack bytes p =
    if not (is_nack p) || (ltb p.packet_size 12 || ltb (length bytes) (p.offset + p.packet_size))
    then ok []
    else do
      sender ← read_u32 bytes (p.offset + 4)
      media ← read_u32 bytes (p.offset + 8)
      lost ← nack_blocks p.packet_size bytes (p.offset + p.packet_size) (p.offset + 12)
      if length lost == 0
          then ok []
          else ok (record { sender_ssrc = sender; media_ssrc = media; lost_sequences = lost } ∷ [])

unfoldable pub parse_nack_feedback : List ℕ → Read (List RtcpNackFeedback)
parse_nack_feedback bytes = parse_compound bytes >>= for_each (packet_nack bytes)

unfoldable pub packet_pli : List ℕ → RtcpPacketSummary → Read (List RtcpPliFeedback)
packet_pli bytes p =
    if not (is_pli p) || (ltb p.packet_size 12 || ltb (length bytes) (p.offset + p.packet_size))
    then ok []
    else do
      sender ← read_u32 bytes (p.offset + 4)
      media ← read_u32 bytes (p.offset + 8)
      ok (record { sender_ssrc = sender; media_ssrc = media } ∷ [])

unfoldable pub parse_pli_feedback : List ℕ → Read (List RtcpPliFeedback)
parse_pli_feedback bytes = parse_compound bytes >>= for_each (packet_pli bytes)

-- `mantissa << exp` in 64 bits, and at most the largest 32-bit number.
unfoldable pub remb_bitrate : ℕ → ℕ → ℕ
remb_bitrate mantissa exp =
    let bitrate = mantissa * 2 ^ exp % 18446744073709551616 in
    if ltb 4294967295 bitrate then 4294967295 else bitrate

-- The loop over the target SSRCs, by those left.
unfoldable pub target_ssrcs : List ℕ → ℕ → ℕ → Read (List ℕ)
target_ssrcs bytes zero i = ok []
target_ssrcs bytes (suc left) i = do
  ssrc ← read_u32 bytes i
  rest ← target_ssrcs bytes left (i + 4)
  ok (ssrc ∷ rest)

unfoldable pub remb_body : List ℕ → RtcpPacketSummary → ℕ → Read (List RtcpRembFeedback)
unfolding remb_bitrate
remb_body bytes p count = do
  sender ← read_u32 bytes (p.offset + 4)
  media ← read_u32 bytes (p.offset + 8)
  a ← read_u8 bytes (p.offset + 17)
  b ← read_u8 bytes (p.offset + 18)
  c ← read_u8 bytes (p.offset + 19)
  targets ← target_ssrcs bytes count (p.offset + 20)
  if length targets == 0
      then ok []
      else ok (
          record {
            sender_ssrc = sender;
            media_ssrc = media;
            bitrate_exp = a / 4 % 64;
            bitrate_mantissa = a % 4 * 65536 + b * 256 + c;
            bitrate_bps = remb_bitrate (a % 4 * 65536 + b * 256 + c) (a / 4 % 64);
            target_ssrcs = targets;
          }
          ∷ [])

unfoldable pub packet_remb : List ℕ → RtcpPacketSummary → Read (List RtcpRembFeedback)
packet_remb bytes p =
    if not (is_psfb p.type && p.fmt == 15)
      || (ltb p.packet_size 20 || ltb (length bytes) (p.offset + p.packet_size))
    then ok []
    else do
      name ← read_u32 bytes (p.offset + 12)
      if not (name == 0x52454d42) then ok [] else do
        count ← read_u8 bytes (p.offset + 16)
        if ltb p.packet_size (20 + count * 4) then ok [] else remb_body bytes p count

unfoldable pub parse_remb_feedback : List ℕ → Read (List RtcpRembFeedback)
parse_remb_feedback bytes = parse_compound bytes >>= for_each (packet_remb bytes)
