-- ===== src/Client/Rtp/Agreement.antt =====
-- RTPReceiver of the client against RtpParser of the SFU.
use meeting_system.Prelude.{
  ℕ, ◌+◌, ◌-◌, ◌*◌, ◌/◌, ◌%◌, ◌≡◌, ◌<◌, refl, Bool, true, false, ◌&&◌, inl, inr, ltb, ◌==◌, List,
  arith, take, drop, length,
}
use meeting_system.Prelude.Bytes.{Read, ok, reject, fault, ◌>>=◌, byte_at, Read-cases}
use meeting_system.Sfu.Rtp.Parser.{ParsedRtpPacket, parse, skip_extension, strip_padding}
use meeting_system.Client.Rtp.{
  RtpPacket, parse_packet, payload_length, header_offset, check_padding,
}

-- What the SFU parses, as the client's packet.
abbrev pub as_client : List ℕ → Read ParsedRtpPacket → Read RtpPacket
as_client bytes (ok p) = ok (record {
  header = record {
    version = p.header.version;
    padding = p.header.padding;
    extension = p.header.extension;
    csrc_count = p.header.csrc_count;
    marker = p.header.marker;
    payload_type = p.header.payload_type;
    sequence_number = p.header.sequence;
    timestamp = p.header.timestamp;
    ssrc = p.header.ssrc;
  };
  payload = take p.payload_size (drop p.payload bytes);
})
as_client bytes reject = reject
as_client bytes fault = fault

header_offset-skip_extension :
    (bytes : List ℕ) (extension : Bool) (offset : ℕ)
    → header_offset bytes extension offset ≡ skip_extension bytes extension offset
unfolding header_offset skip_extension
header_offset-skip_extension bytes true offset = ground arith
header_offset-skip_extension bytes false offset = refl

-- The client tests the padding twice; the SFU once, with a test for an empty payload before it.
check_padding-strip_padding :
    (bytes : List ℕ) (padding : Bool) (offset : ℕ)
    → 0 < length bytes
    → (check_padding bytes padding offset >>= λ _.
        payload_length bytes (padding && ltb 0 (length bytes - offset)) (length bytes - offset))
      ≡ strip_padding bytes padding (length bytes - offset)
unfolding check_padding payload_length strip_padding
check_padding-strip_padding bytes true offset h = ground arith
check_padding-strip_padding bytes false offset h = refl

-- The client's receiver and the SFU's parser accept the same packets, and find the same header
-- fields and the same payload in them.
pub parse_packet-parse : (bytes : List ℕ) → parse_packet bytes ≡ as_client bytes (parse bytes)
unfolding parse_packet parse
parse_packet-parse bytes = elim (Read-cases (skip_extension bytes extension start)) [
  | inl (offset, e) ↦ ground (
    arith,
    e,
    header_offset-skip_extension bytes extension start,
    check_padding-strip_padding bytes (byte_at bytes 0 / 32 % 2 == 1) offset,
  )
  | inr e ↦ ground (arith, e, header_offset-skip_extension bytes extension start)
]
  where
    extension : Bool
    extension = byte_at bytes 0 / 16 % 2 == 1

    start : ℕ
    start = 12 + byte_at bytes 0 % 16 * 4
