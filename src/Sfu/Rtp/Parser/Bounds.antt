-- ===== src/Sfu/Rtp/Parser/Bounds.antt =====
-- RtpParser::Parse reads inside the buffer and answers with a header and a payload inside it.
use meeting_system.Prelude.{
  ℕ, ◌+◌, ◌-◌, ◌*◌, ◌/◌, ◌%◌, ◌^◌, ◌≤◌, ◌<◌, ◌≡◌, ◌≢◌, Bool, true, false, List, arith, ◌==◌, length,
  inl, inr,
}
use meeting_system.Prelude.Bytes.{ok, fault, AreBytes, byte_at, byte_at-lt, Read-cases}
use meeting_system.Sfu.Rtp.Parser.{ParsedRtpPacket, skip_extension, strip_padding, parse}

-- The parser reads no byte outside the buffer, whatever it is given.
pub parse-ne-fault : (bytes : List ℕ) → parse bytes ≢ fault
unfolding parse skip_extension strip_padding
parse-ne-fault bytes h = ground arith

pub skip_extension_bounds :
    (bytes : List ℕ) (extension : Bool) (offset : ℕ) {next : ℕ}
    → offset ≤ length bytes
    → skip_extension bytes extension offset ≡ ok next
    → (offset ≤ next) × (next ≤ length bytes)
unfolding skip_extension
skip_extension_bounds bytes true offset h e = ground arith
skip_extension_bounds bytes false offset h e = ground arith

pub strip_padding_bounds :
    (bytes : List ℕ) (padding : Bool) (size : ℕ) {rest : ℕ}
    → strip_padding bytes padding size ≡ ok rest
    → rest ≤ size
unfolding strip_padding
strip_padding_bounds bytes true size e = ground arith
strip_padding_bounds bytes false size e = ground arith

-- What an accepted packet looks like, in a buffer of `len` bytes.
pub record IsInside (len : ℕ) (p : ParsedRtpPacket) : Type 0 where
  pub version : p.header.version ≡ 2
  pub csrcs : 12 + p.header.csrc_count * 4 ≤ p.header.header_size
  pub starts : p.payload ≡ p.header.header_size
  pub ends : p.payload + p.payload_size ≤ len
  pub csrc_range : p.header.csrc_count < 16
  pub type_range : p.header.payload_type < 128
  pub sequence_range : p.header.sequence < 2 ^ 16
  pub timestamp_range : p.header.timestamp < 2 ^ 32
  pub ssrc_range : p.header.ssrc < 2 ^ 32

-- An accepted packet has version 2, its header holds the fixed part and every CSRC, its payload
-- starts behind the header and ends inside the buffer, and its fields are in range.
pub parse-IsInside :
    (bytes : List ℕ) {p : ParsedRtpPacket}
    → AreBytes bytes
    → parse bytes ≡ ok p
    → IsInside (length bytes) p
unfolding parse
parse-IsInside bytes {p} h e = elim (Read-cases (skip_extension bytes extension start)) [
  | inl (offset, eo) ↦ ground (
    arith,
    eo,
    skip_extension_bounds bytes extension start {next = offset},
    strip_padding_bounds bytes (byte_at bytes 0 / 32 % 2 == 1) (length bytes - offset)
        {rest = p.payload_size},
    byte_at-lt bytes 2 h,
    byte_at-lt bytes 3 h,
    byte_at-lt bytes 4 h,
    byte_at-lt bytes 5 h,
    byte_at-lt bytes 6 h,
    byte_at-lt bytes 7 h,
    byte_at-lt bytes 8 h,
    byte_at-lt bytes 9 h,
    byte_at-lt bytes 10 h,
    byte_at-lt bytes 11 h,
  )
  | inr no_offset ↦ ground (arith, no_offset)
]
  where
    extension : Bool
    extension = byte_at bytes 0 / 16 % 2 == 1

    start : ℕ
    start = 12 + byte_at bytes 0 % 16 * 4
