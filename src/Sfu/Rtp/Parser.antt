-- ===== src/Sfu/Rtp/Parser.antt =====
-- meeting-server/sfu/rtp/RtpParser.
pub mod Bounds
use meeting_system.Prelude.{
  ℕ, ◌+◌, ◌-◌, ◌*◌, ◌/◌, ◌%◌, Bool, true, false, List, not, ◌||◌, arith, ltb, leb, ◌==◌, length,
}
use meeting_system.Prelude.Bytes.{Read, ok, ◌>>=◌, ◌>>◌, require, read_u8, read_u16, read_u32}

pub record RtpHeader : Type 0 where
  pub version : ℕ
  pub padding : Bool
  pub extension : Bool
  pub csrc_count : ℕ
  pub marker : Bool
  pub payload_type : ℕ
  pub sequence : ℕ
  pub timestamp : ℕ
  pub ssrc : ℕ
  pub header_size : ℕ

-- `payload` is the offset of the payload in the buffer.
pub record ParsedRtpPacket : Type 0 where
  pub header : RtpHeader
  pub payload : ℕ
  pub payload_size : ℕ

abbrev pub min_header_size : ℕ
min_header_size = 12

-- The header extension, if the flag is set: the offset behind it.
unfoldable pub skip_extension : List ℕ → Bool → ℕ → Read ℕ
skip_extension bytes false offset = ok offset
skip_extension bytes true offset = do
  require (leb (offset + 4) (length bytes))
  words ← read_u16 bytes (offset + 2)
  require (leb (offset + 4 + words * 4) (length bytes))
  ok (offset + 4 + words * 4)

-- The padding, if the flag is set: the payload's size without it.
unfoldable pub strip_padding : List ℕ → Bool → ℕ → Read ℕ
strip_padding bytes false size = ok size
strip_padding bytes true size = do
  require (not (size == 0))
  pad ← read_u8 bytes (length bytes - 1)
  require (not (pad == 0 || ltb size pad))
  ok (size - pad)

unfoldable pub parse : List ℕ → Read ParsedRtpPacket
parse bytes = do
  require (leb min_header_size (length bytes))
  b0 ← read_u8 bytes 0
  b1 ← read_u8 bytes 1
  require (b0 / 64 % 4 == 2)
  sequence ← read_u16 bytes 2
  timestamp ← read_u32 bytes 4
  ssrc ← read_u32 bytes 8
  require (leb (min_header_size + b0 % 16 * 4) (length bytes))
  offset ← skip_extension bytes (b0 / 16 % 2 == 1) (min_header_size + b0 % 16 * 4)
  size ← strip_padding bytes (b0 / 32 % 2 == 1) (length bytes - offset)
  ok (record {
    header = record {
      version = b0 / 64 % 4;
      padding = b0 / 32 % 2 == 1;
      extension = b0 / 16 % 2 == 1;
      csrc_count = b0 % 16;
      marker = b1 / 128 % 2 == 1;
      payload_type = b1 % 128;
      sequence = sequence;
      timestamp = timestamp;
      ssrc = ssrc;
      header_size = offset;
    };
    payload = offset;
    payload_size = size;
  })
