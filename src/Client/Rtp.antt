-- ===== src/Client/Rtp.antt =====
-- plasma-hawking/src/net/media/RTPSender and RTPReceiver.
pub mod Agreement
pub mod RoundTrip
use meeting_system.Prelude.{
  ℕ, ◌+◌, ◌-◌, ◌*◌, ◌/◌, ◌%◌, Bool, true, false, List, [], ◌∷◌, ◌++◌, Option, none, some, not, ◌&&◌,
  ◌||◌, ltb, leb, ◌==◌, if◌then◌else◌, length, take, drop,
}
use meeting_system.Prelude.Bytes.{
  Read, ok, ◌>>=◌, ◌>>◌, require, read_u8, read_u16, read_u32, put16, put32,
}

pub record RtpHeader : Type 0 where
  pub version : ℕ
  pub padding : Bool
  pub extension : Bool
  pub csrc_count : ℕ
  pub marker : Bool
  pub payload_type : ℕ
  pub sequence_number : ℕ
  pub timestamp : ℕ
  pub ssrc : ℕ

pub record RtpPacket : Type 0 where
  pub header : RtpHeader
  pub payload : List ℕ

pub record RtpSender : Type 0 where
  pub ssrc : ℕ
  pub sequence : ℕ

abbrev pub rtp_min_header_size : ℕ
rtp_min_header_size = 12

unfoldable pub header_offset : List ℕ → Bool → ℕ → Read ℕ
header_offset bytes false offset = ok offset
header_offset bytes true offset = do
  require (not (ltb (length bytes) (offset + 4)))
  words ← read_u16 bytes (offset + 2)
  require (not (ltb (length bytes) (offset + (4 + words * 4))))
  ok (offset + (4 + words * 4))

unfoldable pub check_padding : List ℕ → Bool → ℕ → Read (Unit {0})
check_padding bytes false offset = ok tt
check_padding bytes true offset = do
  pad ← read_u8 bytes (length bytes - 1)
  require (not (pad == 0 || ltb (length bytes - offset) pad))

-- The header, and `payloadOffset`.
unfoldable pub parse_rtp_header : List ℕ → Read (RtpHeader × ℕ)
parse_rtp_header bytes = do
  require (not (ltb (length bytes) rtp_min_header_size))
  b0 ← read_u8 bytes 0
  b1 ← read_u8 bytes 1
  sequence ← read_u16 bytes 2
  timestamp ← read_u32 bytes 4
  ssrc ← read_u32 bytes 8
  require (b0 / 64 % 4 == 2)
  require (not (ltb (length bytes) (rtp_min_header_size + b0 % 16 * 4)))
  offset ← header_offset bytes (b0 / 16 % 2 == 1) (rtp_min_header_size + b0 % 16 * 4)
  _ ← check_padding bytes (b0 / 32 % 2 == 1) offset
  ok (
    record {
      version = b0 / 64 % 4;
      padding = b0 / 32 % 2 == 1;
      extension = b0 / 16 % 2 == 1;
      csrc_count = b0 % 16;
      marker = b1 / 128 % 2 == 1;
      payload_type = b1 % 128;
      sequence_number = sequence;
      timestamp = timestamp;
      ssrc = ssrc;
    },
    offset,
  )

-- `parsePacket` drops the padding once more: `payloadLen` without it.
unfoldable pub payload_length : List ℕ → Bool → ℕ → Read ℕ
payload_length bytes false size = ok size
payload_length bytes true size = do
  pad ← read_u8 bytes (length bytes - 1)
  require (not (pad == 0 || ltb size pad))
  ok (size - pad)

unfoldable pub parse_packet : List ℕ → Read RtpPacket
unfolding parse_rtp_header
parse_packet bytes = do
  (header, offset) ← parse_rtp_header bytes
  size ←
      payload_length bytes (header.padding && ltb 0 (length bytes - offset)) (length bytes - offset)
  ok (record { header = header; payload = take size (drop offset bytes) })

unfoldable pub set_ssrc : RtpSender → ℕ → RtpSender
set_ssrc s ssrc = record s { ssrc = ssrc }

unfoldable pub set_sequence : RtpSender → ℕ → RtpSender
set_sequence s sequence = record s { sequence = sequence }

-- The second header byte: `payloadType & 0x7F`, with the marker's bit set.
abbrev pub type_byte : ℕ → Bool → ℕ
type_byte payload_type marker = if marker then payload_type % 128 + 128 else payload_type % 128

-- The packet on the wire, and the sender with its sequence number advanced (it wraps at 16 bits).
abbrev pub emit : RtpSender → ℕ → Bool → ℕ → List ℕ → List ℕ × RtpSender
emit s payload_type marker timestamp payload = (
  0x80 ∷ type_byte payload_type marker ∷ put16 s.sequence
      ++ (put32 timestamp ++ (put32 s.ssrc ++ payload)),
  record s { sequence = (s.sequence + 1) % 65536 },
)

-- `payload` is `none` for a null pointer: with a length that is not 0 nothing is sent.
unfoldable pub build_packet : RtpSender → ℕ → Bool → ℕ → Option (List ℕ) → ℕ → List ℕ × RtpSender
build_packet s payload_type marker timestamp none payload_len =
    if payload_len == 0 then emit s payload_type marker timestamp [] else ([], s)
build_packet s payload_type marker timestamp (some payload) payload_len =
    emit s payload_type marker timestamp (take payload_len payload)
