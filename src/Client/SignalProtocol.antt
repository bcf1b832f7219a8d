-- ===== src/Client/SignalProtocol.antt =====
-- plasma-hawking/src/net/signaling/SignalProtocol: the frames of the signaling connection.
pub mod RoundTrip
use meeting_system.Prelude.{
  ℕ, ◌+◌, ◌%◌, Bool, List, [], ◌∷◌, ◌++◌, Option, none, some, not, ◌||◌, ltb, ◌==◌, if◌then◌else◌,
  length,
}
use meeting_system.Prelude.Bytes.{byte_at, be16, be32, put16, put32}

pub record FrameHeader : Type 0 where
  pub type : ℕ
  pub length : ℕ

unfoldable pub encode_frame : ℕ → List ℕ → List ℕ
encode_frame type payload =
    0xAB ∷ 0xCD ∷ 0x01 ∷ put16 type ++ (put32 (length payload % 4294967296) ++ payload)

-- The test of the size comes first, so every byte that is read is there.
unfoldable pub decode_header : List ℕ → ℕ → Option FrameHeader
decode_header bytes max_payload_len =
    if not (length bytes == 9)
    then none
    else if not (byte_at bytes 0 == 0xAB)
        || (not (byte_at bytes 1 == 0xCD) || not (byte_at bytes 2 == 0x01))
    then none
    else let len = be32 (byte_at bytes 5) (byte_at bytes 6) (byte_at bytes 7) (byte_at bytes 8) in
      if ltb max_payload_len len
      then none
      else some (record { type = be16 (byte_at bytes 3) (byte_at bytes 4); length = len })
