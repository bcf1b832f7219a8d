-- ===== src/Client/SignalProtocol/RoundTrip.antt =====
-- Encoding and decoding the header of SignalProtocol's frames.
use meeting_system.Prelude.{
  ℕ, ◌/◌, ◌%◌, ◌≤◌, ◌<◌, ◌≡◌, refl, List, [], ◌∷◌, ◌++◌, some, length, take, drop, arith,
}
use meeting_system.Prelude.Bytes.{be16, be32, AreBytes, put16-be16, put32-be32}
use meeting_system.Client.SignalProtocol.{FrameHeader, encode_frame, decode_header}

put16_lem : (v : ℕ) → v < 65536 → be16 (v / 256 % 256) (v % 256) ≡ v
put16_lem v h = omega arith

put32_lem :
    (v : ℕ)
    → v < 4294967296
    → be32 (v / 16777216 % 256) (v / 65536 % 256) (v / 256 % 256) (v % 256) ≡ v
put32_lem v h = omega arith

-- The receiver that reads nine bytes of a frame decodes the type and the payload's length, and the
-- rest of the frame is the payload.
pub decode_header-encode_frame :
    (type max_payload_len : ℕ) (payload : List ℕ)
    → type < 65536
    → length payload < 4294967296
    → length payload ≤ max_payload_len
    → (decode_header (take 9 (encode_frame type payload)) max_payload_len
        ≡ some (record { type = type; length = length payload }))
      × (drop 9 (encode_frame type payload) ≡ payload)
unfolding decode_header encode_frame
decode_header-encode_frame type max_payload_len payload ht hl hm =
    (ground (arith, put16_lem type ht, put32_lem (length payload) hl), refl)

decode_header-length :
    (bytes : List ℕ) (max_payload_len : ℕ) (h : FrameHeader)
    → decode_header bytes max_payload_len ≡ some h
    → length bytes ≡ 9
unfolding decode_header
decode_header-length bytes max_payload_len h e = ground (arith, e)

nine_bytes :
    (P : List ℕ → Type 0) (bytes : List ℕ)
    → length bytes ≡ 9
    → ((a b c d e f g i j : ℕ) → P (a ∷ b ∷ c ∷ d ∷ e ∷ f ∷ g ∷ i ∷ j ∷ []))
    → P bytes
nine_bytes P (a ∷ b ∷ c ∷ d ∷ e ∷ f ∷ g ∷ i ∷ j ∷ []) n k = k a b c d e f g i j
nine_bytes P _ n k = absurd (omega arith)

header_fields :
    (a b c d e f g i j max_payload_len : ℕ) (h : FrameHeader)
    → decode_header (a ∷ b ∷ c ∷ d ∷ e ∷ f ∷ g ∷ i ∷ j ∷ []) max_payload_len ≡ some h
    → (a ≡ 0xAB)
      × (b ≡ 0xCD)
      × (c ≡ 0x01)
      × (h.type ≡ be16 d e)
      × (h.length ≡ be32 f g i j)
      × (h.length ≤ max_payload_len)
unfolding decode_header
header_fields a b c d e f g i j max_payload_len h dec = (
  ground (arith, dec),
  ground (arith, dec),
  ground (arith, dec),
  ground (arith, dec),
  ground (arith, dec),
  ground (arith, dec),
)

header_bytes :
    (payload : List ℕ) (max_payload_len : ℕ) (h : FrameHeader)
    → length payload ≡ h.length
    → (a b c d e f g i j : ℕ) → AreBytes (a ∷ b ∷ c ∷ d ∷ e ∷ f ∷ g ∷ i ∷ j ∷ [])
    → decode_header (a ∷ b ∷ c ∷ d ∷ e ∷ f ∷ g ∷ i ∷ j ∷ []) max_payload_len ≡ some h
    → (encode_frame h.type payload ≡ a ∷ b ∷ c ∷ d ∷ e ∷ f ∷ g ∷ i ∷ j ∷ payload)
      × (h.length ≤ max_payload_len)
unfolding decode_header encode_frame
header_bytes payload max_payload_len h l a b c d e f g i j small dec =
    let found = header_fields a b c d e f g i j max_payload_len h dec in
    let type = put16-be16 d e (ground (arith, small)) (ground (arith, small)) in
    let len =
      put32-be32 f g i j (ground (arith, small)) (ground (arith, small)) (ground (arith, small))
        (ground (arith, small)) in
    ground (arith, found, type, len, l, small)

-- Whatever nine bytes decode, with a payload of the length that they announce they are the beginning
-- of the frame that the encoder writes, and that length is within the limit.
pub encode_frame-decode_header :
    (bytes payload : List ℕ) (max_payload_len : ℕ) (h : FrameHeader)
    → AreBytes bytes
    → decode_header bytes max_payload_len ≡ some h
    → length payload ≡ h.length
    → (encode_frame h.type payload ≡ bytes ++ payload) × (h.length ≤ max_payload_len)
unfolding decode_header encode_frame
encode_frame-decode_header bytes payload max_payload_len h small e l =
    let nine = decode_header-length bytes max_payload_len h e in
    nine_bytes
      (λ bytes.
        AreBytes bytes
        → decode_header bytes max_payload_len ≡ some h
        → (encode_frame h.type payload ≡ bytes ++ payload) × (h.length ≤ max_payload_len))
      bytes nine (λ a b c d e f g i j. header_bytes payload max_payload_len h l a b c d e f g i j)
      small e
