-- ===== src/Sfu/Rpc/RoundTrip.antt =====
-- EncodeRpcFrame and DecodeRpcFrame are inverse to one another.
use meeting_system.Prelude.{
  ℕ, ◌+◌, ◌^◌, ◌≤◌, ◌<◌, ◌≡◌, ◌≢◌, ◌⊎◌, List, ◌∷◌, some, arith, length, drop, length-drop, ap, ◌∙◌,
  ◌-◌,
}
use meeting_system.Prelude.Bytes.{
  ok, fault, AreBytes, byte_at, byte_at-lt, be16, be32, drop-cons, put16-be16, put32-be32,
}
use meeting_system.Sfu.Rpc.{
  RpcFrame, encode_rpc_frame, decode_rpc_frame, request, response, rpc_max_payload_size,
}

-- The fields fit their types, the kind is one of the two, and the payload is not too long.
pub record IsFrame (f : RpcFrame) : Type 0 where
  pub method : f.method < 2 ^ 16
  pub kind : (f.kind ≡ request) ⊎ (f.kind ≡ response)
  pub status : f.status < 2 ^ 16
  pub payload : length f.payload ≤ rpc_max_payload_size

-- The decoder reads no byte outside the buffer.
pub decode_rpc_frame-ne-fault : (bytes : List ℕ) → decode_rpc_frame bytes ≢ fault
unfolding decode_rpc_frame
decode_rpc_frame-ne-fault bytes h = ground arith

-- What the decoder's tests have shown when it accepts.
record Accepted (bytes : List ℕ) (f : RpcFrame) : Type 0 where
  long : 14 ≤ length bytes
  magic : be32 (byte_at bytes 0) (byte_at bytes 1) (byte_at bytes 2) (byte_at bytes 3) ≡ 0x53465552
  version : byte_at bytes 4 ≡ 1
  kind : byte_at bytes 5 ≡ f.kind
  valid : (f.kind ≡ request) ⊎ (f.kind ≡ response)
  method : be16 (byte_at bytes 6) (byte_at bytes 7) ≡ f.method
  status : be16 (byte_at bytes 8) (byte_at bytes 9) ≡ f.status
  size :
      be32 (byte_at bytes 10) (byte_at bytes 11) (byte_at bytes 12) (byte_at bytes 13)
      ≡ length bytes - 14
  small : length bytes ≤ 14 + rpc_max_payload_size
  payload : f.payload ≡ drop 14 bytes

decode-Accepted : (bytes : List ℕ) {f : RpcFrame} → decode_rpc_frame bytes ≡ ok f → Accepted bytes f
unfolding decode_rpc_frame
decode-Accepted bytes e = ground arith

header_bytes :
    (bytes : List ℕ)
    → 14 ≤ length bytes
    → bytes
      ≡ byte_at bytes 0
        ∷ byte_at bytes 1
        ∷ byte_at bytes 2
        ∷ byte_at bytes 3
        ∷ byte_at bytes 4
        ∷ byte_at bytes 5
        ∷ byte_at bytes 6
        ∷ byte_at bytes 7
        ∷ byte_at bytes 8
        ∷ byte_at bytes 9
        ∷ byte_at bytes 10
        ∷ byte_at bytes 11
        ∷ byte_at bytes 12
        ∷ byte_at bytes 13
        ∷ drop 14 bytes
header_bytes bytes h = cc (
  drop-cons 0 bytes (omega arith),
  drop-cons 1 bytes (omega arith),
  drop-cons 2 bytes (omega arith),
  drop-cons 3 bytes (omega arith),
  drop-cons 4 bytes (omega arith),
  drop-cons 5 bytes (omega arith),
  drop-cons 6 bytes (omega arith),
  drop-cons 7 bytes (omega arith),
  drop-cons 8 bytes (omega arith),
  drop-cons 9 bytes (omega arith),
  drop-cons 10 bytes (omega arith),
  drop-cons 11 bytes (omega arith),
  drop-cons 12 bytes (omega arith),
  drop-cons 13 bytes (omega arith),
)

-- What the decoder accepts is the encoding of the frame that it answers with, and no other bytes
-- are: a frame has one encoding.
pub encode-decode_rpc_frame :
    (bytes : List ℕ) {f : RpcFrame}
    → AreBytes bytes
    → decode_rpc_frame bytes ≡ ok f
    → IsFrame f × (encode_rpc_frame f ≡ some bytes)
unfolding encode_rpc_frame
encode-decode_rpc_frame bytes {f} h e = (
  frame,
  ground (
    arith,
    header_bytes bytes a.long,
    length_payload,
    frame,
    a,
    put32-be32 (byte_at bytes 0) (byte_at bytes 1) (byte_at bytes 2) (byte_at bytes 3) (small 0)
        (small 1) (small 2) (small 3),
    put32-be32 (byte_at bytes 10) (byte_at bytes 11) (byte_at bytes 12) (byte_at bytes 13)
        (small 10) (small 11) (small 12) (small 13),
    put16-be16 (byte_at bytes 6) (byte_at bytes 7) (small 6) (small 7),
    put16-be16 (byte_at bytes 8) (byte_at bytes 9) (small 8) (small 9),
  ),
)
  where
    a : Accepted bytes f
    a = decode-Accepted bytes e

    small : (i : ℕ) → byte_at bytes i < 256
    small i = byte_at-lt bytes i h

    length_payload : length f.payload ≡ length bytes - 14
    length_payload = ap length a.payload ∙ length-drop 14 bytes

    frame : IsFrame f
    frame = record {
      method = omega (arith, a.method, small 6, small 7);
      kind = a.valid;
      status = omega (arith, a.status, small 8, small 9);
      payload = omega (arith, length_payload, a.small);
    }
