-- ===== src/Sfu/Ingress/Stun.antt =====
-- meeting-server/sfu/server/MediaIngress: the STUN requests that it answers, and what tells STUN, DTLS
-- and RTCP datagrams from RTP.
pub mod Safety
use meeting_system.Prelude.{
  ℕ, zero, suc, ◌+◌, ◌*◌, ◌/◌, ◌%◌, ◌^◌, Bool, true, false, List, [], ◌∷◌, ◌++◌, Option, none, some,
  not, ◌&&◌, ◌||◌, ltb, leb, ◌==◌, if◌then◌else◌, length, take, drop,
}
use meeting_system.Prelude.Assoc.{Text}
use meeting_system.Prelude.Bytes.{
  Read, ok, fault, ◌>>=◌, byte_at, read_u16, read_bytes, put16, put32,
}
use meeting_system.Sfu.Endpoint.{Endpoint}
use Prim.Native.Nat.{bit_xor}

-- The test of the size comes first in each of these, so every byte that is read is there.
unfoldable pub is_stun_packet : List ℕ → Bool
is_stun_packet bytes =
    if ltb (length bytes) 20
    then false
    else (byte_at bytes 0 / 64 == 0)
      && ((byte_at bytes 4 == 0x21)
          && ((byte_at bytes 5 == 0x12)
              && ((byte_at bytes 6 == 0xA4) && (byte_at bytes 7 == 0x42))))

-- `DtlsTransport::LooksLikeDtlsRecord`
unfoldable pub looks_like_dtls_record : List ℕ → Bool
looks_like_dtls_record bytes =
    if ltb (length bytes) 13
    then false
    else (leb 20 (byte_at bytes 0) && leb (byte_at bytes 0) 24)
      && ((byte_at bytes 1 == 0xFE)
          && ((byte_at bytes 2 == 0xFF)
              || ((byte_at bytes 2 == 0xFD) || (byte_at bytes 2 == 0xFC))))

unfoldable pub looks_like_rtcp : List ℕ → Bool
looks_like_rtcp bytes =
    if ltb (length bytes) 4
    then false
    else (byte_at bytes 0 / 64 % 4 == 2) && (leb 192 (byte_at bytes 1) && leb (byte_at bytes 1) 223)

-- The loop over the attributes, on fuel; `fault` also stands for fuel that ran out.
unfoldable pub username_loop : ℕ → List ℕ → ℕ → ℕ → Read Text
username_loop zero bytes end offset = fault
username_loop (suc fuel) bytes end offset =
    let round : Read Text = read_u16 bytes offset >>= λ type.
    read_u16 bytes (offset + 2) >>= λ size.
    (let later = username_loop fuel bytes end (offset + 4 + (size + 3) / 4 * 4) in
      if ltb end (offset + 4 + size)
      then ok []
      else if type == 0x0006
      then read_bytes bytes (offset + 4) size
      else later) in
    if leb (offset + 4) end then round else ok []

-- Each round takes four bytes at least, so a round for each byte and a last one are enough.
unfoldable pub parse_stun_username : List ℕ → Read Text
parse_stun_username bytes =
    let attributes : Read Text = read_u16 bytes 2 >>= λ size.
    (let found = username_loop (suc (length bytes)) bytes (20 + size) 20 in
      if ltb (length bytes) (20 + size) then ok [] else found) in
    if not (is_stun_packet bytes) then ok [] else attributes

abbrev pub magic_cookie : ℕ
magic_cookie = 0x2112A442

-- Empty unless the request is STUN.
unfoldable pub build_stun_binding_response : List ℕ → Endpoint → List ℕ
build_stun_binding_response request from =
    if not (is_stun_packet request)
    then []
    else 0x01
      ∷ 0x01
      ∷ 0x00
      ∷ 0x0C
      ∷ 0x21
      ∷ 0x12
      ∷ 0xA4
      ∷ 0x42
      ∷ (take 12 (drop 8 request)
          ++ (0x00
              ∷ 0x20
              ∷ 0x00
              ∷ 0x08
              ∷ 0x00
              ∷ 0x01
              ∷ (put16 (bit_xor from.sin_port 0x2112)
                  ++ put32 (bit_xor from.sin_addr magic_cookie))))
