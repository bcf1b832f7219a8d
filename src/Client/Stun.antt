-- ===== src/Client/Stun.antt =====
-- plasma-hawking/src: the STUN requests of app/MeetingController and net/ice/StunClient, and the
-- responses that StunClient reads. The random bytes are an argument; a user name is the UTF-8 text of
-- the trimmed string. A `QHostAddress` made of a number is never null.
pub mod RoundTrip
use meeting_system.Prelude.{
  ℕ, zero, suc, ◌+◌, ◌-◌, ◌*◌, ◌/◌, ◌%◌, ◌^◌, Bool, true, false, List, [], ◌∷◌, ◌++◌, Option, none,
  some, not, ◌&&◌, ◌||◌, ltb, leb, ◌==◌, if◌then◌else◌, length, replicate,
}
use meeting_system.Prelude.Assoc.{Text, text_beq}
use meeting_system.Prelude.Bytes.{
  Read, ok, fault, ◌>>=◌, read_u8, read_u16, read_u32, read_bytes, put16, put32,
}
use Prim.Native.Nat.{bit_xor}

-- `paddedLength`
abbrev pub padded_length : ℕ → ℕ
padded_length length = (length + 3) / 4 * 4

-- `buildStunBindingRequest` of MeetingController.
unfoldable pub build_stun_binding_request : List ℕ → Text → List ℕ
build_stun_binding_request random username =
    if (length username == 0) || ltb 255 (length username)
    then []
    else 0x00 ∷ 0x01 ∷ put16 (4 + padded_length (length username))
      ++ (0x21
          ∷ 0x12
          ∷ 0xA4
          ∷ 0x42
          ∷ (random
              ++ (0x00 ∷ 0x06 ∷ put16 (length username)
                  ++ (username
                      ++ replicate (padded_length (length username) - length username) 0))))

-- `StunClient::buildBindingRequest`
unfoldable pub build_binding_request : List ℕ → List ℕ
build_binding_request transaction_id =
    if not (length transaction_id == 12)
    then []
    else 0x00 ∷ 0x01 ∷ 0x00 ∷ 0x00 ∷ 0x21 ∷ 0x12 ∷ 0xA4 ∷ 0x42 ∷ transaction_id

pub record StunEndpoint : Type 0 where
  pub address : ℕ
  pub port : ℕ

pub data StunError : Type 0 where
  short_response not_a_success wrong_transaction truncated no_mapped_address : StunError

pub data ParseResult : Type 0 where
  mapped : StunEndpoint → ParseResult
  failed : StunError → ParseResult

abbrev pub xor_mapped : ℕ
xor_mapped = 0x0020

-- `none` is the answer `false`.
unfoldable pub parse_address_attribute : List ℕ → ℕ → ℕ → ℕ → Read (Option StunEndpoint)
parse_address_attribute bytes type value size = if ltb size 8 then ok none else do
  family ← read_u8 bytes (value + 1)
  port ← read_u16 bytes (value + 2)
  address ← read_u32 bytes (value + 4)
  let port' = if type == xor_mapped then bit_xor port 0x2112 else port
  let address' = if type == xor_mapped then bit_xor address 0x2112A442 else address
  if not (family == 1) || (port' == 0)
      then ok none
      else ok (some (record { address = address'; port = port' }))

abbrev pub is_mapped : ℕ → Bool
is_mapped type = (type == xor_mapped) || (type == 0x0001)

abbrev pub parse_if_mapped : List ℕ → ℕ → ℕ → ℕ → Read (Option StunEndpoint)
parse_if_mapped bytes type value size =
    if is_mapped type then parse_address_attribute bytes type value size else ok none

-- The loop over the attributes, on fuel, with the address that it ends with.
unfoldable pub mapped_loop : ℕ → List ℕ → ℕ → ℕ → Option StunEndpoint → Read (Option StunEndpoint)
unfolding parse_address_attribute
mapped_loop zero bytes end offset fallback = fault
mapped_loop (suc fuel) bytes end offset fallback =
    let round : Read (Option StunEndpoint) = read_u16 bytes offset >>= λ type.
    read_u16 bytes (offset + 2) >>= λ size.
    (let attribute : Read (Option StunEndpoint) =
        parse_if_mapped bytes type (offset + 4) size >>= λ parsed. elim parsed [
          | none ↦ mapped_loop fuel bytes end (offset + 4 + padded_length size) fallback
          | some endpoint ↦
              (let later =
                  mapped_loop fuel bytes end (offset + 4 + padded_length size) (some endpoint) in
                if type == xor_mapped then ok (some endpoint) else later)
        ] in
      if ltb end (offset + 4 + size) then ok fallback else attribute) in
    if leb (offset + 4) end then round else ok fallback

abbrev pub result_of : Option StunEndpoint → ParseResult
result_of none = failed no_mapped_address
result_of (some endpoint) = mapped endpoint

unfoldable pub parse_attributes : List ℕ → Read ParseResult
parse_attributes bytes = do
  size ← read_u16 bytes 2
  let found = mapped_loop (suc (length bytes)) bytes (20 + size) 20 none
  if ltb (length bytes) (20 + size)
      then ok (failed truncated)
      else found >>= λ endpoint. ok (result_of endpoint)

unfoldable pub parse_binding_response : List ℕ → List ℕ → Read ParseResult
parse_binding_response bytes transaction_id =
    if ltb (length bytes) 20 || not (length transaction_id == 12)
    then ok (failed short_response)
    else do
      type ← read_u16 bytes 0
      cookie ← read_u32 bytes 4
      if not (type == 0x0101) || not (cookie == 0x2112A442) then ok (failed not_a_success) else do
        id ← read_bytes bytes 8 12
        if not (text_beq id transaction_id)
            then ok (failed wrong_transaction)
            else parse_attributes bytes
