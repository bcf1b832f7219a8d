-- ===== src/Client/Stun/RoundTrip.antt =====
-- The SFU reads the user name of the client's STUN request, and the client reads the address in the
-- SFU's STUN response.
use meeting_system.Prelude.{
  ℕ, zero, suc, ◌+◌, ◌-◌, ◌^◌, ◌<◌, ◌≡◌, ◌≢◌, refl, ◌∙◌, true, List, [], ◌∷◌, ◌++◌, none, some,
  length, length-append, length-replicate, replicate, arith, take, drop, length-take, length-drop,
}
use meeting_system.Prelude.Assoc.{text_eq}
use meeting_system.Prelude.Assoc.Laws.{beq_refl}
use meeting_system.Prelude.Bytes.{
  Read, ok, read_u16, read_u32, read_u8, read_bytes, byte_at, byte_at-append, put16, put32,
}
use meeting_system.Prelude.Xor.{bit_xor-lt, bit_xor_twice}
use Prim.Native.Nat.{bit_xor}
use meeting_system.Sfu.Endpoint.{Endpoint}
use meeting_system.Sfu.Ingress.Stun.{
  is_stun_packet, username_loop, parse_stun_username, build_stun_binding_response,
}
use meeting_system.Client.Stun.{
  padded_length, build_stun_binding_request, ParseResult, mapped, parse_binding_response,
  parse_attributes, mapped_loop, parse_address_attribute,
}

-- A header of eight bytes, a transaction of twelve, and the attributes.
abbrev message : List ℕ → List ℕ → List ℕ → List ℕ
message header id attributes = header ++ (id ++ attributes)

take_append : (xs ys : List ℕ) (n : ℕ) → n ≡ length xs → take n (xs ++ ys) ≡ xs
take_append [] ys zero e = refl
take_append [] ys (suc n) e = absurd (omega arith)
take_append (x ∷ xs) ys zero e = absurd (omega arith)
take_append (x ∷ xs) ys (suc n) e = rw (take_append xs ys n (omega arith)) refl

drop_append : (xs ys : List ℕ) (n : ℕ) → n ≡ length xs → drop n (xs ++ ys) ≡ ys
drop_append [] ys zero e = refl
drop_append [] ys (suc n) e = absurd (omega arith)
drop_append (x ∷ xs) ys zero e = absurd (omega arith)
drop_append (x ∷ xs) ys (suc n) e = drop_append xs ys n (omega arith)

byte_at_attribute :
    (id attributes : List ℕ) (i : ℕ)
    → length id ≡ 12
    → byte_at (id ++ attributes) (12 + i) ≡ byte_at attributes i
byte_at_attribute id attributes i e = rw (← e) (byte_at-append id attributes i)

-- The first attribute of a request is the user name.
request_username :
    (random username padding : List ℕ) (fuel end : ℕ)
    → length random ≡ 12
    → length username < 256
    → end ≡ 24 + length username + length padding
    → username_loop
        (suc fuel)
        (0 ∷ 1 ∷ put16 (4 + padded_length (length username))
          ++ (0x21
              ∷ 0x12
              ∷ 0xA4
              ∷ 0x42
              ∷ (random ++ (0x00 ∷ 0x06 ∷ put16 (length username) ++ (username ++ padding)))))
        end
        20
      ≡ ok username
unfolding username_loop
request_username random username padding fuel end id small e =
    let attributes : List ℕ = 0x00 ∷ 0x06 ∷ put16 (length username) ++ (username ++ padding) in
    ground (
      arith,
      byte_at_attribute random attributes 0 id,
      byte_at_attribute random attributes 1 id,
      byte_at_attribute random attributes 2 id,
      byte_at_attribute random attributes 3 id,
      length-append random attributes,
      length-append username padding,
      drop_append random attributes 12,
      take_append username padding (length username) refl,
    )

length-request :
    (random username : List ℕ)
    → length random ≡ 12
    → length (
        random
        ++ (0x00 ∷ 0x06 ∷ put16 (length username)
            ++ (username ++ replicate (padded_length (length username) - length username) 0)))
      ≡ 16 + padded_length (length username)
length-request random username id =
    let padding : List ℕ = replicate (padded_length (length username) - length username) 0 in
    omega (
      arith,
      id,
      length-append random (0x00 ∷ 0x06 ∷ put16 (length username) ++ (username ++ padding)),
      length-append username padding,
      length-replicate {A = ℕ} (padded_length (length username) - length username) 0,
    )

-- The user name of a request that the client builds, with 1 to 255 bytes and twelve random ones, is
-- what the SFU finds in it.
pub parse_stun_username-build :
    (random username : List ℕ)
    → length random ≡ 12
    → length username ≢ 0
    → length username < 256
    → parse_stun_username (build_stun_binding_request random username) ≡ ok username
unfolding parse_stun_username build_stun_binding_request is_stun_packet
parse_stun_username-build random username id some_name small =
    let padding : List ℕ = replicate (padded_length (length username) - length username) 0 in
    ground (
      arith,
      length-request random username id,
      length-replicate {A = ℕ} (padded_length (length username) - length username) 0,
      request_username random username padding (24 + padded_length (length username))
          (24 + padded_length (length username)) id small,
    )

-- A response with `x` and `y` in its attribute.
abbrev response : List ℕ → ℕ → ℕ → List ℕ
response id x y =
    0x01
    ∷ 0x01
    ∷ 0x00
    ∷ 0x0C
    ∷ 0x21
    ∷ 0x12
    ∷ 0xA4
    ∷ 0x42
    ∷ (id ++ (0x00 ∷ 0x20 ∷ 0x00 ∷ 0x08 ∷ 0x00 ∷ 0x01 ∷ (put16 x ++ put32 y)))

abbrev attribute : ℕ → ℕ → List ℕ
attribute x y = 0x00 ∷ 0x20 ∷ 0x00 ∷ 0x08 ∷ 0x00 ∷ 0x01 ∷ (put16 x ++ put32 y)

length-response : (id : List ℕ) (x y : ℕ) → length id ≡ 12 → length (response id x y) ≡ 32
length-response id x y e = omega (arith, e, length-append id (attribute x y))

-- The fields of the attribute, read in place.
response_fields :
    (id : List ℕ) (x y : ℕ)
    → length id ≡ 12
    → x < 2 ^ 16
    → y < 2 ^ 32
    → (read_u16 (response id x y) 20 ≡ ok 0x0020)
      × (read_u16 (response id x y) 22 ≡ ok 8)
      × (read_u8 (response id x y) 25 ≡ ok 1)
      × (read_u16 (response id x y) 26 ≡ ok x)
      × (read_u32 (response id x y) 28 ≡ ok y)
response_fields id x y e hx hy =
    let size = length-response id x y e in
    let b = byte_at_attribute id (attribute x y) in
    (
      ground (arith, size, b 0 e, b 1 e),
      ground (arith, size, b 2 e, b 3 e),
      ground (arith, size, b 5 e),
      ground (arith, size, b 6 e, b 7 e),
      ground (arith, size, b 8 e, b 9 e, b 10 e, b 11 e),
    )

response_address :
    (id : List ℕ) (fuel x y : ℕ)
    → length id ≡ 12
    → x < 2 ^ 16
    → y < 2 ^ 32
    → bit_xor x 0x2112 ≢ 0
    → mapped_loop (suc fuel) (response id x y) 32 20 none
      ≡ ok (some (record { address = bit_xor y 0x2112A442; port = bit_xor x 0x2112 }))
unfolding mapped_loop parse_address_attribute
response_address id fuel x y e hx hy some_port =
    let fields = response_fields id x y e hx hy in ground (arith, fields)

response_header :
    (id : List ℕ) (x y : ℕ)
    → length id ≡ 12
    → (read_u16 (response id x y) 0 ≡ ok 0x0101)
      × (read_u16 (response id x y) 2 ≡ ok 12)
      × (read_u32 (response id x y) 4 ≡ ok 0x2112A442)
      × (read_bytes (response id x y) 8 12 ≡ ok id)
response_header id x y e =
    let size = length-response id x y e in
    let transaction = take_append id (attribute x y) 12 (omega (arith, e)) in
    (
      ground (arith, size),
      ground (arith, size),
      ground (arith, size),
      ground (arith, size, transaction),
    )

parse_attributes-response :
    (id : List ℕ) (x y : ℕ)
    → length id ≡ 12
    → x < 2 ^ 16
    → y < 2 ^ 32
    → bit_xor x 0x2112 ≢ 0
    → parse_attributes (response id x y)
      ≡ ok (mapped (record { address = bit_xor y 0x2112A442; port = bit_xor x 0x2112 }))
unfolding parse_attributes
parse_attributes-response id x y e hx hy some_port =
    rw ((response_header id x y e).1, length-response id x y e)
      (rw (response_address id 32 x y e hx hy some_port) refl)

accepted :
    (bytes id : List ℕ) (answer : Read ParseResult)
    → length bytes ≡ 32
    → length id ≡ 12
    → read_u16 bytes 0 ≡ ok 0x0101
    → read_u32 bytes 4 ≡ ok 0x2112A442
    → read_bytes bytes 8 12 ≡ ok id
    → parse_attributes bytes ≡ answer
    → parse_binding_response bytes id ≡ answer
unfolding parse_binding_response
accepted bytes id answer size e type cookie transaction attributes =
    ground (arith, size, e, type, cookie, transaction, beq_refl id, attributes)

parse_response :
    (id : List ℕ) (x y : ℕ)
    → length id ≡ 12
    → x < 2 ^ 16
    → y < 2 ^ 32
    → bit_xor x 0x2112 ≢ 0
    → parse_binding_response (response id x y) id
      ≡ ok (mapped (record { address = bit_xor y 0x2112A442; port = bit_xor x 0x2112 }))
parse_response id x y e hx hy some_port =
    let header = response_header id x y e in
    accepted (response id x y) id _ (length-response id x y e) e header.0 header.2 header.3
      (parse_attributes-response id x y e hx hy some_port)

length-transaction :
    (request : List ℕ) → is_stun_packet request ≡ true → length (take 12 (drop 8 request)) ≡ 12
unfolding is_stun_packet
length-transaction request stun =
    ground (arith, stun, length-take 12 (drop 8 request), length-drop 8 request)

-- The response to a STUN request, as the client reads it that sent the transaction's bytes: the
-- address and the port that the request came from.
pub parse_binding_response-build :
    (request : List ℕ) (from : Endpoint)
    → is_stun_packet request ≡ true
    → from.sin_port ≢ 0
    → from.sin_port < 2 ^ 16
    → from.sin_addr < 2 ^ 32
    → parse_binding_response (build_stun_binding_response request from) (take 12 (drop 8 request))
      ≡ ok (mapped (record { address = from.sin_addr; port = from.sin_port }))
unfolding build_stun_binding_response
parse_binding_response-build request from stun some_port small_port small_address =
    let id = take 12 (drop 8 request) in
    let port_back = bit_xor_twice 16 from.sin_port 0x2112 small_port (omega arith) in
    let address_back = bit_xor_twice 32 from.sin_addr 0x2112A442 small_address (omega arith) in
    rw stun (
      parse_response id (bit_xor from.sin_port 0x2112) (bit_xor from.sin_addr 0x2112A442)
        (length-transaction request stun)
        (bit_xor-lt 16 from.sin_port 0x2112 small_port (omega arith))
        (bit_xor-lt 32 from.sin_addr 0x2112A442 small_address (omega arith))
        (rw port_back some_port)
      ∙ ground (arith, port_back, address_back))
