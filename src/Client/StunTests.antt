-- ===== src/Client/StunTests.antt =====
-- The client's STUN requests on small examples.
use meeting_system.Prelude.{ℕ, ◌≡◌, refl, List, [], ◌∷◌, true, take, drop, replicate, arith}
use meeting_system.Prelude.Bytes.{ok}
use meeting_system.Sfu.Endpoint.{Endpoint, af_inet}
use meeting_system.Sfu.Ingress.Stun.{
  is_stun_packet, parse_stun_username, build_stun_binding_response,
}
use meeting_system.Client.Stun.{build_stun_binding_request, mapped, parse_binding_response}
use meeting_system.Client.Stun.RoundTrip.{parse_stun_username-build, parse_binding_response-build}

parse_stun_username-build_example :
    parse_stun_username (build_stun_binding_request (replicate 12 7) (b's' ∷ b':' ∷ b'c' ∷ []))
    ≡ ok (b's' ∷ b':' ∷ b'c' ∷ [])
parse_stun_username-build_example =
    parse_stun_username-build (replicate 12 7) (b's' ∷ b':' ∷ b'c' ∷ []) refl
      (λ e. absurd (omega (arith, e))) (omega arith)

-- A request with the transaction 1 to 12, and where it comes from.
abbrev request : List ℕ
request =
    0 ∷ 1 ∷ 0 ∷ 0 ∷ 0x21 ∷ 0x12 ∷ 0xA4 ∷ 0x42 ∷ 1 ∷ 2 ∷ 3 ∷ 4 ∷ 5 ∷ 6 ∷ 7 ∷ 8 ∷ 9 ∷ 10 ∷ 11 ∷ 12
    ∷ []

abbrev from_client : Endpoint
from_client = record { sin_family = af_inet; sin_port = 5004; sin_addr = 16777343 }

request_is_stun : is_stun_packet request ≡ true
unfolding is_stun_packet
request_is_stun = refl

parse_binding_response-build_example :
    parse_binding_response
      (build_stun_binding_response request from_client)
      (take 12 (drop 8 request))
    ≡ ok (mapped (record { address = 16777343; port = 5004 }))
parse_binding_response-build_example =
    parse_binding_response-build request from_client request_is_stun (λ e. absurd (omega arith))
      (omega arith) (omega arith)
