-- ===== src/Sfu/Endpoint.antt =====
-- meeting-server/sfu/server: UDP endpoints (`UdpServer::Endpoint`, a `sockaddr_in`) and the functions
-- of MediaIngress and TransportRegistry on them. The address and the port are in host order. The
-- conversion of addresses to text and back is the platform's, a parameter.
pub mod RoundTrip
use meeting_system.Prelude.{
  ℕ, ◌%◌, Bool, true, false, List, [], ◌∷◌, ◌++◌, Option, none, some, ◌&&◌, ◌||◌, ◌==◌,
  if◌then◌else◌, length, ltb,
}
use meeting_system.Prelude.Assoc.{Text, is_empty}
use meeting_system.Prelude.Strings.{to_string, strtoul, split_last}

pub record Endpoint : Type 0 where
  pub sin_family : ℕ
  pub sin_addr : ℕ
  pub sin_port : ℕ

-- `AF_INET`
abbrev pub af_inet : ℕ
af_inet = 2

-- `UdpServer::Endpoint{}`
abbrev pub no_endpoint : Endpoint
no_endpoint = record { sin_family = 0; sin_addr = 0; sin_port = 0 }

unfoldable pub same_endpoint : Endpoint → Endpoint → Bool
same_endpoint left right =
    (left.sin_family == af_inet)
    && ((right.sin_family == af_inet)
        && ((left.sin_addr == right.sin_addr) && (left.sin_port == right.sin_port)))

abbrev pub colon : ℕ
colon = b':'

-- `udp://` in front is dropped.
unfoldable pub strip_udp_scheme : Text → Text
strip_udp_scheme (c0 ∷ c1 ∷ c2 ∷ c3 ∷ c4 ∷ c5 ∷ rest) =
    if (c0 == b'u')
      && ((c1 == b'd') && ((c2 == b'p') && ((c3 == b':') && ((c4 == b'/') && (c5 == b'/')))))
    then rest
    else c0 ∷ c1 ∷ c2 ∷ c3 ∷ c4 ∷ c5 ∷ rest
strip_udp_scheme text = text

-- `inet_pton` and `inet_ntop` for IPv4 addresses; `inet_ntop` does not fail with a buffer of its size.
module _ (inet_pton : Text → Option ℕ) where
  unfoldable pub parse_host_and_port : Text → Text → Option Endpoint
  parse_host_and_port host port =
      if is_empty host || is_empty port then none else elim (inet_pton host) [
        | none ↦ none
        | some address ↦
            let number = strtoul port % 65536 in
            if number == 0
            then none
            else some (record { sin_family = af_inet; sin_addr = address; sin_port = number })
      ]

  unfoldable pub parse_endpoint : Text → Option Endpoint
  unfolding parse_host_and_port
  parse_endpoint text =
      if is_empty text then none else elim (split_last colon (strip_udp_scheme text)) [
        | none ↦ none
        | some (host, port) ↦ parse_host_and_port host port
      ]

module _ (inet_ntop : ℕ → Text) where
  unfoldable pub endpoint_key : Endpoint → Text
  endpoint_key e = inet_ntop e.sin_addr ++ (colon ∷ to_string e.sin_port)

  unfoldable pub feedback_route_key : Endpoint → ℕ → Text
  unfolding endpoint_key
  feedback_route_key e media_ssrc = endpoint_key e ++ (10 ∷ to_string media_ssrc)

unfoldable pub host_from_advertised_address : Text → Text
host_from_advertised_address address = elim (split_last colon (strip_udp_scheme address)) [
  | none ↦ []
  | some (host, port) ↦ host
]
