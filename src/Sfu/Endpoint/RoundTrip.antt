-- ===== src/Sfu/Endpoint/RoundTrip.antt =====
-- The text under which an endpoint is stored is read back as the endpoint.
use meeting_system.Prelude.{
  ℕ, ◌<◌, ◌≡◌, ◌≢◌, refl, Bool, false, [], ◌∷◌, ◌++◌, Option, some, arith, ◌==◌,
}
use meeting_system.Prelude.Assoc.{Text, is_empty}
use meeting_system.Prelude.Strings.{
  to_string, strtoul-to_string, split_last-append, to_string-Lacks, to_string-ne-nil,
}
use meeting_system.Sfu.Endpoint.{
  Endpoint, af_inet, colon, strip_udp_scheme, parse_endpoint, parse_host_and_port, endpoint_key,
}

-- A text that does not begin with `u` has no scheme.
abbrev pub starts_with_u : Text → Bool
starts_with_u [] = false
starts_with_u (c ∷ cs) = c == b'u'

strip_udp_scheme-id : (text : Text) → starts_with_u text ≡ false → strip_udp_scheme text ≡ text
unfolding strip_udp_scheme
strip_udp_scheme-id [] h = refl
strip_udp_scheme-id (a ∷ []) h = refl
strip_udp_scheme-id (a ∷ b ∷ []) h = refl
strip_udp_scheme-id (a ∷ b ∷ c ∷ []) h = refl
strip_udp_scheme-id (a ∷ b ∷ c ∷ d ∷ []) h = refl
strip_udp_scheme-id (a ∷ b ∷ c ∷ d ∷ e ∷ []) h = refl
strip_udp_scheme-id (a ∷ b ∷ c ∷ d ∷ e ∷ f ∷ rest) h = rw h refl

is_empty-to_string : (n : ℕ) → is_empty (to_string n) ≡ false
is_empty-to_string n = ground (arith, to_string-ne-nil n)

-- The key of a host that is not empty and does not begin with `u`, parsed as far as the two parts.
parse_endpoint-parts :
    (inet_pton : Text → Option ℕ) (host : Text) (port : ℕ)
    → is_empty host ≡ false
    → starts_with_u host ≡ false
    → parse_endpoint inet_pton (host ++ (colon ∷ to_string port))
      ≡ parse_host_and_port inet_pton host (to_string port)
unfolding parse_endpoint
parse_endpoint-parts inet_pton [] port some_host no_scheme = cc
parse_endpoint-parts inet_pton (c ∷ cs) port some_host no_scheme =
    rw (strip_udp_scheme-id (c ∷ cs ++ (colon ∷ to_string port)) no_scheme) (
      rw
        (
          split_last-append colon (c ∷ cs) (to_string port) (to_string-Lacks colon port refl),
          parse_endpoint,
        )
        refl)

-- With an address that the platform writes in digits and dots and reads back: the text of an IPv4
-- endpoint with a port other than 0 parses to the endpoint.
pub parse_endpoint-endpoint_key :
    (inet_pton : Text → Option ℕ) (inet_ntop : ℕ → Text) (e : Endpoint)
    → e.sin_family ≡ af_inet
    → e.sin_port ≢ 0
    → e.sin_port < 65536
    → inet_pton (inet_ntop e.sin_addr) ≡ some e.sin_addr
    → is_empty (inet_ntop e.sin_addr) ≡ false
    → starts_with_u (inet_ntop e.sin_addr) ≡ false
    → parse_endpoint inet_pton (endpoint_key inet_ntop e) ≡ some e
unfolding endpoint_key parse_host_and_port
parse_endpoint-endpoint_key inet_pton inet_ntop e inet port small back some_host no_scheme =
    rw (parse_endpoint-parts inet_pton (inet_ntop e.sin_addr) e.sin_port some_host no_scheme) (
      ground (
        arith,
        some_host,
        is_empty-to_string e.sin_port,
        strtoul-to_string e.sin_port (omega arith),
        back,
      ))
