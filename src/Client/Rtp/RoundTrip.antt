-- ===== src/Client/Rtp/RoundTrip.antt =====
-- What RTPSender builds, read by RTPReceiver.
use meeting_system.Prelude.{
  ℕ, ◌^◌, ◌<◌, ◌≡◌, refl, Bool, false, List, [], ◌∷◌, some, ap, arith, take, length,
}
use meeting_system.Prelude.Bytes.{ok}
use meeting_system.Client.Rtp.{
  RtpSender, parse_packet, build_packet, header_offset, check_padding, payload_length,
}

take-all {ℓ} : {A : Type ℓ} (xs : List A) → take (length xs) xs ≡ xs
take-all [] = refl
take-all (x ∷ xs) = ap (λ t. x ∷ t) (take-all xs)

-- A packet that the sender builds, with a header and a sender in the range of their types, parses to
-- the header that it was built with and to its payload.
pub parse_packet-build_packet :
    (s : RtpSender) (payload_type : ℕ) (marker : Bool) (timestamp : ℕ) (payload : List ℕ)
    → s.ssrc < 2 ^ 32
    → s.sequence < 2 ^ 16
    → timestamp < 2 ^ 32
    → payload_type < 128
    → parse_packet (build_packet s payload_type marker timestamp (some payload) (length payload)).0
      ≡ ok (record {
        header = record {
          version = 2;
          padding = false;
          extension = false;
          csrc_count = 0;
          marker = marker;
          payload_type = payload_type;
          sequence_number = s.sequence;
          timestamp = timestamp;
          ssrc = s.ssrc;
        };
        payload = payload;
      })
unfolding parse_packet build_packet header_offset check_padding payload_length
parse_packet-build_packet s pt m ts payload hs hq ht hp = ground (arith, take-all payload)
