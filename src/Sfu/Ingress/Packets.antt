-- ===== src/Sfu/Ingress/Packets.antt =====
-- meeting-server/sfu/server/MediaIngress: the RTCP packets that it builds, and the round-trip time that
-- it computes. A time is a number of nanoseconds.
pub mod Bitrate
use meeting_system.Prelude.{
  ℕ, zero, suc, ◌+◌, ◌-◌, ◌*◌, ◌/◌, ◌%◌, ◌^◌, Bool, true, false, List, [], ◌∷◌, ◌++◌, ◌&&◌, ◌||◌,
  ltb, leb, ◌==◌, if◌then◌else◌,
}
use meeting_system.Prelude.Bytes.{put32}
use meeting_system.Sfu.Room.{Publisher}

unfoldable pub build_remb_packet : (sender_ssrc media_ssrc exp mantissa target_ssrc : ℕ) → List ℕ
build_remb_packet sender_ssrc media_ssrc exp mantissa target_ssrc =
    let capped = mantissa % 2 ^ 18 in
    0x8F
    ∷ 0xCE
    ∷ 0x00
    ∷ 0x05
    ∷ (put32 sender_ssrc
        ++ (put32 media_ssrc
            ++ (b'R'
                ∷ b'E'
                ∷ b'M'
                ∷ b'B'
                ∷ 0x01
                ∷ (exp % 64 * 4 + capped / 65536 % 4)
                ∷ (capped / 256 % 256)
                ∷ (capped % 256)
                ∷ put32 target_ssrc)))

-- The loop, by the rounds left: the exponent stops at 63. The sum has 32 bits.
unfoldable pub encode_loop : ℕ → ℕ → ℕ → ℕ × ℕ
encode_loop zero exp mantissa = (exp, mantissa)
encode_loop (suc left) exp mantissa =
    let more = encode_loop left (exp + 1) ((mantissa + 1) % 2 ^ 32 / 2) in
    if ltb 0x3FFFF mantissa then more else (exp, mantissa)

-- The exponent and the mantissa.
unfoldable pub encode_remb_bitrate : ℕ → ℕ × ℕ
unfolding encode_loop
encode_remb_bitrate bitrate =
    let (exp, mantissa) = encode_loop 63 0 bitrate in (exp, mantissa % 2 ^ 18)

unfoldable pub build_receiver_report_packet : (receiver_ssrc source_ssrc last delay : ℕ) → List ℕ
build_receiver_report_packet receiver_ssrc source_ssrc last delay =
    0x81
    ∷ 0xC9
    ∷ 0x00
    ∷ 0x07
    ∷ (put32 receiver_ssrc
        ++ (put32 source_ssrc
            ++ (0x00
                ∷ 0x00
                ∷ 0x00
                ∷ 0x00
                ∷ 0x00
                ∷ 0x00
                ∷ 0x00
                ∷ 0x00
                ∷ 0x00
                ∷ 0x00
                ∷ 0x00
                ∷ 0x00
                ∷ (put32 last ++ put32 delay))))

-- The picture loss indication that is passed on to a publisher.
unfoldable pub build_pli_packet : (sender_ssrc source_ssrc : ℕ) → List ℕ
build_pli_packet sender_ssrc source_ssrc =
    0x81 ∷ 0xCE ∷ 0x00 ∷ 0x02 ∷ (put32 sender_ssrc ++ put32 source_ssrc)

-- The clock rate is that of the kind that the publisher sends under the SSRC.
unfoldable pub jitter_to_ms : Publisher → ℕ → ℕ → ℕ
jitter_to_ms publisher source_ssrc jitter =
    if (source_ssrc == 0) || (jitter == 0)
    then 0
    else if publisher.audio_ssrc == source_ssrc
    then jitter * 1000 / 48000 % 2 ^ 32
    else if publisher.video_ssrc == source_ssrc
    then jitter * 1000 / 90000 % 2 ^ 32
    else 0

unfoldable pub compact_ntp_from_timestamp : ℕ → ℕ
compact_ntp_from_timestamp ntp = ntp / 65536 % 2 ^ 32

-- An elapsed time, in microseconds first; the product has 64 bits.
unfoldable pub compact_ntp_from_elapsed : ℕ → ℕ
compact_ntp_from_elapsed elapsed = elapsed / 1000 * 65536 % 2 ^ 64 / 1000000 % 2 ^ 32

-- Rounded up.
unfoldable pub compact_ntp_to_ms : ℕ → ℕ
compact_ntp_to_ms compact = (compact * 1000 + 65535) / 65536 % 2 ^ 32

pub record SenderReportLedgerEntry : Type 0 where
  pub compact_ntp : ℕ
  pub observed_at : ℕ

unfoldable pub compute_rtt_ms : SenderReportLedgerEntry → (last delay now : ℕ) → ℕ
unfolding compact_ntp_from_elapsed compact_ntp_to_ms
compute_rtt_ms entry last delay now =
    let arrival =
      (entry.compact_ntp + compact_ntp_from_elapsed (now - entry.observed_at)) % 2 ^ 32 in
    let reflected = last + delay in
    if (entry.compact_ntp == 0)
      || ((last == 0) || (if entry.compact_ntp == last then leb now entry.observed_at else true))
    then 0
    else if leb arrival reflected
    then 0
    else compact_ntp_to_ms ((arrival - reflected) % 2 ^ 32)
