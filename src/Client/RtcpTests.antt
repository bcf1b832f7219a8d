-- ===== src/Client/RtcpTests.antt =====
-- The theorems on the client's RTCP feedback at concrete numbers.
use meeting_system.Prelude.{ℕ, ◌≡◌, refl, List, [], ◌∷◌, arith, length}
use meeting_system.Prelude.Int.{ℤ, pos}
use meeting_system.Prelude.Bytes.{ok}
use meeting_system.Sfu.Rtp.Rtcp.Feedback.{parse_pli_feedback, parse_nack_feedback}
use meeting_system.Client.RtcpActions.{VideoRtcpActionPipeline, build_picture_loss_indication}
use meeting_system.Client.RtcpActions.RoundTrip.{parse_pli_feedback-build}
use meeting_system.Client.NackFeedback.{
  place, sort_sequences, drop_equal, unique, set_bit, gather, nack_block_list, block_bytes,
  write_nack, build_nack_feedback,
}
use meeting_system.Client.NackFeedback.RoundTrip.{Names, parse_nack_feedback-build}

parse_pli_feedback-build_example :
    parse_pli_feedback (build_picture_loss_indication 1 5)
    ≡ ok (record { sender_ssrc = 1; media_ssrc = 5 } ∷ [])
parse_pli_feedback-build_example =
    parse_pli_feedback-build 1 5 (omega arith) (omega arith) (λ e. absurd (omega arith))

-- Four numbers, one of them twice, in two blocks.
nack_bytes :
    build_nack_feedback 1 5 (300 ∷ 7 ∷ 9 ∷ 7 ∷ [])
    ≡ 0x81 ∷ 205 ∷ 0 ∷ 4 ∷ 0 ∷ 0 ∷ 0 ∷ 1 ∷ 0 ∷ 0 ∷ 0 ∷ 5 ∷ 0 ∷ 7 ∷ 0 ∷ 2 ∷ 1 ∷ 44 ∷ 0 ∷ 0 ∷ []
unfolding build_nack_feedback unique sort_sequences place drop_equal nack_block_list gather set_bit
    write_nack block_bytes
nack_bytes = refl

parse_nack_feedback-build_example :
    (seqs : List ℕ) × Names (300 ∷ 7 ∷ 9 ∷ 7 ∷ []) seqs
    × (parse_nack_feedback (build_nack_feedback 1 5 (300 ∷ 7 ∷ 9 ∷ 7 ∷ []))
        ≡ ok (record { sender_ssrc = 1; media_ssrc = 5; lost_sequences = seqs } ∷ []))
parse_nack_feedback-build_example =
    parse_nack_feedback-build 1 5 (300 ∷ 7 ∷ 9 ∷ 7 ∷ []) (omega arith) (omega arith)
      (λ e. absurd (omega arith)) (ground arith) (omega arith) (omega arith)

abbrev pipeline : VideoRtcpActionPipeline
pipeline = record { retransmit_cache_limit = 1; sent_packet_cache = (6, 1 ∷ []) ∷ [] }

-- A socket that sends all of a packet.
abbrev send_all : List ℕ → ℤ
send_all bytes = pos (length bytes)
