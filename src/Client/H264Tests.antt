-- ===== src/Client/H264Tests.antt =====
-- The packetiser and the assembler on a frame of two NAL units, the first of them in fragments.
use meeting_system.Prelude.{ℕ, ◌≡◌, refl, true, false, List, [], ◌∷◌, none, arith}
use meeting_system.Client.Rtp.{RtpHeader}
use meeting_system.Client.H264Payload.{
  packetize_h264_annex_b, packets_of, packets_of_all, fragments, split_annex_b_nalus, pieces,
  without_empty, start_code_size, consume,
}
use meeting_system.Client.H264Payload.Fragments.{halfway}
use meeting_system.Client.H264Payload.RoundTrip.{
  stream, consume_all, unit_of, sequence_after, with_start_codes, IsNalu, AreNalus,
  consume_all-packetize,
}
use meeting_system.Client.H264Payload.Loss.{consume_spoiled}

abbrev header : RtpHeader
header = record {
  version = 2;
  padding = false;
  extension = false;
  csrc_count = 0;
  marker = true;
  payload_type = 96;
  sequence_number = 12;
  timestamp = 3000;
  ssrc = 7;
}

abbrev frame : List ℕ
frame = 0 ∷ 0 ∷ 0 ∷ 1 ∷ 101 ∷ 1 ∷ 2 ∷ 3 ∷ 4 ∷ 5 ∷ 0 ∷ 0 ∷ 1 ∷ 65 ∷ 9 ∷ []

frame_split : split_annex_b_nalus frame ≡ (101 ∷ 1 ∷ 2 ∷ 3 ∷ 4 ∷ 5 ∷ []) ∷ (65 ∷ 9 ∷ []) ∷ []
unfolding split_annex_b_nalus pieces start_code_size without_empty
frame_split = refl

frame_packets :
    packetize_h264_annex_b frame 4
    ≡ (124 ∷ 133 ∷ 1 ∷ 2 ∷ []) ∷ (124 ∷ 5 ∷ 3 ∷ 4 ∷ []) ∷ (124 ∷ 69 ∷ 5 ∷ []) ∷ (65 ∷ 9 ∷ []) ∷ []
unfolding packetize_h264_annex_b packets_of_all packets_of fragments
frame_packets = rw frame_split refl

frame-AreNalus : AreNalus (split_annex_b_nalus frame)
unfolding AreNalus IsNalu
frame-AreNalus = rw frame_split ((λ e. absurd (omega arith)), ((λ e. absurd (omega arith)), tt))

consume_all-packetize_example :
    consume_all (halfway 12 0 [] []) (stream header 12 (packetize_h264_annex_b frame 4)) ≡ (
      unit_of header (with_start_codes (split_annex_b_nalus frame)) ∷ [],
      false,
      halfway (sequence_after 12 (packetize_h264_annex_b frame 4)) 3000 [] [],
    )
consume_all-packetize_example =
    consume_all-packetize frame 4 header 12 0 (omega arith) frame-AreNalus (rw frame_split refl)

-- The packet 12 where 10 is expected, in the access unit of the same timestamp.
consume_spoiled_example :
    (consume
      (halfway 10 3000 (0 ∷ 0 ∷ 0 ∷ 1 ∷ 65 ∷ []) [])
      (record { header = header; payload = 65 ∷ 9 ∷ [] })).0
    ≡ none
consume_spoiled_example =
    consume_spoiled (halfway 10 3000 (0 ∷ 0 ∷ 0 ∷ 1 ∷ 65 ∷ []) [])
      (record { header = header; payload = 65 ∷ 9 ∷ [] }) refl refl refl
