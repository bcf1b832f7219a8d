-- ===== src/Client/NackFeedback/RoundTrip.antt =====
-- The SFU reads the NACK feedback that the client builds.
use meeting_system.Prelude.{
  ℕ, suc, ◌+◌, ◌-◌, ◌*◌, ◌/◌, ◌%◌, ◌^◌, ◌≤◌, ◌<◌, ◌≡◌, ◌≢◌, refl, sym, ap, ◌∙◌, List, [], ◌∷◌, ◌++◌,
  length, arith, none, some,
}
use meeting_system.Prelude.Bytes.{ok, put16, put32}
use meeting_system.Sfu.Rtp.Rtcp.{
  RtcpPacketSummary, rtpfb, parse_compound, compound_loop, compound_step, for_each, is_nack,
}
use meeting_system.Sfu.Rtp.Rtcp.Feedback.{nack_blocks, packet_nack, parse_nack_feedback}
use meeting_system.Client.NackFeedback.{
  sort_sequences, unique, nack_block_list, block_bytes, write_nack, build_nack_feedback,
}
use meeting_system.Client.NackFeedback.Marks.{mem}
use meeting_system.Client.NackFeedback.Distinct.{
  AreSequences, distinct-AreIncreasing, mem-distinct, length-distinct,
}
use meeting_system.Client.NackFeedback.Blocks.{
  expand, expand-nack_block_list, AreIncreasing, AreBlocks, nack_block_list-AreBlocks,
  length-nack_block_list,
}
use meeting_system.Client.NackFeedback.Reading.{
  put16_value, put32_read, length-block_bytes, nack_blocks-block_bytes,
}

abbrev nack_prefix : ℕ → ℕ → ℕ → List ℕ
nack_prefix words sender_ssrc media_ssrc =
    0x81 ∷ 205 ∷ put16 words ++ (put32 sender_ssrc ++ put32 media_ssrc)

abbrev nack_packet : ℕ → ℕ → ℕ → List (ℕ × ℕ) → List ℕ
nack_packet words sender_ssrc media_ssrc blocks =
    nack_prefix words sender_ssrc media_ssrc ++ block_bytes blocks

abbrev nack_summary : ℕ → ℕ → RtcpPacketSummary
nack_summary words sender_ssrc = record {
  type = rtpfb;
  fmt = 1;
  length_words = words;
  sender_ssrc = sender_ssrc;
  offset = 0;
  packet_size = (words + 1) * 4;
}

length-nack_packet :
    (words sender_ssrc media_ssrc : ℕ) (blocks : List (ℕ × ℕ))
    → length (nack_packet words sender_ssrc media_ssrc blocks) ≡ 12 + length blocks * 4
length-nack_packet words sender_ssrc media_ssrc blocks = omega (arith, length-block_bytes blocks)

compound_step-nack_packet :
    (words sender_ssrc media_ssrc : ℕ) (blocks : List (ℕ × ℕ))
    → words ≡ 2 + length blocks
    → words < 65536
    → sender_ssrc < 2 ^ 32
    → compound_step (nack_packet words sender_ssrc media_ssrc blocks) 0
      ≡ ok (some (nack_summary words sender_ssrc))
unfolding compound_step
compound_step-nack_packet words sender_ssrc media_ssrc blocks e h hs =
    ground (arith, e, h, length-block_bytes blocks, put16_value words h, put32_read sender_ssrc hs)

compound_step-end :
    (bytes : List ℕ) (offset : ℕ) → length bytes ≤ offset → compound_step bytes offset ≡ ok none
unfolding compound_step
compound_step-end bytes offset h = ground (arith, h)

compound_loop_two :
    (fuel : ℕ) (bytes : List ℕ) (p : RtcpPacketSummary)
    → compound_step bytes 0 ≡ ok (some p)
    → compound_step bytes (0 + p.packet_size) ≡ ok none
    → compound_loop (suc (suc fuel)) bytes 0 ≡ ok (p ∷ [])
unfolding compound_loop
compound_loop_two fuel bytes p first second = ground (arith, first, second)

parse_compound_one :
    (bytes : List ℕ) (p : RtcpPacketSummary)
    → 4 ≤ length bytes
    → compound_step bytes 0 ≡ ok (some p)
    → compound_step bytes (0 + p.packet_size) ≡ ok none
    → parse_compound bytes ≡ ok (p ∷ [])
unfolding parse_compound
parse_compound_one [] p h first second = absurd (omega arith)
parse_compound_one (b ∷ bytes) p h first second =
    ground (arith, h, compound_loop_two (length bytes) (b ∷ bytes) p first second)

parse_compound-nack_packet :
    (words sender_ssrc media_ssrc : ℕ) (blocks : List (ℕ × ℕ))
    → words ≡ 2 + length blocks
    → words < 65536
    → sender_ssrc < 2 ^ 32
    → parse_compound (nack_packet words sender_ssrc media_ssrc blocks)
      ≡ ok (nack_summary words sender_ssrc ∷ [])
parse_compound-nack_packet words sender_ssrc media_ssrc blocks e h hs =
    let bytes : List ℕ = nack_packet words sender_ssrc media_ssrc blocks in
    let len = length-nack_packet words sender_ssrc media_ssrc blocks in
    parse_compound_one bytes (nack_summary words sender_ssrc) (omega (arith, len))
      (compound_step-nack_packet words sender_ssrc media_ssrc blocks e h hs)
      (compound_step-end bytes (0 + (words + 1) * 4) (omega (arith, len, e)))

packet_nack-nack_packet :
    (words sender_ssrc media_ssrc : ℕ) (blocks : List (ℕ × ℕ))
    → words ≡ 2 + length blocks
    → sender_ssrc < 2 ^ 32
    → media_ssrc < 2 ^ 32
    → AreBlocks blocks
    → 0 < length (expand blocks)
    → packet_nack (nack_packet words sender_ssrc media_ssrc blocks) (nack_summary words sender_ssrc)
      ≡ ok (
          record {
            sender_ssrc = sender_ssrc;
            media_ssrc = media_ssrc;
            lost_sequences = expand blocks;
          }
          ∷ [])
unfolding packet_nack is_nack
packet_nack-nack_packet words sender_ssrc media_ssrc blocks e hs hm b some_lost =
    let len = length-block_bytes blocks in
    let end : length (nack_packet words sender_ssrc media_ssrc blocks) ≡ 0 + (words + 1) * 4 =
      omega (arith, len, e) in
    let lost =
      nack_blocks-block_bytes ((words + 1) * 4) (nack_packet words sender_ssrc media_ssrc blocks)
        (nack_prefix words sender_ssrc media_ssrc) blocks (0 + 12) refl refl (omega (arith, e)) b in
    let lost' =
      ap
        (λ n.
          nack_blocks ((words + 1) * 4) (nack_packet words sender_ssrc media_ssrc blocks) n
            (0 + 12))
        (sym end)
      ∙ lost in
    ground (arith, e, len, lost', some_lost, put32_read sender_ssrc hs, put32_read media_ssrc hm)

write_nack-nack_packet :
    (sender_ssrc media_ssrc : ℕ) (blocks : List (ℕ × ℕ))
    → length blocks ≤ 65532
    → write_nack sender_ssrc media_ssrc blocks
      ≡ nack_packet (2 + length blocks) sender_ssrc media_ssrc blocks
unfolding write_nack
write_nack-nack_packet sender_ssrc media_ssrc blocks h =
    let words : ((12 + length blocks * 4) / 4 - 1) % 65536 ≡ 2 + length blocks = omega (arith, h) in
    ground (arith, h, words)

parse_nack_feedback-write :
    (sender_ssrc media_ssrc : ℕ) (blocks : List (ℕ × ℕ))
    → length blocks ≤ 65532
    → sender_ssrc < 2 ^ 32
    → media_ssrc < 2 ^ 32
    → AreBlocks blocks
    → 0 < length (expand blocks)
    → parse_nack_feedback (write_nack sender_ssrc media_ssrc blocks)
      ≡ ok (
          record {
            sender_ssrc = sender_ssrc;
            media_ssrc = media_ssrc;
            lost_sequences = expand blocks;
          }
          ∷ [])
unfolding parse_nack_feedback for_each
parse_nack_feedback-write sender_ssrc media_ssrc blocks h hs hm b some_lost =
    let words = 2 + length blocks in
    rw (write_nack-nack_packet sender_ssrc media_ssrc blocks h) (
      ground (
        arith,
        parse_compound-nack_packet words sender_ssrc media_ssrc blocks refl (omega (arith, h)) hs,
        packet_nack-nack_packet words sender_ssrc media_ssrc blocks refl hs hm b some_lost,
      ))

-- The lost sequence numbers that a NACK carries: increasing, and those that were lost.
unfoldable pub Names : List ℕ → List ℕ → Type 0
Names lost seqs = AreIncreasing seqs × ((seq : ℕ) → mem seq seqs ≡ mem seq lost)

-- From the NACK that the client builds about 1 to 65,532 lost 16-bit sequence numbers and an SSRC
-- other than 0 the SFU's parser reads both SSRCs and exactly these numbers, in increasing order and
-- each once.
pub parse_nack_feedback-build :
    (sender_ssrc media_ssrc : ℕ) (lost : List ℕ)
    → sender_ssrc < 2 ^ 32
    → media_ssrc < 2 ^ 32
    → media_ssrc ≢ 0
    → AreSequences lost
    → 0 < length lost
    → length lost ≤ 65532
    → (seqs : List ℕ) × Names lost seqs
      × (parse_nack_feedback (build_nack_feedback sender_ssrc media_ssrc lost)
          ≡ ok (
              record { sender_ssrc = sender_ssrc; media_ssrc = media_ssrc; lost_sequences = seqs }
              ∷ []))
unfolding build_nack_feedback Names
parse_nack_feedback-build sender_ssrc media_ssrc [] hs hm nonzero small some_lost few =
    absurd (omega arith)
parse_nack_feedback-build sender_ssrc media_ssrc (x ∷ xs) hs hm nonzero small some_lost few =
    let lost : List ℕ = x ∷ xs in
    let seqs = unique (sort_sequences lost) in
    let blocks = nack_block_list (length seqs) seqs in
    let increasing = distinct-AreIncreasing lost small in
    let size = length-distinct lost in
    let same = expand-nack_block_list (length seqs) seqs (omega arith) increasing in
    let parsed =
      parse_nack_feedback-write sender_ssrc media_ssrc blocks
        (omega (arith, length-nack_block_list (length seqs) seqs, size.0, few)) hs hm
        (nack_block_list-AreBlocks (length seqs) seqs increasing) (rw same (size.1 some_lost)) in
    (seqs, (increasing, λ seq. mem-distinct seq lost), ground (arith, nonzero, parsed, same))
