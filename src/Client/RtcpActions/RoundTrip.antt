-- ===== src/Client/RtcpActions/RoundTrip.antt =====
-- The SFU reads the picture loss indications that the client builds.
use meeting_system.Prelude.{ℕ, ◌/◌, ◌%◌, ◌^◌, ◌<◌, ◌≡◌, ◌≢◌, [], ◌∷◌, arith}
use meeting_system.Prelude.Bytes.{ok, be32}
use meeting_system.Sfu.Rtp.Rtcp.{parse_compound, compound_loop, compound_step, for_each, is_pli}
use meeting_system.Sfu.Rtp.Rtcp.Feedback.{packet_pli, parse_pli_feedback}
use meeting_system.Client.RtcpActions.{build_picture_loss_indication}

put32_value :
    (v : ℕ) → v < 2 ^ 32 → be32 (v / 16777216 % 256) (v / 65536 % 256) (v / 256 % 256) (v % 256) ≡ v
put32_value v h = omega arith

-- A picture loss indication that the client builds about an SSRC other than 0 is what the SFU's
-- parser finds in the datagram, with both SSRCs.
pub parse_pli_feedback-build :
    (sender_ssrc media_ssrc : ℕ)
    → sender_ssrc < 2 ^ 32
    → media_ssrc < 2 ^ 32
    → media_ssrc ≢ 0
    → parse_pli_feedback (build_picture_loss_indication sender_ssrc media_ssrc)
      ≡ ok (record { sender_ssrc = sender_ssrc; media_ssrc = media_ssrc } ∷ [])
unfolding build_picture_loss_indication parse_pli_feedback parse_compound compound_loop
    compound_step for_each packet_pli is_pli
parse_pli_feedback-build sender_ssrc media_ssrc hs hm nonzero =
    ground (arith, put32_value sender_ssrc hs, put32_value media_ssrc hm)
