-- ===== src/Sfu/Tests.antt =====
-- The SFU's theorems at concrete packets, frames and rooms.
use meeting_system.Prelude.{
  ◌/◌, ltb, ◌*◌, ◌≤◌, ℕ, ◌≡◌, refl, Bool, false, List, [], ◌∷◌, some, arith,
}
use meeting_system.Prelude.Bytes.{ok, AreBytes}
use meeting_system.Prelude.Assoc.{nat_eq}
use meeting_system.Sfu.Rtp.Parser.{ParsedRtpPacket, parse, skip_extension, strip_padding}
use meeting_system.Sfu.Rtp.Parser.Bounds.{IsInside, parse-IsInside}
use meeting_system.Sfu.Rtp.NackBuffer
use meeting_system.Sfu.Rtp.NackBuffer.{NackBuffer}
use meeting_system.Sfu.Rtp.NackBuffer.Refine.{
  fifo_store, Represents, init-Represents, store-Represents,
}
use meeting_system.Sfu.Rtp.Router
use meeting_system.Sfu.Rtp.Router.{
  SubscriberRoute, PublisherRoute, RtpRouter, Call, new_route, register_publisher, add_subscriber,
  route_or_new, rewrite_ssrc, forward_all, route_parsed,
}
use meeting_system.Sfu.Rtp.Router.Rewrite.{with_ssrc, parse-rewrite_ssrc}
use meeting_system.Sfu.Rtp.Router.Invariant.{
  register, subscribe, packet, AreRoutes, run, run-init-AreRoutes,
}
use meeting_system.Sfu.Rtp.Rtcp.{RtcpPacketSummary, parse_compound}
use meeting_system.Sfu.Rtp.Rtcp.Safety.{Chained, parse_compound-Chained}
use meeting_system.Sfu.Bandwidth.{BandwidthEstimator, Sample, update}
use meeting_system.Sfu.Bandwidth.Range.{IsEstimator, update-le}
use meeting_system.Sfu.Rpc.{RpcFrame, encode_rpc_frame, decode_rpc_frame}
use meeting_system.Sfu.Rpc.RoundTrip.{IsFrame, encode-decode_rpc_frame}

-- Version 2, payload type 96, sequence number 7, time stamp 100, SSRC 5, three bytes of payload.
abbrev rtp : List ℕ
rtp = 0x80 ∷ 96 ∷ 0 ∷ 7 ∷ 0 ∷ 0 ∷ 0 ∷ 100 ∷ 0 ∷ 0 ∷ 0 ∷ 5 ∷ 1 ∷ 2 ∷ 3 ∷ []

abbrev rtp_parsed : ParsedRtpPacket
rtp_parsed = record {
  header = record {
    version = 2;
    padding = false;
    extension = false;
    csrc_count = 0;
    marker = false;
    payload_type = 96;
    sequence = 7;
    timestamp = 100;
    ssrc = 5;
    header_size = 12;
  };
  payload = 12;
  payload_size = 3;
}

rtp_parses : parse rtp ≡ ok rtp_parsed
unfolding parse skip_extension strip_padding
rtp_parses = refl

rtp-AreBytes : AreBytes rtp
rtp-AreBytes = ground arith

parse-IsInside_example : IsInside 15 rtp_parsed
parse-IsInside_example = parse-IsInside rtp rtp-AreBytes rtp_parses

parse-rewrite_ssrc_example : parse (rewrite_ssrc 9 rtp) ≡ with_ssrc 9 (parse rtp)
parse-rewrite_ssrc_example = parse-rewrite_ssrc 9 rtp (omega arith)

-- A buffer for two packets.
abbrev small : NackBuffer
small = NackBuffer.init 2 0

store-Represents_example : Represents (NackBuffer.store small 7 (some rtp)) (fifo_store 2 [] 7 rtp)
unfolding NackBuffer.init
store-Represents_example =
    store-Represents small [] 7 rtp (init-Represents 2 0) (omega arith) (omega arith)

-- A router with the publisher 5, and the callback 1 for the SSRC 9.
abbrev new_publisher : PublisherRoute
new_publisher = record { nack = NackBuffer.init 2 1600; subscribers = [] }

abbrev publisher : PublisherRoute
publisher = record {
  nack = NackBuffer.init 2 1600;
  subscribers = record { rewritten_ssrc = 9; forward = some 1 } ∷ [];
}

abbrev router : RtpRouter
router = record { nack_capacity = 2; publishers = (5, publisher) ∷ [] }

run-init-AreRoutes_example :
    AreRoutes (run (Router.init 2) (register 5 ∷ subscribe 5 9 (some 1) ∷ packet rtp ∷ []))
run-init-AreRoutes_example =
    run-init-AreRoutes 2 (register 5 ∷ subscribe 5 9 (some 1) ∷ packet rtp ∷ []) (ground arith)

-- A picture loss indication from the SSRC 1 about the SSRC 5.
abbrev pli : List ℕ
pli = 0x81 ∷ 206 ∷ 0 ∷ 2 ∷ 0 ∷ 0 ∷ 0 ∷ 1 ∷ 0 ∷ 0 ∷ 0 ∷ 5 ∷ []

parse_compound-Chained_example :
    (ps : List RtcpPacketSummary) × (parse_compound pli ≡ ok ps) × Chained 12 0 ps
parse_compound-Chained_example = parse_compound-Chained pli

abbrev frame : RpcFrame
frame = record { method = 3; kind = 1; status = 0; payload = 8 ∷ 9 ∷ [] }

-- The same frame as bytes.
abbrev frame_bytes : List ℕ
frame_bytes = 0x53 ∷ 0x46 ∷ 0x55 ∷ 0x52 ∷ 1 ∷ 1 ∷ 0 ∷ 3 ∷ 0 ∷ 0 ∷ 0 ∷ 0 ∷ 0 ∷ 2 ∷ 8 ∷ 9 ∷ []

frame_decodes : decode_rpc_frame frame_bytes ≡ ok frame
unfolding decode_rpc_frame
frame_decodes = refl

encode-decode_rpc_frame_example : IsFrame frame × (encode_rpc_frame frame ≡ some frame_bytes)
encode-decode_rpc_frame_example = encode-decode_rpc_frame frame_bytes (ground arith) frame_decodes

-- A loss is a number of percent, and a product is rounded down.
abbrev above : ℕ → ℕ → Bool
above loss percent = ltb percent loss

abbrev below : ℕ → ℕ → Bool
below loss percent = ltb loss percent

abbrev scale : ℕ → ℕ → ℕ
scale bitrate percent = bitrate * percent / 100

abbrev lossy : Sample ℕ
lossy = record { packet_loss = 20; rtt_ms = 100; jitter_ms = 10; measured_bitrate_kbps = 900 }

abbrev estimator : BandwidthEstimator
estimator = record {
  min_bitrate_kbps = 150;
  max_bitrate_kbps = 2500;
  recommended_bitrate_kbps = 800;
}

estimator-IsEstimator : IsEstimator estimator
unfolding IsEstimator
estimator-IsEstimator = (omega arith, omega arith, omega arith)

scale-le : (bitrate percent : ℕ) → percent ≤ 100 → scale bitrate percent ≤ bitrate
scale-le bitrate percent h = grind arith

update-le_example : (update above below scale estimator lossy).recommended_bitrate_kbps ≤ 800
update-le_example = update-le above below scale estimator lossy scale-le estimator-IsEstimator refl
