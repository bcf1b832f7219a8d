-- ===== src/Client/Tests.antt =====
-- The client's theorems at concrete packets, frames and calls.
use meeting_system.Prelude.{
  ◌/◌, ℕ, ◌*◌, ◌≡◌, refl, true, false, List, [], ◌∷◌, ◌++◌, none, some, arith, take, drop,
}
use meeting_system.Prelude.Int.{pos}
use meeting_system.Prelude.Bytes.{ok}
use meeting_system.Prelude.OrderedMap.{find}
use meeting_system.Sfu.Rtp.Parser.{parse}
use meeting_system.Client.Rtp.{RtpHeader, RtpPacket, parse_packet, build_packet}
use meeting_system.Client.Rtp.Agreement.{as_client, parse_packet-parse}
use meeting_system.Client.Rtp.RoundTrip.{parse_packet-build_packet}
use meeting_system.Client.JitterBuffer
use meeting_system.Client.JitterBuffer.{
  JitterBuffer, trim, trim_loop, expected_or, pop, may_start, has_expected, gap_ready, ready_to_pop,
  next_entry, take_entry,
}
use meeting_system.Client.JitterBuffer.Invariant.{
  IsJitterBuffer, arrive, play, calls, calls-init-IsJitterBuffer,
}
use meeting_system.Client.JitterBuffer.Playout.{IsPlayed, pop-IsPlayed}
use meeting_system.Client.SignalProtocol.{encode_frame, decode_header}
use meeting_system.Client.SignalProtocol.RoundTrip.{decode_header-encode_frame}
use meeting_system.Client.RingBuffer.{RingBuffer}
use meeting_system.Client.RingBuffer.Fifo
use meeting_system.Client.RingBuffer.Fifo.{offer, poll, shut, all_accepted, all_removed, run_lem}
use meeting_system.Client.FrameRingBuffer.{VideoSendFrameRingBuffer}
use meeting_system.Client.FrameRingBuffer.Latest.{latest, push_all, push_all-latest}
use meeting_system.Client.Reconnector.{Reconnector}
use meeting_system.Client.AppStateMachine
use meeting_system.Client.AppStateMachine.Signals
use meeting_system.Client.AppStateMachine.Signals.{
  change, reconnect, IsConsistent, run-init-IsConsistent,
}
use meeting_system.Client.VideoBwePolicy
use meeting_system.Client.VideoBwePolicy.{
  VideoBwePolicyConfig, VideoBwePolicySample, VideoBwePolicy,
}
use meeting_system.Client.VideoBwePolicy.Runs
use meeting_system.Client.VideoBwePolicy.Runs.{report, handle, handle-false}

-- Version 2, payload type 96, sequence number 7, time stamp 100, SSRC 5, three bytes of payload.
abbrev rtp : List ℕ
rtp = 0x80 ∷ 96 ∷ 0 ∷ 7 ∷ 0 ∷ 0 ∷ 0 ∷ 100 ∷ 0 ∷ 0 ∷ 0 ∷ 5 ∷ 1 ∷ 2 ∷ 3 ∷ []

parse_packet-parse_example : parse_packet rtp ≡ as_client rtp (parse rtp)
parse_packet-parse_example = parse_packet-parse rtp

abbrev header : ℕ → RtpHeader
header seq = record {
  version = 2;
  padding = false;
  extension = false;
  csrc_count = 0;
  marker = true;
  payload_type = 96;
  sequence_number = seq;
  timestamp = 100;
  ssrc = 5;
}

abbrev numbered : ℕ → RtpPacket
numbered seq = record { header = header seq; payload = 1 ∷ [] }

parse_packet-build_packet_example :
    parse_packet
      (build_packet (record { ssrc = 5; sequence = 65535 }) 96 true 100 (some (1 ∷ [])) 1).0
    ≡ ok (numbered 65535)
parse_packet-build_packet_example =
    parse_packet-build_packet (record { ssrc = 5; sequence = 65535 }) 96 true 100 (1 ∷ [])
      (omega arith) (omega arith) (omega arith) (omega arith)

calls-init-IsJitterBuffer_example : IsJitterBuffer (
    calls
      (JitterBuffer.init 2 1 (pos 0))
      (arrive (numbered 3) ∷ arrive (numbered 4) ∷ play 10 ∷ []))
calls-init-IsJitterBuffer_example =
    calls-init-IsJitterBuffer 2 1 (pos 0) (arrive (numbered 3) ∷ arrive (numbered 4) ∷ play 10 ∷ [])

-- The buffer after the packet 3 arrived and the packet 2 was played.
abbrev waiting : JitterBuffer
waiting = record {
  packets = (3, numbered 3) ∷ [];
  expected_seq = some 3;
  gap_wait_started_at = 0;
  max_packets = 2;
  min_buffered_packets = 1;
  gap_timeout = 20;
  playout_started = true;
}

waiting-IsJitterBuffer : IsJitterBuffer waiting
unfolding IsJitterBuffer
waiting-IsJitterBuffer = ((tt, tt), omega arith, omega arith, omega arith)

waiting_pops : (pop waiting 10).0 ≡ some (numbered 3)
unfolding pop ready_to_pop gap_ready has_expected may_start next_entry take_entry find
waiting_pops = refl

pop-IsPlayed_example : (seq : ℕ) × IsPlayed waiting 10 (numbered 3) (pop waiting 10).1 seq
pop-IsPlayed_example = pop-IsPlayed waiting 10 (numbered 3) waiting-IsJitterBuffer waiting_pops

waiting_starts : may_start waiting ≡ true
unfolding may_start
waiting_starts = refl

waiting_has : find 3 waiting.packets ≡ some (numbered 3)
unfolding find
waiting_has = refl

-- A full buffer just before the sequence numbers wrap around.
abbrev full : JitterBuffer
full = record {
  packets = (65534, numbered 65534) ∷ (65535, numbered 65535) ∷ [];
  expected_seq = some 65534;
  gap_wait_started_at = 0;
  max_packets = 2;
  min_buffered_packets = 1;
  gap_timeout = 20;
  playout_started = true;
}

decode_header-encode_frame_example :
    (decode_header (take 9 (encode_frame 258 (7 ∷ 8 ∷ []))) 100
      ≡ some (record { type = 258; length = 2 }))
    × (drop 9 (encode_frame 258 (7 ∷ 8 ∷ [])) ≡ 7 ∷ 8 ∷ [])
decode_header-encode_frame_example =
    decode_header-encode_frame 258 100 (7 ∷ 8 ∷ []) (omega arith) (omega arith) (omega arith)

abbrev nine : List ℕ
nine = 0xAB ∷ 0xCD ∷ 1 ∷ 1 ∷ 2 ∷ 0 ∷ 0 ∷ 0 ∷ 2 ∷ []

nine_decodes : decode_header nine 100 ≡ some (record { type = 258; length = 2 })
unfolding decode_header
nine_decodes = refl

-- A buffer for one value, with the value 1.
abbrev one_slot : RingBuffer ℕ
one_slot = record { capacity = 1; queue = 1 ∷ []; closed = false }

run_lem_example :
    1 ∷ all_accepted one_slot (offer 2 ∷ poll ∷ offer 3 ∷ shut ∷ [])
    ≡ all_removed one_slot (offer 2 ∷ poll ∷ offer 3 ∷ shut ∷ [])
      ++ (Fifo.run one_slot (offer 2 ∷ poll ∷ offer 3 ∷ shut ∷ [])).queue
run_lem_example = run_lem one_slot (offer 2 ∷ poll ∷ offer 3 ∷ shut ∷ [])

abbrev two_frames : VideoSendFrameRingBuffer ℕ
two_frames = record { capacity = 2; frames = 1 ∷ []; closed = false }

push_all-latest_example : (push_all two_frames (2 ∷ 3 ∷ [])).frames ≡ latest 2 (1 ∷ 2 ∷ 3 ∷ [])
push_all-latest_example = push_all-latest two_frames (2 ∷ 3 ∷ []) refl (omega arith) (omega arith)

abbrev idle : Reconnector
idle = record { timer = none; initial_delay_ms = 1000; max_delay_ms = 30000; next_delay_ms = 1000 }

run-init-IsConsistent_example :
    IsConsistent (Signals.run AppStateMachine.init (change true true false ∷ reconnect true ∷ []))
run-init-IsConsistent_example = run-init-IsConsistent (change true true false ∷ reconnect true ∷ [])

-- The width for 360 lines, rounded down.
abbrev scale : ℕ → ℕ → ℕ
scale w h = w * 360 / h

abbrev hd : VideoBwePolicyConfig
hd = record {
  baseline_width = pos 1280;
  baseline_height = pos 720;
  baseline_frame_rate = pos 30;
  baseline_bitrate_bps = 120000;
}

abbrev sample : ℕ → ℕ → VideoBwePolicySample
sample lost now = record { fraction_lost = lost; has_rtt = false; rtt_ms = 0; now_ms = now }

-- The policy whose rate a report of some loss has reduced to the smallest one.
abbrev reduced : VideoBwePolicy
reduced = record {
  config = record { width = 1280; height = 720; frame_rate = 30; bitrate_bps = 120000 };
  target = record {
    level = VideoBwePolicy.moderate;
    width = 1280;
    height = 720;
    frame_rate = 15;
    bitrate_bps = 100000;
    video_suspended = false;
    jitter_target_ms = 0;
    request_turn_relay = false;
    version = 2;
  };
  policy_bitrate_bps = 100000;
  remb_limit_bps = 0;
  last_restore_at_ms = 0;
  turn_relay_requested = false;
}

quiet_report : (handle scale reduced (report (sample 10 100))).0 ≡ false
unfolding handle VideoBwePolicy.on_receiver_report VideoBwePolicy.react VideoBwePolicy.hold
    VideoBwePolicy.new_target VideoBwePolicy.publish_target VideoBwePolicy.even_at_least_two
    VideoBwePolicy.effective_bitrate
quiet_report = refl
