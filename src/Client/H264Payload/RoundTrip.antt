-- ===== src/Client/H264Payload/RoundTrip.antt =====
-- What the assembler gives out of the payloads that an encoded frame was cut into.
use meeting_system.Prelude.{
  ℕ, ◌≡◌, ◌≢◌, ◌<◌, refl, ◌∙◌, ◌+◌, ◌-◌, ◌%◌, Bool, true, false, List, [], ◌∷◌, ◌++◌, none, some,
  ◌==◌, ◌||◌, arith, inl, inr, Bool-cases,
}
use meeting_system.Prelude.Assoc.{is_empty}
use meeting_system.Prelude.Bytes.{append_assoc}
use meeting_system.Client.Rtp.{RtpHeader, RtpPacket}
use meeting_system.Client.H264Payload.{
  H264AccessUnit, H264AccessUnitAssembler, Answer, packets_of, packets_of_all,
  packetize_h264_annex_b, split_annex_b_nalus, check_sequence, check_timestamp, take_payload,
  finish, consume,
}
use meeting_system.Client.H264Payload.Fragments.{
  halfway, Absorbs, append-Absorbs, packets_of-Absorbs,
}

-- The packets of one frame, with numbers that follow each other and the marker on the last.
unfoldable pub stream : RtpHeader → ℕ → List (List ℕ) → List RtpPacket
stream header sequence [] = []
stream header sequence (payload ∷ payloads) =
    record {
      header = record header { sequence_number = sequence; marker = is_empty payloads };
      payload = payload;
    }
    ∷ stream header ((sequence + 1) % 65536) payloads

-- The access units that come out of packets, and whether any loss was reported.
abbrev pub Outcome : Type 0
Outcome = List H264AccessUnit × Bool × H264AccessUnitAssembler

abbrev pub report : Answer → (H264AccessUnitAssembler → Outcome) → Outcome
report (none, loss, missing, a) next = let rest = next a in (rest.0, loss || rest.1, rest.2)
report (some unit, loss, missing, a) next =
    let rest = next a in (unit ∷ rest.0, loss || rest.1, rest.2)

unfoldable pub consume_all : H264AccessUnitAssembler → List RtpPacket → Outcome
consume_all a [] = ([], false, a)
consume_all a (packet ∷ packets) = report (consume a packet) (λ a'. consume_all a' packets)

same : (n : ℕ) → n == n ≡ true
same n = ground arith

check_sequence-halfway :
    (acc frag : List ℕ) (t : ℕ) (packet : RtpPacket)
    → check_sequence (halfway packet.header.sequence_number t acc frag) packet
      ≡ some (false, [], halfway ((packet.header.sequence_number + 1) % 65536) t acc frag)
unfolding check_sequence
check_sequence-halfway acc frag t packet = rw (same packet.header.sequence_number) refl

-- A packet of the access unit's timestamp, and a packet that begins one where none is left over.
check_timestamp-halfway :
    (s : ℕ) (acc frag : List ℕ) (packet : RtpPacket)
    → check_timestamp (halfway s packet.header.timestamp acc frag) packet
      ≡ (false, halfway s packet.header.timestamp acc frag)
unfolding check_timestamp
check_timestamp-halfway s acc frag packet = rw (same packet.header.timestamp) refl

check_timestamp-between :
    (s t : ℕ) (packet : RtpPacket)
    → check_timestamp (halfway s t [] []) packet ≡ (false, halfway s packet.header.timestamp [] [])
unfolding check_timestamp
check_timestamp-between s t packet = elim (Bool-cases (packet.header.timestamp == t)) [
  | inl e ↦
      let same_time : packet.header.timestamp ≡ t = ground (arith, e) in rw (same_time, same t) refl
  | inr e ↦ rw e refl
]

-- A packet with the number that is expected, and with nothing lost.
consume_expected :
    (acc frag acc' frag' : List ℕ) (t : ℕ) (packet : RtpPacket)
    → check_timestamp (halfway ((packet.header.sequence_number + 1) % 65536) t acc frag) packet ≡ (
      false,
      halfway ((packet.header.sequence_number + 1) % 65536) packet.header.timestamp acc frag,
    )
    → is_empty packet.payload ≡ false
    → ((s t : ℕ)
        → take_payload (halfway s t acc frag) packet.payload ≡ (true, halfway s t acc' frag'))
    → consume (halfway packet.header.sequence_number t acc frag) packet
      ≡ finish
          (halfway ((packet.header.sequence_number + 1) % 65536) packet.header.timestamp acc' frag')
          packet
          false
          []
unfolding consume
consume_expected acc frag acc' frag' t packet timely some_payload taken =
    rw (check_sequence-halfway acc frag t packet, consume)
      (rw
        (
          timely,
          some_payload,
          taken ((packet.header.sequence_number + 1) % 65536) packet.header.timestamp,
        )
        refl)

-- The number after those of as many packets.
unfoldable pub sequence_after : ℕ → List (List ℕ) → ℕ
sequence_after sequence [] = sequence
sequence_after sequence (payload ∷ payloads) = sequence_after ((sequence + 1) % 65536) payloads

abbrev pub unit_of : RtpHeader → List ℕ → H264AccessUnit
unit_of header payload = record {
  payload = payload;
  pts = header.timestamp;
  payload_type = header.payload_type;
}

-- One packet of the frame.
abbrev packet_of : RtpHeader → ℕ → Bool → List ℕ → RtpPacket
packet_of header sequence marker payload = record {
  header = record header { sequence_number = sequence; marker = marker };
  payload = payload;
}

finish_last :
    (header : RtpHeader) (s t : ℕ) (acc payload : List ℕ)
    → is_empty acc ≡ false
    → finish (halfway t header.timestamp acc []) (packet_of header s true payload) false []
      ≡ (some (unit_of header acc), false, [], halfway t header.timestamp [] [])
unfolding finish
finish_last header s t acc payload some_unit = rw some_unit refl

finish_more :
    (header : RtpHeader) (s t : ℕ) (acc frag payload : List ℕ)
    → finish (halfway t header.timestamp acc frag) (packet_of header s false payload) false []
      ≡ (none, false, [], halfway t header.timestamp acc frag)
unfolding finish
finish_more header s t acc frag payload = refl

-- Where the first packet goes on with the access unit, or begins one.
abbrev IsTimely : RtpHeader → (sequence timestamp : ℕ) → (acc frag : List ℕ) → Type 0
IsTimely header s t acc frag =
    (sequence : ℕ) (marker : Bool) (payload : List ℕ)
    → check_timestamp (halfway s t acc frag) (packet_of header sequence marker payload)
      ≡ (false, halfway s header.timestamp acc frag)

consume_all_more :
    (a : H264AccessUnitAssembler) (packet : RtpPacket) (packets : List RtpPacket) (missing : List ℕ)
    (a' : H264AccessUnitAssembler)
    → consume a packet ≡ (none, false, missing, a')
    → consume_all a (packet ∷ packets) ≡ consume_all a' packets
unfolding consume_all
consume_all_more a packet packets missing a' e = rw e refl

consume_all_last :
    (a : H264AccessUnitAssembler) (packet : RtpPacket) (unit : H264AccessUnit)
    (a' : H264AccessUnitAssembler)
    → consume a packet ≡ (some unit, false, [], a')
    → consume_all a (packet ∷ []) ≡ (unit ∷ [], false, a')
unfolding consume_all
consume_all_last a packet unit a' e = rw e refl

consume_all-stream :
    (header : RtpHeader) (s t : ℕ) (acc frag payload : List ℕ) (payloads : List (List ℕ))
    (acc' : List ℕ)
    → IsTimely header ((s + 1) % 65536) t acc frag
    → is_empty acc' ≡ false
    → Absorbs acc frag (payload ∷ payloads) acc' []
    → consume_all (halfway s t acc frag) (stream header s (payload ∷ payloads)) ≡ (
      unit_of header acc' ∷ [],
      false,
      halfway (sequence_after s (payload ∷ payloads)) header.timestamp [] [],
    )
unfolding stream Absorbs sequence_after
consume_all-stream header s t acc frag payload [] acc' timely some_unit
      (a, f, some_payload, taken, e) =
    let step =
      consume_expected acc frag a f t (packet_of header s true payload) (timely s true payload)
        some_payload taken in
    consume_all_last (halfway s t acc frag) (packet_of header s true payload) (unit_of header acc')
      (halfway ((s + 1) % 65536) header.timestamp [] [])
      (step ∙ rw (e.0, e.1) (finish_last header s ((s + 1) % 65536) acc' payload some_unit))
consume_all-stream header s t acc frag payload (next ∷ payloads) acc' timely some_unit
      (a, f, some_payload, taken, later) =
    let step =
      consume_expected acc frag a f t (packet_of header s false payload) (timely s false payload)
        some_payload taken in
    let rest =
      consume_all-stream header ((s + 1) % 65536) header.timestamp a f next payloads acc'
        (λ sequence marker payload.
          check_timestamp-halfway (((s + 1) % 65536 + 1) % 65536) a f
            (packet_of header sequence marker payload))
        some_unit later in
    consume_all_more (halfway s t acc frag) (packet_of header s false payload)
      (stream header ((s + 1) % 65536) (next ∷ payloads)) []
      (halfway ((s + 1) % 65536) header.timestamp a f)
      (step ∙ finish_more header s ((s + 1) % 65536) a f payload)
    ∙ rest

-- The NAL units, each behind a start code.
unfoldable pub with_start_codes : List (List ℕ) → List ℕ
with_start_codes [] = []
with_start_codes (nalu ∷ nalus) = 0 ∷ 0 ∷ 0 ∷ 1 ∷ nalu ++ with_start_codes nalus

-- A NAL unit that is not empty and not of the type that marks a fragment.
unfoldable pub IsNalu : List ℕ → Type 0
IsNalu [] = ⊥
IsNalu (header ∷ bytes) = header % 32 ≢ 28

unfoldable pub AreNalus : List (List ℕ) → Type 0
AreNalus [] = Unit
AreNalus (nalu ∷ nalus) = IsNalu nalu × AreNalus nalus

append_nil : (xs : List ℕ) → xs ≡ xs ++ []
append_nil [] = refl
append_nil (x ∷ xs) = rw (← append_nil xs) refl

packets_of_all-Absorbs :
    (room : ℕ) (acc : List ℕ) (nalus : List (List ℕ))
    → AreNalus nalus
    → Absorbs acc [] (packets_of_all (3 + room) nalus) (acc ++ with_start_codes nalus) []
unfolding packets_of_all Absorbs AreNalus IsNalu with_start_codes
packets_of_all-Absorbs room acc [] v = (append_nil acc, refl)
packets_of_all-Absorbs room acc ([] ∷ nalus) (v, vs) = absurd v
packets_of_all-Absorbs room acc ((header ∷ bytes) ∷ nalus) (v, vs) =
    let rest = packets_of_all-Absorbs room (acc ++ (0 ∷ 0 ∷ 0 ∷ 1 ∷ header ∷ bytes)) nalus vs in
    append-Absorbs acc [] (packets_of (3 + room) (header ∷ bytes)) (packets_of_all (3 + room) nalus)
      (acc ++ (0 ∷ 0 ∷ 0 ∷ 1 ∷ header ∷ bytes)) [] _ [] (packets_of-Absorbs room acc header bytes v)
      (rw (append_assoc acc (0 ∷ 0 ∷ 0 ∷ 1 ∷ header ∷ bytes) (with_start_codes nalus)) at rest)

with_start_codes-some :
    (nalus : List (List ℕ)) → is_empty nalus ≡ false → is_empty (with_start_codes nalus) ≡ false
unfolding with_start_codes
with_start_codes-some [] e = e
with_start_codes-some (nalu ∷ nalus) e = refl

-- The packets of a whole access unit, where the assembler has nothing left over.
some-Absorbs :
    (header : RtpHeader) (s t : ℕ) (payloads : List (List ℕ)) (acc' : List ℕ)
    → is_empty acc' ≡ false
    → Absorbs [] [] payloads acc' []
    → consume_all (halfway s t [] []) (stream header s payloads) ≡ (
      unit_of header acc' ∷ [],
      false,
      halfway (sequence_after s payloads) header.timestamp [] [],
    )
unfolding Absorbs
some-Absorbs header s t [] acc' some_unit (e, e') =
    let none_left = rw (← e) at some_unit in ground (arith, none_left)
some-Absorbs header s t (payload ∷ payloads) acc' some_unit h =
    consume_all-stream header s t [] [] payload payloads acc'
      (λ sequence marker payload.
        check_timestamp-between ((s + 1) % 65536) t (packet_of header sequence marker payload))
      some_unit h

-- What the packets of an encoded frame are put together to, where the assembler has nothing left over
-- and every packet arrives in order: the frame's NAL units, each behind a start code, in one access
-- unit, with no loss reported. The frame has a NAL unit, none of its NAL units is of the type that
-- marks a fragment, and a payload may have more than two bytes.
pub consume_all-packetize :
    (encoded_frame : List ℕ) (max_payload_bytes : ℕ) (header : RtpHeader) (s t : ℕ)
    → 2 < max_payload_bytes
    → AreNalus (split_annex_b_nalus encoded_frame)
    → is_empty (split_annex_b_nalus encoded_frame) ≡ false
    → consume_all
        (halfway s t [] [])
        (stream header s (packetize_h264_annex_b encoded_frame max_payload_bytes))
      ≡ (
        unit_of header (with_start_codes (split_annex_b_nalus encoded_frame)) ∷ [],
        false,
        halfway
            (sequence_after s (packetize_h264_annex_b encoded_frame max_payload_bytes))
            header.timestamp
            []
            [],
      )
unfolding packetize_h264_annex_b
consume_all-packetize encoded_frame max_payload_bytes header s t room nalus some_nalu =
    let split = split_annex_b_nalus encoded_frame in
    let size : 3 + (max_payload_bytes - 3) ≡ max_payload_bytes = omega (arith, room) in
    let absorbed = packets_of_all-Absorbs (max_payload_bytes - 3) [] split nalus in
    some-Absorbs header s t (packets_of_all max_payload_bytes split) (with_start_codes split)
      (with_start_codes-some split some_nalu) (rw size at absorbed)
