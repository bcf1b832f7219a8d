-- ===== src/Client/H264Payload/Loss.antt =====
-- What the assembler does when packets are lost.
use meeting_system.Prelude.{
  ℕ, ◌≡◌, ◌≢◌, refl, Bool, true, false, List, [], ◌∷◌, none, some, not, ◌==◌, ◌&&◌, ◌||◌, arith,
  inl, inr, Bool-cases,
}
use meeting_system.Prelude.Assoc.{is_empty}
use meeting_system.Client.Rtp.{RtpPacket}
use meeting_system.Client.H264Payload.{
  H264AccessUnitAssembler, is_forward_sequence_gap, missing_sequences, check_sequence,
  check_timestamp, take_fragment, take_payload, finish, after_payload, consume, is_new_timestamp,
  expect_next, after_gap,
}

check_sequence_late :
    (a : H264AccessUnitAssembler) (packet : RtpPacket)
    → a.has_expected_sequence ≡ true
    → packet.header.sequence_number ≢ a.expected_sequence
    → is_forward_sequence_gap a.expected_sequence packet.header.sequence_number ≡ false
    → check_sequence a packet ≡ none
unfolding check_sequence
check_sequence_late a packet expecting other late =
    let differ : packet.header.sequence_number == a.expected_sequence ≡ false =
      ground (arith, other) in
    rw (expecting, differ, late) refl

consume_unchecked :
    (a : H264AccessUnitAssembler) (packet : RtpPacket)
    → check_sequence a packet ≡ none
    → (consume a packet).0 ≡ none
unfolding consume
consume_unchecked a packet e = rw (e, consume) refl

-- A packet with a number that lies behind the expected one, or too far ahead: it is not used, no loss
-- is reported, and the assembler stays as it is.
pub consume_late :
    (a : H264AccessUnitAssembler) (packet : RtpPacket)
    → a.has_expected_sequence ≡ true
    → packet.header.sequence_number ≢ a.expected_sequence
    → is_forward_sequence_gap a.expected_sequence packet.header.sequence_number ≡ false
    → consume a packet ≡ (none, false, [], a)
unfolding consume
consume_late a packet expecting other late =
    rw (check_sequence_late a packet expecting other late, consume) refl

take_fragment_corrupted :
    (a : H264AccessUnitAssembler) (fu_indicator header : ℕ) (bytes : List ℕ)
    → a.access_unit_corrupted ≡ true
    → (take_fragment a fu_indicator header bytes).1.access_unit_corrupted ≡ true
unfolding take_fragment
take_fragment_corrupted a fu_indicator header bytes e = ground (arith, e)

take_payload_corrupted :
    (a : H264AccessUnitAssembler) (payload : List ℕ)
    → a.access_unit_corrupted ≡ true
    → (take_payload a payload).1.access_unit_corrupted ≡ true
unfolding take_payload
take_payload_corrupted a [] e = e
take_payload_corrupted a (b ∷ []) e = ground (arith, e)
take_payload_corrupted a (b ∷ header ∷ bytes) e =
    ground (arith, e, take_fragment_corrupted a b header bytes e)

finish_corrupted :
    (a : H264AccessUnitAssembler) (packet : RtpPacket) (loss : Bool) (missing : List ℕ)
    → a.access_unit_corrupted ≡ true
    → (finish a packet loss missing).0 ≡ none
unfolding finish
finish_corrupted a packet loss missing e = ground (arith, e)

after_payload_corrupted :
    (taken : Bool × H264AccessUnitAssembler) (packet : RtpPacket) (loss : Bool) (missing : List ℕ)
    → taken.1.access_unit_corrupted ≡ true
    → (after_payload taken packet loss missing).0 ≡ none
after_payload_corrupted (false, a) packet loss missing e = refl
after_payload_corrupted (true, a) packet loss missing e = finish_corrupted a packet loss missing e

check_timestamp_same :
    (a : H264AccessUnitAssembler) (packet : RtpPacket)
    → a.has_timestamp ≡ true
    → packet.header.timestamp ≡ a.timestamp
    → check_timestamp a packet ≡ (false, a)
unfolding check_timestamp
check_timestamp_same a packet begun same =
    let same_time : packet.header.timestamp == a.timestamp ≡ true = ground (arith, same) in
    let going_on : is_new_timestamp a packet ≡ false = ground (arith, begun, same_time) in
    rw going_on refl

-- The numbers are checked, the timestamp is the same, and the access unit is spoiled.
consume_checked :
    (a : H264AccessUnitAssembler) (packet : RtpPacket) (gap : Bool) (missing : List ℕ)
    (checked : H264AccessUnitAssembler)
    → check_sequence a packet ≡ some (gap, missing, checked)
    → checked.has_timestamp ≡ true
    → packet.header.timestamp ≡ checked.timestamp
    → checked.access_unit_corrupted ≡ true
    → (consume a packet).0 ≡ none
unfolding consume
consume_checked a packet gap missing checked e begun same spoiled =
    rw (e, consume)
      (rw (check_timestamp_same checked packet begun same)
        (elim (Bool-cases (is_empty packet.payload)) [
          | inl nothing ↦ rw nothing refl
          | inr something ↦ rw something (
              after_payload_corrupted (take_payload checked packet.payload) packet (gap || false)
                missing (take_payload_corrupted checked packet.payload spoiled))
        ]))

-- As long as the timestamp stays the same, an access unit that is spoiled, or that this packet spoils
-- since its number is not the expected one, is not given out.
pub consume_spoiled :
    (a : H264AccessUnitAssembler) (packet : RtpPacket)
    → a.has_timestamp ≡ true
    → packet.header.timestamp ≡ a.timestamp
    → a.access_unit_corrupted
        || (a.has_expected_sequence && not (packet.header.sequence_number == a.expected_sequence))
      ≡ true
    → (consume a packet).0 ≡ none
unfolding check_sequence
consume_spoiled a packet begun same spoiled =
    let sequence = packet.header.sequence_number in
    elim (Bool-cases (not a.has_expected_sequence || (sequence == a.expected_sequence))) [
      | inl in_order ↦
          consume_checked a packet false [] (expect_next a packet) (rw in_order refl) begun same
            (ground (arith, in_order, spoiled))
      | inr other ↦ elim (Bool-cases (is_forward_sequence_gap a.expected_sequence sequence)) [
        | inl gap ↦
            consume_checked a packet true (missing_sequences 32 a.expected_sequence sequence)
              (expect_next (after_gap a packet) packet) (rw (other, gap) refl) begun same refl
        | inr late ↦ consume_unchecked a packet (rw (other, late) refl)
      ]
    ]
