-- ===== src/Client/H264Payload.antt =====
-- plasma-hawking/src/net/media/H264RtpPayload: an encoded frame is cut into RTP payloads, single NAL
-- units and fragments (FU-A), and put together again. What a call reports through its pointers is a
-- part of its result.
pub mod Fragments
pub mod RoundTrip
pub mod Loss
use meeting_system.Prelude.{
  ℕ, zero, suc, ◌+◌, ◌-◌, ◌*◌, ◌/◌, ◌%◌, Bool, true, false, List, [], ◌∷◌, ◌++◌, Option, none, some,
  not, ◌&&◌, ◌||◌, ltb, leb, ◌==◌, if◌then◌else◌, length, take, drop,
}
use meeting_system.Prelude.Assoc.{is_empty}
use meeting_system.Client.Rtp.{RtpPacket}

-- The length of the start code that the bytes begin with, 0 if there is none. Three bytes 0 0 1 at the
-- very end are not looked at.
unfoldable pub start_code_size : List ℕ → ℕ
start_code_size (a ∷ b ∷ c ∷ d ∷ rest) =
    if not (a == 0) || not (b == 0)
    then 0
    else if c == 1
    then 3
    else if (c == 0) && (d == 1)
    then 4
    else 0
start_code_size bytes = 0

-- A byte before the first of the pieces.
abbrev pub before_first : ℕ → List (List ℕ) → List (List ℕ)
before_first b [] = (b ∷ []) ∷ []
before_first b (piece ∷ pieces) = (b ∷ piece) ∷ pieces

-- The pieces between the start codes, with `skipped` bytes of a start code still to go.
unfoldable pub pieces : ℕ → List ℕ → List (List ℕ)
pieces skipped [] = [] ∷ []
pieces (suc skipped) (b ∷ bytes) = pieces skipped bytes
pieces zero (b ∷ bytes) =
    let rest = pieces zero bytes in
    let next = pieces (start_code_size (b ∷ bytes) - 1) bytes in
    if start_code_size (b ∷ bytes) == 0 then before_first b rest else [] ∷ next

unfoldable pub without_empty : List (List ℕ) → List (List ℕ)
without_empty [] = []
without_empty (piece ∷ pieces) =
    let rest = without_empty pieces in if is_empty piece then rest else piece ∷ rest

-- With no start code the payload is one NAL unit; what stands before the first start code is dropped.
abbrev pub nalus_of : List (List ℕ) → List (List ℕ)
nalus_of [] = []
nalus_of (only ∷ []) = only ∷ []
nalus_of (before ∷ piece ∷ pieces) = without_empty (piece ∷ pieces)

unfoldable pub split_annex_b_nalus : List ℕ → List (List ℕ)
split_annex_b_nalus [] = []
split_annex_b_nalus (b ∷ bytes) = nalus_of (pieces zero (b ∷ bytes))

abbrev pub fu_header : ℕ → (first last : Bool) → ℕ
fu_header nal_header first last =
    nal_header % 32 + ((if first then 128 else 0) + (if last then 64 else 0))

-- The loop over the fragments of a NAL unit, on fuel.
unfoldable pub fragments : ℕ → (nal_header fragment_bytes : ℕ) → Bool → List ℕ → List (List ℕ)
fragments zero nal_header fragment_bytes first bytes = []
fragments (suc fuel) nal_header fragment_bytes first [] = []
fragments (suc fuel) nal_header fragment_bytes first (b ∷ bytes) =
    let rest = drop fragment_bytes (b ∷ bytes) in
    ((nal_header / 32 * 32 + 28)
      ∷ fu_header nal_header first (is_empty rest)
      ∷ take fragment_bytes (b ∷ bytes))
    ∷ fragments fuel nal_header fragment_bytes false rest

unfoldable pub packets_of : ℕ → List ℕ → List (List ℕ)
unfolding fragments
packets_of max_payload_bytes [] = []
packets_of max_payload_bytes (nal_header ∷ bytes) =
    if leb (length (nal_header ∷ bytes)) max_payload_bytes
    then (nal_header ∷ bytes) ∷ []
    else if max_payload_bytes - 2 == 0
    then []
    else fragments (length bytes) nal_header (max_payload_bytes - 2) true bytes

unfoldable pub packets_of_all : ℕ → List (List ℕ) → List (List ℕ)
packets_of_all max_payload_bytes [] = []
packets_of_all max_payload_bytes (nalu ∷ nalus) =
    packets_of max_payload_bytes nalu ++ packets_of_all max_payload_bytes nalus

unfoldable pub packetize_h264_annex_b : List ℕ → ℕ → List (List ℕ)
packetize_h264_annex_b encoded_frame max_payload_bytes =
    packets_of_all max_payload_bytes (split_annex_b_nalus encoded_frame)

pub record H264AccessUnit : Type 0 where
  pub payload : List ℕ
  pub pts : ℕ
  pub payload_type : ℕ

pub record H264AccessUnitAssembler : Type 0 where
  pub timestamp : ℕ
  pub has_timestamp : Bool
  pub expected_sequence : ℕ
  pub has_expected_sequence : Bool
  pub access_unit_corrupted : Bool
  pub access_unit : List ℕ
  pub fragmented_nalu : List ℕ

abbrev pub new_assembler : H264AccessUnitAssembler
new_assembler = record {
  timestamp = 0;
  has_timestamp = false;
  expected_sequence = 0;
  has_expected_sequence = false;
  access_unit_corrupted = false;
  access_unit = [];
  fragmented_nalu = [];
}

unfoldable pub is_forward_sequence_gap : ℕ → ℕ → Bool
is_forward_sequence_gap expected actual =
    let delta = (actual + 65536 - expected) % 65536 in not (delta == 0) && ltb delta 0x8000

-- At most `limit` of the numbers from the expected one up to the actual one.
unfoldable pub missing_sequences : ℕ → ℕ → ℕ → List ℕ
missing_sequences zero sequence actual = []
missing_sequences (suc limit) sequence actual =
    let rest = missing_sequences limit ((sequence + 1) % 65536) actual in
    if sequence == actual then [] else sequence ∷ rest

-- `appendCompleteNalu`
abbrev pub append_complete_nalu : List ℕ → List ℕ → List ℕ
append_complete_nalu target [] = target
append_complete_nalu target (b ∷ bytes) = target ++ (0 ∷ 0 ∷ 0 ∷ 1 ∷ b ∷ bytes)

abbrev pub is_new_timestamp : H264AccessUnitAssembler → RtpPacket → Bool
is_new_timestamp a packet = not a.has_timestamp || not (packet.header.timestamp == a.timestamp)

-- A gap in the sequence numbers spoils the access unit.
abbrev pub after_gap : H264AccessUnitAssembler → RtpPacket → H264AccessUnitAssembler
after_gap a packet = record a {
  access_unit_corrupted = true;
  fragmented_nalu = [];
  access_unit = if is_new_timestamp a packet then [] else a.access_unit;
}

-- The number that is expected after the packet's.
abbrev pub expect_next : H264AccessUnitAssembler → RtpPacket → H264AccessUnitAssembler
expect_next a packet = record a {
  expected_sequence = (packet.header.sequence_number + 1) % 65536;
  has_expected_sequence = true;
}

-- Whether packets were lost, those that are missing, and the assembler; none for a packet that comes
-- too late.
unfoldable pub check_sequence :
    H264AccessUnitAssembler → RtpPacket → Option (Bool × List ℕ × H264AccessUnitAssembler)
unfolding is_forward_sequence_gap
check_sequence a packet =
    let sequence = packet.header.sequence_number in
    if not a.has_expected_sequence || (sequence == a.expected_sequence)
    then some (false, [], expect_next a packet)
    else if not (is_forward_sequence_gap a.expected_sequence sequence)
    then none
    else some (
      true,
      missing_sequences 32 a.expected_sequence sequence,
      expect_next (after_gap a packet) packet,
    )

-- A new timestamp begins a new access unit; one that is not finished is lost.
unfoldable pub check_timestamp :
    H264AccessUnitAssembler → RtpPacket → Bool × H264AccessUnitAssembler
check_timestamp a packet = if not (is_new_timestamp a packet) then (false, a) else (
  a.has_timestamp && (not (is_empty a.access_unit) || not (is_empty a.fragmented_nalu)),
  record a {
    fragmented_nalu = [];
    access_unit = [];
    timestamp = packet.header.timestamp;
    has_timestamp = true;
    access_unit_corrupted = false;
  },
)

-- The assembler after a payload, and whether the call goes on.
unfoldable pub take_fragment :
    H264AccessUnitAssembler → (fu_indicator header : ℕ) → List ℕ → Bool × H264AccessUnitAssembler
take_fragment a fu_indicator header bytes =
    let begun =
      if header / 128 % 2 == 1
      then (fu_indicator / 32 * 32 + header % 32) ∷ []
      else a.fragmented_nalu in
    if is_empty begun
    then (false, record a { access_unit_corrupted = true })
    else if header / 64 % 2 == 1
    then (
      true,
      record a {
        access_unit = append_complete_nalu a.access_unit (begun ++ bytes);
        fragmented_nalu = [];
      },
    )
    else (true, record a { fragmented_nalu = begun ++ bytes })

unfoldable pub take_payload : H264AccessUnitAssembler → List ℕ → Bool × H264AccessUnitAssembler
unfolding take_fragment
take_payload a [] = (true, a)
take_payload a (b ∷ bytes) =
    if b % 32 == 28
    then elim bytes [
      | [] ↦ (false, record a { access_unit_corrupted = true })
      | header ∷ rest ↦ take_fragment a b header rest
    ]
    else (
      true,
      record a {
        access_unit_corrupted = a.access_unit_corrupted || not (is_empty a.fragmented_nalu);
        fragmented_nalu = [];
        access_unit = append_complete_nalu a.access_unit (b ∷ bytes);
      },
    )

-- What a call answers: the access unit, if one is complete, whether loss was detected, the numbers
-- that are missing, and the assembler.
abbrev pub Answer : Type 0
Answer = Option H264AccessUnit × Bool × List ℕ × H264AccessUnitAssembler

-- After the payload: the access unit is given out with the packet that has the marker.
unfoldable pub finish : H264AccessUnitAssembler → RtpPacket → Bool → List ℕ → Answer
finish a packet loss missing =
    let corrupted = a.access_unit_corrupted || not (is_empty a.fragmented_nalu) in
    let cleared = record a {
      access_unit = [];
      fragmented_nalu = [];
      access_unit_corrupted = false;
    } in
    if not packet.header.marker || is_empty a.access_unit
    then (none, loss, missing, a)
    else if corrupted
    then (none, true, missing, cleared)
    else (
      some (record {
        payload = a.access_unit;
        pts = packet.header.timestamp;
        payload_type = packet.header.payload_type;
      }),
      loss,
      missing,
      cleared,
    )

abbrev pub after_payload : Bool × H264AccessUnitAssembler → RtpPacket → Bool → List ℕ → Answer
after_payload (false, a) packet loss missing = (none, true, missing, a)
after_payload (true, a) packet loss missing = finish a packet loss missing

unfoldable pub consume : H264AccessUnitAssembler → RtpPacket → Answer
unfolding take_payload
consume a packet = elim (check_sequence a packet) [
  | none ↦ (none, false, [], a)
  | some (gap, missing, checked) ↦
      let begun = check_timestamp checked packet in
      let loss = gap || begun.0 in
      if is_empty packet.payload
      then (none, loss, missing, begun.1)
      else after_payload (take_payload begun.1 packet.payload) packet loss missing
]
