-- ===== src/Client/JitterBuffer.antt =====
-- plasma-hawking/src/net/media/JitterBuffer. Each method holds the mutex, so a call is one step; the
-- clock's reading is an argument, and a time is a number of its ticks, 0 for the time point `{}`. It is
-- a steady clock, so no difference of two readings is negative.
pub mod Invariant
pub mod Playout
use meeting_system.Prelude.{
  ℕ, ◌+◌, ◌-◌, ◌%◌, Bool, true, false, List, [], ◌∷◌, Option, none, some, not, ◌&&◌, ◌||◌, ltb, leb,
  ◌==◌, if◌then◌else◌, length, min, max,
}
use meeting_system.Prelude.Int.{ℤ, pos_part}
use meeting_system.Prelude.Assoc.{is_some, is_empty}
use meeting_system.Prelude.OrderedMap.{find, put, remove, without_first}
use meeting_system.Client.Rtp.{RtpPacket}

pub record JitterBuffer : Type 0 where
  pub packets : List (ℕ × RtpPacket)
  pub expected_seq : Option ℕ
  pub gap_wait_started_at : ℕ
  pub max_packets : ℕ
  pub min_buffered_packets : ℕ
  pub gap_timeout : ℕ
  pub playout_started : Bool

abbrev pub at_least_one : ℕ → ℕ
at_least_one n = if n == 0 then 1 else n

unfoldable pub init : ℕ → ℕ → ℤ → JitterBuffer
init max_packets min_buffered gap_timeout = record {
  packets = [];
  expected_seq = none;
  gap_wait_started_at = 0;
  max_packets = at_least_one max_packets;
  min_buffered_packets = max 1 (min min_buffered (at_least_one max_packets));
  gap_timeout = pos_part gap_timeout;
  playout_started = false;
}

-- The loop of `trimLocked`: each round drops the first packet, so it ends with the excess gone.
unfoldable pub trim_loop : ℕ → List (ℕ × RtpPacket) → List (ℕ × RtpPacket)
trim_loop limit [] = []
trim_loop limit (x ∷ m) =
    let rest = trim_loop limit m in if ltb limit (length (x ∷ m)) then rest else x ∷ m

unfoldable pub trim : JitterBuffer → JitterBuffer
trim b = record b { packets = trim_loop b.max_packets b.packets }

unfoldable pub set_max_packets : JitterBuffer → ℕ → JitterBuffer
unfolding trim
set_max_packets b max_packets =
    let limit = at_least_one max_packets in
    trim (record b {
      max_packets = limit;
      min_buffered_packets = at_least_one (min b.min_buffered_packets limit);
    })

unfoldable pub set_min_buffered_packets : JitterBuffer → ℕ → JitterBuffer
set_min_buffered_packets b min_buffered = record b {
  min_buffered_packets = max 1 (min min_buffered b.max_packets);
}

unfoldable pub set_gap_timeout : JitterBuffer → ℤ → JitterBuffer
set_gap_timeout b timeout = record b { gap_timeout = pos_part timeout; gap_wait_started_at = 0 }

abbrev pub expected_or : Option ℕ → ℕ → Option ℕ
expected_or none seq = some seq
expected_or (some expected) seq = some expected

unfoldable pub push : JitterBuffer → RtpPacket → JitterBuffer
unfolding trim
push b packet =
    let seq = packet.header.sequence_number in
    trim (record b {
      packets = put seq packet b.packets;
      expected_seq = expected_or b.expected_seq seq;
    })

unfoldable pub clear : JitterBuffer → JitterBuffer
clear b = record b {
  packets = [];
  expected_seq = none;
  gap_wait_started_at = 0;
  playout_started = false;
}

unfoldable pub size : JitterBuffer → ℕ
size b = length b.packets

-- The expected packet is there, or none is expected.
unfoldable pub has_expected : JitterBuffer → Bool
has_expected b = elim b.expected_seq [ none ↦ true | some seq ↦ is_some (find seq b.packets) ]

unfoldable pub may_start : JitterBuffer → Bool
may_start b =
    b.playout_started
    || not (ltb (length b.packets) b.min_buffered_packets && ltb (length b.packets) b.max_packets)

-- `readyToPopLocked` once the playout has started.
unfoldable pub gap_ready : JitterBuffer → ℕ → Bool × JitterBuffer
gap_ready b now =
    if has_expected b
    then (true, record b { gap_wait_started_at = 0 })
    else if leb b.max_packets (length b.packets) || b.gap_timeout == 0
    then (true, b)
    else if b.gap_wait_started_at == 0
    then (false, record b { gap_wait_started_at = now })
    else (leb b.gap_timeout (now - b.gap_wait_started_at), b)

unfoldable pub ready_to_pop : JitterBuffer → ℕ → Bool × JitterBuffer
unfolding gap_ready
ready_to_pop b now =
    if is_empty b.packets
    then (false, b)
    else if not (may_start b)
    then (false, b)
    else gap_ready (record b { playout_started = true }) now

abbrev pub expected_entry : Option ℕ → List (ℕ × RtpPacket) → Option (ℕ × RtpPacket)
expected_entry none m = none
expected_entry (some seq) m = elim (find seq m) [ none ↦ none | some packet ↦ some (seq, packet) ]

abbrev pub first_entry : List (ℕ × RtpPacket) → Option (ℕ × RtpPacket)
first_entry [] = none
first_entry (x ∷ m) = some x

abbrev pub or_else : Option (ℕ × RtpPacket) → Option (ℕ × RtpPacket) → Option (ℕ × RtpPacket)
or_else none y = y
or_else (some x) y = some x

-- The entry that `popLocked` takes: the expected one, else the first.
unfoldable pub next_entry : JitterBuffer → Option (ℕ × RtpPacket)
next_entry b = or_else (expected_entry b.expected_seq b.packets) (first_entry b.packets)

unfoldable pub take_entry : JitterBuffer → Option (ℕ × RtpPacket) → Option RtpPacket × JitterBuffer
take_entry b none = (none, b)
take_entry b (some (seq, packet)) = (
  some packet,
  record b {
    packets = remove seq b.packets;
    expected_seq = some ((seq + 1) % 65536);
    gap_wait_started_at = 0;
  },
)

-- The answer `false` is `none`.
unfoldable pub pop : JitterBuffer → ℕ → Option RtpPacket × JitterBuffer
unfolding ready_to_pop next_entry take_entry
pop b now =
    let ready = ready_to_pop b now in
    if ready.0 then take_entry ready.1 (next_entry ready.1) else (none, ready.1)

abbrev pub wait_slice : ℕ → ℕ → ℕ
wait_slice gap_timeout remaining =
    if ltb 0 gap_timeout then min remaining gap_timeout else remaining

pub data WaitRound : Type 0 where
  pops gives_up waits : WaitRound

-- One round of the loop of `popWait` up to its wait, with the three readings of the clock that it
-- may take; `waits` is the wait for the time that `min` gives, after which the next round runs.
unfoldable pub pop_wait_round :
    JitterBuffer → (deadline now now' now'' : ℕ) → WaitRound × Option RtpPacket × JitterBuffer
unfolding ready_to_pop pop
pop_wait_round b deadline now now' now'' =
    let ready = ready_to_pop b now in
    if ready.0
    then (let popped = pop ready.1 now'' in (pops, popped.0, popped.1))
    else if leb deadline now' || wait_slice ready.1.gap_timeout (deadline - now') == 0
    then (gives_up, none, ready.1)
    else (waits, none, ready.1)
