-- ===== src/Client/JitterBuffer/Playout.antt =====
-- Which packet a pop of JitterBuffer plays, and which packet a push into a full buffer loses.
use meeting_system.Prelude.{
  ℕ, ◌+◌, ◌-◌, ◌%◌, ◌≤◌, ◌<◌, ◌≡◌, refl, sym, ap, ◌∙◌, ◌⊎◌, Bool, true, false, List, [], ◌∷◌,
  Option, none, some, ◌==◌, if◌then◌else◌, length, arith, inl, inr,
}
use meeting_system.Prelude.OrderedMap.{find, put, remove, find-remove, find-put, length-put}
use meeting_system.Client.Rtp.{RtpPacket}
use meeting_system.Client.JitterBuffer.{
  may_start, JitterBuffer, trim_loop, trim, push, has_expected, gap_ready, ready_to_pop, next_entry,
  take_entry, pop,
}
use meeting_system.Client.JitterBuffer.Invariant.{IsJitterBuffer}

find-first :
    (k : ℕ) (packet : RtpPacket) (m : List (ℕ × RtpPacket)) → find k ((k, packet) ∷ m) ≡ some packet
unfolding find
find-first k packet m = ground arith

next_entry-find :
    (b : JitterBuffer) (seq : ℕ) (packet : RtpPacket)
    → next_entry b ≡ some (seq, packet)
    → find seq b.packets ≡ some packet
unfolding next_entry find
next_entry-find b seq packet e = ground arith

-- May the packet after a gap be played: the buffer is full, waits for no gap, or has waited.
unfoldable pub IsGapOver : JitterBuffer → ℕ → Type 0
IsGapOver b now =
    (b.max_packets ≤ length b.packets)
    ⊎ ((b.gap_timeout ≡ 0)
        ⊎ ((0 < b.gap_wait_started_at) × (b.gap_timeout ≤ now - b.gap_wait_started_at)))

ready_to_pop-gap :
    (b : JitterBuffer) (now : ℕ)
    → (ready_to_pop b now).0 ≡ true
    → (has_expected b ≡ true) ⊎ IsGapOver b now
unfolding ready_to_pop gap_ready IsGapOver has_expected
ready_to_pop-gap b now h = ground (arith, h)

ready_to_pop-packets :
    (b : JitterBuffer) (now : ℕ)
    → ((ready_to_pop b now).1.packets ≡ b.packets)
      × ((ready_to_pop b now).1.expected_seq ≡ b.expected_seq)
unfolding ready_to_pop gap_ready
ready_to_pop-packets b now = (ground arith, ground arith)

-- The packet to play is the expected one, or the gap before it is over, or none is expected yet.
unfoldable pub IsDue : JitterBuffer → ℕ → ℕ → Type 0
IsDue b now seq = (b.expected_seq ≡ some seq) ⊎ ((b.expected_seq ≡ none) ⊎ IsGapOver b now)

next_entry-IsDue :
    (b : JitterBuffer) (now seq : ℕ) (packet : RtpPacket)
    → next_entry b ≡ some (seq, packet)
    → (has_expected b ≡ true) ⊎ IsGapOver b now
    → IsDue b now seq
unfolding next_entry has_expected IsDue
next_entry-IsDue b now seq packet e (inr over) = inr (inr over)
next_entry-IsDue b now seq packet e (inl here) = ground (arith, e, here)

-- What a pop answers with a packet: which packet, and what it leaves.
unfoldable pub IsPlayed : JitterBuffer → ℕ → RtpPacket → JitterBuffer → ℕ → Type 0
IsPlayed b now packet b' seq =
    (find seq b.packets ≡ some packet)
    × IsDue b now seq
    × ((other : ℕ) → find other b'.packets ≡ (if seq == other then none else find other b.packets))
    × (b'.expected_seq ≡ some ((seq + 1) % 65536))

answer-entry :
    (go : Bool) (b : JitterBuffer) (entry : Option (ℕ × RtpPacket)) (packet : RtpPacket)
    → (if go then take_entry b entry else (none, b)).0 ≡ some packet
    → (go ≡ true)
      × ((seq : ℕ) × (entry ≡ some (seq, packet))
          × ((if go then take_entry b entry else (none, b)).1.packets ≡ remove seq b.packets)
          × ((if go then take_entry b entry else (none, b)).1.expected_seq
              ≡ some ((seq + 1) % 65536)))
unfolding take_entry
answer-entry false b entry packet e = cc
answer-entry true b none packet e = cc
answer-entry true b (some (seq, played)) packet e = (refl, (seq, ground (arith, e), refl, refl))

pop-entry :
    (b : JitterBuffer) (now : ℕ) (packet : RtpPacket)
    → (pop b now).0 ≡ some packet
    → ((ready_to_pop b now).0 ≡ true)
      × ((seq : ℕ) × (next_entry (ready_to_pop b now).1 ≡ some (seq, packet))
          × ((pop b now).1.packets ≡ remove seq (ready_to_pop b now).1.packets)
          × ((pop b now).1.expected_seq ≡ some ((seq + 1) % 65536)))
unfolding pop
pop-entry b now packet e =
    let ready = ready_to_pop b now in answer-entry ready.0 ready.1 (next_entry ready.1) packet e

-- The state that `ready_to_pop` leaves has the same packets, so the next entry is the same.
next_entry-ready_to_pop :
    (b : JitterBuffer) (now : ℕ) → next_entry (ready_to_pop b now).1 ≡ next_entry b
unfolding next_entry
next_entry-ready_to_pop b now = let same = ready_to_pop-packets b now in rw (same.0, same.1)

-- A packet that is played was stored under its number and no longer is, every other packet stays,
-- the number after it is expected next, and it was the expected packet unless none was expected, the
-- buffer was full, or the gap before it has lasted for the timeout.
pub pop-IsPlayed :
    (b : JitterBuffer) (now : ℕ) (packet : RtpPacket)
    → IsJitterBuffer b
    → (pop b now).0 ≡ some packet
    → (seq : ℕ) × IsPlayed b now packet (pop b now).1 seq
unfolding IsPlayed IsJitterBuffer
pop-IsPlayed b now packet h e =
    let same = ready_to_pop-packets b now in
    let entry = pop-entry b now packet e in
    let next = sym (next_entry-ready_to_pop b now) ∙ entry.1.1 in
    let seq = entry.1.0 in
    let left = entry.1.2 in
    let kept = ap (remove seq) same.0 in
    (
      seq,
      (
        next_entry-find b seq packet next,
        next_entry-IsDue b now seq packet next (ready_to_pop-gap b now entry.0),
        λ other. ap (find other) (left ∙ kept) ∙ find-remove seq other b.packets h.0,
        entry.1.3,
      ),
    )

trim_loop-fits : (limit : ℕ) (m : List (ℕ × RtpPacket)) → length m ≤ limit → trim_loop limit m ≡ m
unfolding trim_loop
trim_loop-fits limit [] h = refl
trim_loop-fits limit (x ∷ m) h = ground arith

-- With room for one more packet a push stores its packet, in place of one with the same number, and
-- loses none.
pub push-find :
    (b : JitterBuffer) (packet : RtpPacket) (seq : ℕ)
    → length b.packets < b.max_packets
    → find seq (push b packet).packets
      ≡ (if packet.header.sequence_number == seq then some packet else find seq b.packets)
unfolding push trim
push-find b packet seq room =
    let new = packet.header.sequence_number in
    rw
      (trim_loop-fits b.max_packets (put new packet b.packets)
        (omega (arith, length-put new packet b.packets)))
      (find-put new seq packet b.packets)

-- Once the playout may start, the expected packet is played when it is there.
pub pop-expected :
    (b : JitterBuffer) (now seq : ℕ) (packet : RtpPacket)
    → may_start b ≡ true
    → b.expected_seq ≡ some seq
    → find seq b.packets ≡ some packet
    → (pop b now).0 ≡ some packet
unfolding pop ready_to_pop gap_ready has_expected next_entry take_entry find
pop-expected b now seq packet started e there = ground (arith, started, e, there)
