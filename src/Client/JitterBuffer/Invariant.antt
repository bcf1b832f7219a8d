-- ===== src/Client/JitterBuffer/Invariant.antt =====
-- The bounds and the order of JitterBuffer, kept by every call.
use meeting_system.Prelude.{ℕ, ◌≤◌, ◌≡◌, List, [], ◌∷◌, Option, none, some, length, min, arith}
use meeting_system.Prelude.Int.{ℤ}
use meeting_system.Prelude.OrderedMap.{
  put, IsOrdered, put-IsOrdered, remove-IsOrdered, length-remove,
}
use meeting_system.Client.Rtp.{RtpPacket}
use meeting_system.Client.JitterBuffer.{
  JitterBuffer, at_least_one, init, trim_loop, trim, set_max_packets, set_min_buffered_packets,
  set_gap_timeout, push, clear, gap_ready, ready_to_pop, next_entry, take_entry, pop,
}

unfoldable pub IsJitterBuffer : JitterBuffer → Type 0
IsJitterBuffer b =
    IsOrdered b.packets
    × (length b.packets ≤ b.max_packets)
    × (1 ≤ b.min_buffered_packets)
    × (b.min_buffered_packets ≤ b.max_packets)

trim_loop-IsOrdered :
    (limit : ℕ) (m : List (ℕ × RtpPacket)) → IsOrdered m → IsOrdered (trim_loop limit m)
unfolding trim_loop
trim_loop-IsOrdered limit [] h = tt
trim_loop-IsOrdered limit (x ∷ m) h = ground (arith, h, trim_loop-IsOrdered limit m h.1)

length-trim_loop :
    (limit : ℕ) (m : List (ℕ × RtpPacket)) → length (trim_loop limit m) ≡ min limit (length m)
unfolding trim_loop
length-trim_loop limit [] = omega arith
length-trim_loop limit (x ∷ m) = ground (arith, length-trim_loop limit m)

init-IsJitterBuffer :
    (max_packets min_buffered : ℕ) (gap_timeout : ℤ)
    → IsJitterBuffer (init max_packets min_buffered gap_timeout)
unfolding init IsJitterBuffer
init-IsJitterBuffer max_packets min_buffered gap_timeout =
    (tt, ground arith, ground arith, ground arith)

set_max_packets-IsJitterBuffer :
    (b : JitterBuffer) (n : ℕ) → IsJitterBuffer b → IsJitterBuffer (set_max_packets b n)
unfolding set_max_packets trim IsJitterBuffer
set_max_packets-IsJitterBuffer b n h = (
  trim_loop-IsOrdered (at_least_one n) b.packets h.0,
  ground (arith, length-trim_loop (at_least_one n) b.packets),
  ground arith,
  ground arith,
)

set_min_buffered_packets-IsJitterBuffer :
    (b : JitterBuffer) (n : ℕ) → IsJitterBuffer b → IsJitterBuffer (set_min_buffered_packets b n)
unfolding set_min_buffered_packets IsJitterBuffer
set_min_buffered_packets-IsJitterBuffer b n h = (h.0, h.1, ground arith, ground arith)

push-IsJitterBuffer :
    (b : JitterBuffer) (packet : RtpPacket) → IsJitterBuffer b → IsJitterBuffer (push b packet)
unfolding push trim IsJitterBuffer
push-IsJitterBuffer b packet h =
    let m = put packet.header.sequence_number packet b.packets in
    (
      trim_loop-IsOrdered b.max_packets m
          (put-IsOrdered packet.header.sequence_number packet b.packets h.0),
      ground (arith, length-trim_loop b.max_packets m),
      h.2,
      h.3,
    )

ready_to_pop-IsJitterBuffer :
    (b : JitterBuffer) (now : ℕ) → IsJitterBuffer b → IsJitterBuffer (ready_to_pop b now).1
unfolding ready_to_pop gap_ready IsJitterBuffer
ready_to_pop-IsJitterBuffer b now h = ground (arith, h)

take_entry-IsJitterBuffer :
    (b : JitterBuffer) (entry : Option (ℕ × RtpPacket))
    → IsJitterBuffer b
    → IsJitterBuffer (take_entry b entry).1
unfolding take_entry IsJitterBuffer
take_entry-IsJitterBuffer b none h = h
take_entry-IsJitterBuffer b (some (seq, packet)) h =
    (remove-IsOrdered seq b.packets h.0, omega (arith, length-remove seq b.packets, h.1), h.2, h.3)

pop-IsJitterBuffer : (b : JitterBuffer) (now : ℕ) → IsJitterBuffer b → IsJitterBuffer (pop b now).1
unfolding pop
pop-IsJitterBuffer b now h =
    let ready = ready_to_pop b now in
    let kept = ready_to_pop-IsJitterBuffer b now h in
    ground (arith, kept, take_entry-IsJitterBuffer ready.1 (next_entry ready.1) kept)

-- A call of the buffer: a setter, a packet that arrives, a packet that is played, a clear.
pub data Call : Type 0 where
  hold_most hold_first : ℕ → Call
  wait_for : ℤ → Call
  arrive : RtpPacket → Call
  play : ℕ → Call
  restart : Call

unfoldable pub call : JitterBuffer → Call → JitterBuffer
call b (hold_most n) = set_max_packets b n
call b (hold_first n) = set_min_buffered_packets b n
call b (wait_for t) = set_gap_timeout b t
call b (arrive packet) = push b packet
call b (play now) = (pop b now).1
call b restart = clear b

call-IsJitterBuffer : (b : JitterBuffer) (c : Call) → IsJitterBuffer b → IsJitterBuffer (call b c)
unfolding call set_gap_timeout clear IsJitterBuffer
call-IsJitterBuffer b (hold_most n) h = set_max_packets-IsJitterBuffer b n h
call-IsJitterBuffer b (hold_first n) h = set_min_buffered_packets-IsJitterBuffer b n h
call-IsJitterBuffer b (wait_for t) h = h
call-IsJitterBuffer b (arrive packet) h = push-IsJitterBuffer b packet h
call-IsJitterBuffer b (play now) h = pop-IsJitterBuffer b now h
call-IsJitterBuffer b restart h = (tt, omega arith, h.2, h.3)

unfoldable pub calls : JitterBuffer → List Call → JitterBuffer
calls b [] = b
calls b (c ∷ cs) = calls (call b c) cs

calls-IsJitterBuffer :
    (b : JitterBuffer) (cs : List Call) → IsJitterBuffer b → IsJitterBuffer (calls b cs)
unfolding calls
calls-IsJitterBuffer b [] h = h
calls-IsJitterBuffer b (c ∷ cs) h = calls-IsJitterBuffer (call b c) cs (call-IsJitterBuffer b c h)

-- Whatever calls come after its construction, the buffer holds its packets in the order of their
-- sequence numbers, no more than its limit, and its playout threshold is between 1 and that limit.
pub calls-init-IsJitterBuffer :
    (max_packets min_buffered : ℕ) (gap_timeout : ℤ) (cs : List Call)
    → IsJitterBuffer (calls (init max_packets min_buffered gap_timeout) cs)
calls-init-IsJitterBuffer max_packets min_buffered gap_timeout cs =
    calls-IsJitterBuffer (init max_packets min_buffered gap_timeout) cs
      (init-IsJitterBuffer max_packets min_buffered gap_timeout)
