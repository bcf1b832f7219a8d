-- ===== src/Sfu/Rtp/Rtcp/Safety.antt =====
-- RtcpHandler reads no byte outside the datagram, and its loops end.
use meeting_system.Prelude.{
  ℕ, zero, suc, ◌+◌, ◌*◌, ◌≤◌, ◌<◌, ◌≡◌, refl, true, List, [], ◌∷◌, Option, none, some, arith,
  length, ltb, Bool-cases, inl, inr, ◌⊎◌,
}
use meeting_system.Prelude.Bytes.{Read, ok, ◌>>=◌, is_ok}
use meeting_system.Sfu.Rtp.Rtcp.{
  RtcpPacketSummary, compound_step, compound_loop, parse_compound, for_each,
}

-- The packets follow one another from `start`, each of the size that its header says, and the last
-- one ends inside the datagram.
abbrev pub Chained : ℕ → ℕ → List RtcpPacketSummary → Type 0
Chained len start [] = start ≤ len
Chained len start (p ∷ ps) =
    (p.offset ≡ start)
    × (p.packet_size ≡ (p.length_words + 1) * 4)
    × Chained len (start + p.packet_size) ps

-- A packet that the loop takes.
record IsTaken (len offset : ℕ) (p : RtcpPacketSummary) : Type 0 where
  at_offset : p.offset ≡ offset
  size : p.packet_size ≡ (p.length_words + 1) * 4
  inside : offset + p.packet_size ≤ len

abbrev StepOk : ℕ → ℕ → Read (Option RtcpPacketSummary) → Type 0
StepOk len offset r =
    (r ≡ ok none) ⊎ ((p : RtcpPacketSummary) × (r ≡ ok (some p)) × IsTaken len offset p)

compound_step-StepOk :
    (bytes : List ℕ) (offset : ℕ)
    → offset ≤ length bytes
    → StepOk (length bytes) offset (compound_step bytes offset)
unfolding compound_step
compound_step-StepOk bytes offset h = ground arith

compound_loop-Chained :
    (fuel : ℕ) (bytes : List ℕ) (offset : ℕ)
    → offset ≤ length bytes
    → length bytes < offset + fuel
    → (ps : List RtcpPacketSummary) × (compound_loop fuel bytes offset ≡ ok ps)
      × Chained (length bytes) offset ps
unfolding compound_loop
compound_loop-Chained zero bytes offset h enough = absurd (omega arith)
compound_loop-Chained (suc fuel) bytes offset h enough =
    elim (compound_step-StepOk bytes offset h) [
      | inl e ↦ ([], rw e, h)
      | inr (p, e, taken) ↦
          let (rest, run, chained) =
            compound_loop-Chained fuel bytes (offset + p.packet_size) taken.inside
              (omega (arith, taken.size)) in
          (p ∷ rest, rw (e, run), (taken.at_offset, taken.size, chained))
    ]

-- `ParseCompound` ends on every datagram, reads no byte outside it, and answers with packets that
-- follow one another from its start, each of the size that its header says, up to its end at most.
pub parse_compound-Chained :
    (bytes : List ℕ)
    → (ps : List RtcpPacketSummary) × (parse_compound bytes ≡ ok ps) × Chained (length bytes) 0 ps
unfolding parse_compound
parse_compound-Chained bytes = elim (Bool-cases (ltb (length bytes) 4)) [
  | inl short ↦ ([], rw short, omega arith)
  | inr long ↦
      let (ps, e, chained) =
        compound_loop-Chained (suc (length bytes)) bytes 0 (omega arith) (omega arith) in
      (ps, rw (long, e), chained)
]

-- A packet inside the datagram.
abbrev pub IsWithin : ℕ → RtcpPacketSummary → Type 0
IsWithin len p = (p.offset + p.packet_size ≤ len) × (4 ≤ p.packet_size)

Chained-le : (len start : ℕ) (ps : List RtcpPacketSummary) → Chained len start ps → start ≤ len
Chained-le len start [] c = c
Chained-le len start (p ∷ ps) c = omega (arith, Chained-le len (start + p.packet_size) ps c.2)

-- A loop whose rounds all answer answers.
for_each-ok {ℓ} :
    {A : Type ℓ} (f : RtcpPacketSummary → Read (List A)) (len start : ℕ)
    (ps : List RtcpPacketSummary)
    → ((p : RtcpPacketSummary) → IsWithin len p → is_ok (f p) ≡ true)
    → Chained len start ps
    → is_ok (for_each f ps) ≡ true
unfolding for_each
for_each-ok f len start [] each c = refl
for_each-ok f len start (p ∷ ps) each c = ground (
  arith,
  each p (omega (arith, c.0, c.1, Chained-le len (start + p.packet_size) ps c.2)),
  for_each-ok f len (start + p.packet_size) ps each c.2,
)

-- So does a parser that loops over the packets of a datagram.
pub parse-ok {ℓ} :
    {A : Type ℓ} (f : RtcpPacketSummary → Read (List A)) (bytes : List ℕ)
    → ((p : RtcpPacketSummary) → IsWithin (length bytes) p → is_ok (f p) ≡ true)
    → is_ok (parse_compound bytes >>= for_each f) ≡ true
parse-ok f bytes each =
    let (ps, e, chained) = parse_compound-Chained bytes in
    rw e (for_each-ok f (length bytes) 0 ps each chained)
