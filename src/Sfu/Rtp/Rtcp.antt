-- ===== src/Sfu/Rtp/Rtcp.antt =====
-- meeting-server/sfu/rtp/RtcpHandler: the packets of a compound RTCP datagram.
pub mod Reports
pub mod Feedback
pub mod Safety
pub mod Content
use meeting_system.Prelude.{
  ℕ, zero, suc, ◌+◌, ◌*◌, ◌/◌, ◌%◌, Bool, true, false, List, [], ◌∷◌, ◌++◌, Option, none, some, not,
  ◌&&◌, ◌||◌, ltb, leb, ◌==◌, if◌then◌else◌, length,
}
use meeting_system.Prelude.Bytes.{Read, ok, fault, ◌>>=◌, read_u8, read_u16, read_u32}

pub data RtcpType : Type 0 where
  sr rr rtpfb psfb unknown : RtcpType

pub record RtcpPacketSummary : Type 0 where
  pub type : RtcpType
  pub fmt : ℕ
  pub length_words : ℕ
  pub sender_ssrc : ℕ
  pub offset : ℕ
  pub packet_size : ℕ

abbrev pub to_rtcp_type : ℕ → RtcpType
to_rtcp_type pt =
    if pt == 200
    then sr
    else if pt == 201
    then rr
    else if pt == 205
    then rtpfb
    else if pt == 206
    then psfb
    else unknown

-- The sender's SSRC, if the packet has room for it.
abbrev pub read_sender : List ℕ → ℕ → ℕ → Read ℕ
read_sender bytes offset packet_size =
    if leb 8 packet_size then read_u32 bytes (offset + 4) else ok 0

-- One round of the loop of `ParseCompound`: `none` is a `break`.
unfoldable pub compound_step : List ℕ → ℕ → Read (Option RtcpPacketSummary)
compound_step bytes offset = if not (leb (offset + 4) (length bytes)) then ok none else do
  vpc ← read_u8 bytes offset
  if not (vpc / 64 % 4 == 2) then ok none else do
    pt ← read_u8 bytes (offset + 1)
    words ← read_u16 bytes (offset + 2)
    let size = (words + 1) * 4
    if ltb size 4 || ltb (length bytes) (offset + size) then ok none else do
      ssrc ← read_sender bytes offset size
      ok (
          some (record {
            type = to_rtcp_type pt;
            fmt = vpc % 32;
            length_words = words;
            sender_ssrc = ssrc;
            offset = offset;
            packet_size = size;
          }))

-- The loop, on fuel; `fault` also stands for fuel that ran out.
unfoldable pub compound_loop : ℕ → List ℕ → ℕ → Read (List RtcpPacketSummary)
compound_loop zero bytes offset = fault
compound_loop (suc fuel) bytes offset = compound_step bytes offset >>= λ step. elim step [
  | none ↦ ok []
  | some p ↦ compound_loop fuel bytes (offset + p.packet_size) >>= λ rest. ok (p ∷ rest)
]

-- Each round takes four bytes at least, so one round for each byte and a last one are enough.
unfoldable pub parse_compound : List ℕ → Read (List RtcpPacketSummary)
parse_compound bytes =
    let packets = compound_loop (suc (length bytes)) bytes 0 in
    if ltb (length bytes) 4 then ok [] else packets

-- A loop over the packets in which each round appends to the result.
unfoldable pub for_each {ℓ} :
    {A : Type ℓ} → (RtcpPacketSummary → Read (List A)) → List RtcpPacketSummary → Read (List A)
for_each f [] = ok []
for_each f (p ∷ ps) = do xs ← f p; rest ← for_each f ps; ok (xs ++ rest)

abbrev pub is_rtpfb : RtcpType → Bool
is_rtpfb rtpfb = true
is_rtpfb _ = false

abbrev pub is_psfb : RtcpType → Bool
is_psfb psfb = true
is_psfb _ = false

abbrev pub is_sr : RtcpType → Bool
is_sr sr = true
is_sr _ = false

abbrev pub is_rr : RtcpType → Bool
is_rr rr = true
is_rr _ = false

unfoldable pub is_nack : RtcpPacketSummary → Bool
is_nack p = is_rtpfb p.type && p.fmt == 1

unfoldable pub is_pli : RtcpPacketSummary → Bool
is_pli p = is_psfb p.type && p.fmt == 1
