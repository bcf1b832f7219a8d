-- ===== src/Sfu/Rtp/Router/Rewrite.antt =====
-- RtpRouter::RewriteSsrc changes the SSRC of a packet and nothing else.
use meeting_system.Prelude.{
  ℕ, ◌+◌, ◌-◌, ◌*◌, ◌/◌, ◌%◌, ◌^◌, ◌≤◌, ◌<◌, ◌≡◌, refl, ◌⊎◌, Bool, true, false, List, arith, leb,
  ◌==◌, if◌then◌else◌, inl, inr, length, set, length-set, get_or-set, Bool-cases,
}
use meeting_system.Prelude.Bytes.{Read, ok, reject, fault, byte_at, be32, Read-cases}
use meeting_system.Sfu.Rtp.Parser.{ParsedRtpPacket, parse, skip_extension, strip_padding}
use meeting_system.Sfu.Rtp.Parser.Bounds.{skip_extension_bounds}
use meeting_system.Sfu.Rtp.Router.{rewrite_ssrc}

pub length-rewrite_ssrc :
    (ssrc : ℕ) (packet : List ℕ) → length (rewrite_ssrc ssrc packet) ≡ length packet
unfolding rewrite_ssrc
length-rewrite_ssrc ssrc packet = ground (
  arith,
  length-set packet 8 a,
  length-set (set packet 8 a) 9 b,
  length-set (set (set packet 8 a) 9 b) 10 c,
  length-set (set (set (set packet 8 a) 9 b) 10 c) 11 (ssrc % 256),
)
  where
    a : ℕ
    a = ssrc / 16777216 % 256

    b : ℕ
    b = ssrc / 65536 % 256

    c : ℕ
    c = ssrc / 256 % 256

-- Byte `i` of a rewritten packet.
byte_at_rewritten : ℕ → List ℕ → ℕ → ℕ
byte_at_rewritten ssrc packet i =
    if i == 8
    then ssrc / 16777216 % 256
    else if i == 9
    then ssrc / 65536 % 256
    else if i == 10
    then ssrc / 256 % 256
    else if i == 11
    then ssrc % 256
    else byte_at packet i

rewrite_ssrc-byte_at :
    (ssrc : ℕ) (packet : List ℕ) (i : ℕ)
    → 12 ≤ length packet
    → byte_at (rewrite_ssrc ssrc packet) i ≡ byte_at_rewritten ssrc packet i
unfolding rewrite_ssrc byte_at_rewritten
rewrite_ssrc-byte_at ssrc packet i h = ground (
  arith,
  length-set packet 8 a,
  length-set (set packet 8 a) 9 b,
  length-set (set (set packet 8 a) 9 b) 10 c,
  get_or-set packet 8 i a 0,
  get_or-set (set packet 8 a) 9 i b 0,
  get_or-set (set (set packet 8 a) 9 b) 10 i c 0,
  get_or-set (set (set (set packet 8 a) 9 b) 10 c) 11 i (ssrc % 256) 0,
)
  where
    a : ℕ
    a = ssrc / 16777216 % 256

    b : ℕ
    b = ssrc / 65536 % 256

    c : ℕ
    c = ssrc / 256 % 256

-- Every byte but the four of the SSRC is the packet's.
pub byte_at-rewrite_ssrc :
    (ssrc : ℕ) (packet : List ℕ) (i : ℕ)
    → (i < 8) ⊎ (11 < i)
    → byte_at (rewrite_ssrc ssrc packet) i ≡ byte_at packet i
unfolding byte_at_rewritten
byte_at-rewrite_ssrc ssrc packet i h = elim (Bool-cases (leb 12 (length packet))) [
  | inl long ↦ ground (arith, long, rewrite_ssrc-byte_at ssrc packet i)
  | inr short ↦ unfold rewrite_ssrc in ground (arith, short)
]

-- The four bytes of the SSRC, together.
pub be32-rewrite_ssrc :
    (ssrc : ℕ) (packet : List ℕ)
    → 12 ≤ length packet
    → ssrc < 2 ^ 32
    → be32
        (byte_at (rewrite_ssrc ssrc packet) 8)
        (byte_at (rewrite_ssrc ssrc packet) 9)
        (byte_at (rewrite_ssrc ssrc packet) 10)
        (byte_at (rewrite_ssrc ssrc packet) 11)
      ≡ ssrc
unfolding byte_at_rewritten
be32-rewrite_ssrc ssrc packet h k = omega (
  arith,
  rewrite_ssrc-byte_at ssrc packet 8 h,
  rewrite_ssrc-byte_at ssrc packet 9 h,
  rewrite_ssrc-byte_at ssrc packet 10 h,
  rewrite_ssrc-byte_at ssrc packet 11 h,
)

skip_extension-rewrite_ssrc :
    (ssrc : ℕ) (packet : List ℕ) (extension : Bool) (offset : ℕ)
    → 12 ≤ offset
    → skip_extension (rewrite_ssrc ssrc packet) extension offset
      ≡ skip_extension packet extension offset
unfolding skip_extension
skip_extension-rewrite_ssrc ssrc packet false offset h = refl
skip_extension-rewrite_ssrc ssrc packet true offset h = rw (
  length-rewrite_ssrc ssrc packet,
  byte_at-rewrite_ssrc ssrc packet (offset + 2) (inr (omega arith)),
  byte_at-rewrite_ssrc ssrc packet (offset + 2 + 1) (inr (omega arith)),
)

strip_padding-rewrite_ssrc :
    (ssrc : ℕ) (packet : List ℕ) (padding : Bool) (size : ℕ)
    → size + 12 ≤ length packet
    → strip_padding (rewrite_ssrc ssrc packet) padding size ≡ strip_padding packet padding size
unfolding strip_padding
strip_padding-rewrite_ssrc ssrc packet false size h = refl
strip_padding-rewrite_ssrc ssrc packet true size h =
    ground
      (arith, length-rewrite_ssrc ssrc packet, byte_at-rewrite_ssrc ssrc packet (length packet - 1))

-- A parsed packet with another SSRC.
abbrev pub with_ssrc : ℕ → Read ParsedRtpPacket → Read ParsedRtpPacket
with_ssrc ssrc (ok p) = ok (record p { header = record (p.header) { ssrc = ssrc } })
with_ssrc ssrc reject = reject
with_ssrc ssrc fault = fault

-- A rewritten packet parses as the packet did, with the new SSRC in place of its own: it is refused
-- exactly when the packet is.
pub parse-rewrite_ssrc :
    (ssrc : ℕ) (packet : List ℕ)
    → ssrc < 2 ^ 32
    → parse (rewrite_ssrc ssrc packet) ≡ with_ssrc ssrc (parse packet)
unfolding parse
parse-rewrite_ssrc ssrc packet h = elim (Read-cases (skip_extension packet extension start)) [
  | inl (offset, e) ↦ ground (
    arith,
    e,
    length-rewrite_ssrc ssrc packet,
    same_byte 0 (omega arith),
    same_byte 1 (omega arith),
    same_byte 2 (omega arith),
    same_byte 3 (omega arith),
    same_byte 4 (omega arith),
    same_byte 5 (omega arith),
    same_byte 6 (omega arith),
    same_byte 7 (omega arith),
    be32-rewrite_ssrc ssrc packet,
    skip_extension-rewrite_ssrc ssrc packet extension start (omega arith),
    skip_extension_bounds packet extension start {next = offset},
    strip_padding-rewrite_ssrc ssrc packet (byte_at packet 0 / 32 % 2 == 1)
        (length packet - offset),
  )
  | inr e ↦ ground (
    arith,
    e,
    length-rewrite_ssrc ssrc packet,
    same_byte 0 (omega arith),
    skip_extension-rewrite_ssrc ssrc packet extension start (omega arith),
  )
]
  where
    extension : Bool
    extension = byte_at packet 0 / 16 % 2 == 1

    start : ℕ
    start = 12 + byte_at packet 0 % 16 * 4

    same_byte : (i : ℕ) → i < 8 → byte_at (rewrite_ssrc ssrc packet) i ≡ byte_at packet i
    same_byte i k = byte_at-rewrite_ssrc ssrc packet i (inl k)
