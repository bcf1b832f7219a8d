-- ===== src/Client/NackFeedback.antt =====
-- plasma-hawking/src/av/session/VideoRtcpActionPipeline, buildNackFeedback and
-- sendNackFeedback: the generic NACK that the client sends about lost packets.
pub mod Bits
pub mod Marks
pub mod Blocks
pub mod Distinct
pub mod Reading
pub mod RoundTrip
use meeting_system.Prelude.{
  not, some, ℕ, zero, suc, ◌+◌, ◌-◌, ◌*◌, ◌/◌, ◌%◌, ◌^◌, Bool, true, false, List, [], ◌∷◌, ◌++◌,
  ◌||◌, ltb, leb, ◌==◌, if◌then◌else◌, length,
}
use meeting_system.Prelude.Int.{ℤ}
use meeting_system.Prelude.Assoc.{is_empty}
use meeting_system.Prelude.Bytes.{put16, put32}
use meeting_system.Client.RtcpActions.{send_found}

-- `std::sort`
unfoldable pub place : ℕ → List ℕ → List ℕ
place x [] = x ∷ []
place x (y ∷ ys) = let rest = place x ys in if leb x y then x ∷ y ∷ ys else y ∷ rest

unfoldable pub sort_sequences : List ℕ → List ℕ
sort_sequences [] = []
sort_sequences (x ∷ xs) = place x (sort_sequences xs)

-- `std::unique` with `erase`: the first of equal neighbours stays.
unfoldable pub drop_equal : ℕ → List ℕ → List ℕ
drop_equal x [] = []
drop_equal x (y ∷ ys) =
    let same = drop_equal x ys in let other = drop_equal y ys in if x == y then same else y ∷ other

unfoldable pub unique : List ℕ → List ℕ
unique [] = []
unique (x ∷ xs) = x ∷ drop_equal x xs

-- `|= 1 << i` on a number of 16 bits, for `i` below 16.
unfoldable pub set_bit : ℕ → ℕ → ℕ
set_bit b i = if b / 2 ^ i % 2 == 0 then b + 2 ^ i else b

-- The inner loop: the bits of a block, and the sequence numbers left.
unfoldable pub gather : ℕ → ℕ → List ℕ → ℕ × List ℕ
gather pid blp [] = (blp, [])
gather pid blp (s ∷ ss) =
    let delta = (s + 65536 - pid) % 65536 in
    let same = gather pid blp ss in
    let more = gather pid (set_bit blp (delta - 1)) ss in
    if delta == 0 then same else if ltb 16 delta then (blp, s ∷ ss) else more

-- The outer loop, on fuel: each round takes a number, so as much as there are numbers is enough.
unfoldable pub nack_block_list : ℕ → List ℕ → List (ℕ × ℕ)
nack_block_list zero seqs = []
nack_block_list (suc fuel) [] = []
nack_block_list (suc fuel) (pid ∷ seqs) =
    let block = gather pid 0 seqs in (pid, block.0) ∷ nack_block_list fuel block.1

unfoldable pub block_bytes : List (ℕ × ℕ) → List ℕ
block_bytes [] = []
block_bytes ((pid, blp) ∷ blocks) = put16 pid ++ (put16 blp ++ block_bytes blocks)

unfoldable pub write_nack : ℕ → ℕ → List (ℕ × ℕ) → List ℕ
write_nack sender_ssrc media_ssrc blocks =
    let packet_bytes = 12 + length blocks * 4 in
    if ltb 262140 packet_bytes
    then []
    else 0x81 ∷ 205 ∷ put16 ((packet_bytes / 4 - 1) % 65536)
      ++ (put32 sender_ssrc ++ (put32 media_ssrc ++ block_bytes blocks))

unfoldable pub build_nack_feedback : ℕ → ℕ → List ℕ → List ℕ
unfolding write_nack
build_nack_feedback sender_ssrc media_ssrc lost =
    let seqs = unique (sort_sequences lost) in
    if media_ssrc == 0 || is_empty lost
    then []
    else write_nack sender_ssrc media_ssrc (nack_block_list (length seqs) seqs)

-- The result, and whether an error is reported.
unfoldable pub send_nack_feedback : Bool → (List ℕ → ℤ) → ℕ → ℕ → List ℕ → Bool × Bool
unfolding build_nack_feedback
send_nack_feedback ready send sender_ssrc media_ssrc lost =
    let packet = build_nack_feedback sender_ssrc media_ssrc lost in
    if not ready || media_ssrc == 0
    then (false, false)
    else if is_empty packet
    then (false, false)
    else send_found send (some packet)
