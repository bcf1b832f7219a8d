-- ===== src/Client/NackFeedback/Reading.antt =====
-- The SFU's loop over the blocks of a NACK reads the blocks that the client writes.
use meeting_system.Prelude.{
  ℕ, zero, suc, ◌+◌, ◌*◌, ◌/◌, ◌%◌, ◌^◌, ◌≤◌, ◌<◌, ◌≡◌, refl, sym, ap, ◌∙◌, List, [], ◌∷◌, ◌++◌,
  length, length-append, arith,
}
use meeting_system.Prelude.Bytes.{ok, byte_at-append, append_assoc, put16, be16, be32, read_u16}
use meeting_system.Sfu.Rtp.Rtcp.Feedback.{blp_sequences, nack_blocks}
use meeting_system.Client.NackFeedback.{block_bytes}
use meeting_system.Client.NackFeedback.Blocks.{expand, AreBlocks}

pub put16_value : (v : ℕ) → v < 2 ^ 16 → be16 (v / 256 % 256) (v % 256) ≡ v
put16_value v h = omega arith

pub put32_read :
    (v : ℕ) → v < 2 ^ 32 → be32 (v / 16777216 % 256) (v / 65536 % 256) (v / 256 % 256) (v % 256) ≡ v
put32_read v h = omega arith

pub length-block_bytes : (blocks : List (ℕ × ℕ)) → length (block_bytes blocks) ≡ length blocks * 4
unfolding block_bytes
length-block_bytes [] = refl
length-block_bytes ((pid, blp) ∷ blocks) = omega (arith, length-block_bytes blocks)

read_u16-append :
    (pre rest : List ℕ) (a b i : ℕ)
    → i ≡ length pre
    → read_u16 (pre ++ (a ∷ b ∷ rest)) i ≡ ok (be16 a b)
read_u16-append pre rest a b i e = ground (
  arith,
  e,
  byte_at-append pre (a ∷ b ∷ rest) 0,
  byte_at-append pre (a ∷ b ∷ rest) 1,
  length-append pre (a ∷ b ∷ rest),
)

nack_blocks_step :
    (fuel : ℕ) (bytes : List ℕ) (end start pid blp : ℕ) (rest : List ℕ)
    → start + 4 ≤ end
    → read_u16 bytes start ≡ ok pid
    → read_u16 bytes (start + 2) ≡ ok blp
    → nack_blocks fuel bytes end (start + 4) ≡ ok rest
    → nack_blocks (suc fuel) bytes end start ≡ ok (pid ∷ blp_sequences 16 0 pid blp ++ rest)
unfolding nack_blocks
nack_blocks_step fuel bytes end start pid blp rest h first second later =
    ground (arith, h, first, second, later)

-- The parser's loop over the blocks that were written reads them.
pub nack_blocks-block_bytes :
    (fuel : ℕ) (bytes pre : List ℕ) (blocks : List (ℕ × ℕ)) (start : ℕ)
    → bytes ≡ pre ++ block_bytes blocks
    → start ≡ length pre
    → length blocks < fuel
    → AreBlocks blocks
    → nack_blocks fuel bytes (length bytes) start ≡ ok (expand blocks)
unfolding nack_blocks block_bytes expand
nack_blocks-block_bytes zero bytes pre blocks start e es h b = absurd (omega arith)
nack_blocks-block_bytes (suc fuel) bytes pre [] start e es h b =
    let len = ap length e ∙ length-append pre [] in ground (arith, len, es)
nack_blocks-block_bytes (suc fuel) bytes pre ((pid, blp) ∷ blocks) start e es h b =
    let rest = block_bytes blocks in
    let pre2 : List ℕ = pre ++ put16 pid in
    let pre4 : List ℕ = pre2 ++ put16 blp in
    let e2 = e ∙ sym (append_assoc pre (put16 pid) (put16 blp ++ rest)) in
    let e4 = e2 ∙ sym (append_assoc pre2 (put16 blp) rest) in
    let len2 = length-append pre (put16 pid) in
    let len4 = length-append pre2 (put16 blp) in
    let s2 : start + 2 ≡ length pre2 = omega (arith, es, len2) in
    let s4 : start + 4 ≡ length pre4 = omega (arith, es, len2, len4) in
    let len = ap length e4 ∙ length-append pre4 rest in
    let first : read_u16 bytes start ≡ ok pid =
      ap (λ bs. read_u16 bs start) e
      ∙ read_u16-append pre (put16 blp ++ rest) (pid / 256 % 256) (pid % 256) start es
      ∙ ap ok (put16_value pid b.0) in
    let second : read_u16 bytes (start + 2) ≡ ok blp =
      ap (λ bs. read_u16 bs (start + 2)) e2
      ∙ read_u16-append pre2 rest (blp / 256 % 256) (blp % 256) (start + 2) s2
      ∙ ap ok (put16_value blp b.1) in
    let later =
      nack_blocks-block_bytes fuel bytes pre4 blocks (start + 4) e4 s4 (omega arith) b.2 in
    nack_blocks_step fuel bytes (length bytes) start pid blp (expand blocks)
      (omega (arith, s4, len)) first second later
