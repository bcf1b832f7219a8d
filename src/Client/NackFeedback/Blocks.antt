-- ===== src/Client/NackFeedback/Blocks.antt =====
-- The blocks of a NACK name the sequence numbers that they were built from.
use native.Mathlib.Nat.{zero-div}
use meeting_system.Prelude.{
  ℕ, zero, suc, ◌+◌, ◌-◌, ◌%◌, ◌^◌, ◌≤◌, ◌<◌, ◌≡◌, refl, sym, ap, inl, inr, List, [], ◌∷◌, ◌++◌,
  ltb, length, arith, Bool-cases,
}
use meeting_system.Sfu.Rtp.Rtcp.Feedback.{blp_sequences}
use meeting_system.Client.NackFeedback.{set_bit, gather, nack_block_list}
use meeting_system.Client.NackFeedback.Bits.{set_bit-lt}
use meeting_system.Client.NackFeedback.Marks.{
  AreBetween, AreBetween-le, AreBetween-snoc, Marks, Marks-snoc, blp_sequences-Marks,
}

-- What the inner loop answers: the numbers that it took and those that are left.
record Gathered (pid : ℕ) (taken seqs : List ℕ) (block : ℕ × List ℕ) : Type 0 where
  more : List ℕ
  last : ℕ
  splits : seqs ≡ more ++ block.1
  within : AreBetween pid last (taken ++ more)
  near : last ≤ pid + 16
  small : last < 65536
  marks : Marks pid block.0 0 (taken ++ more)
  left : AreBetween last 65535 block.1
  shorter : length block.1 ≤ length seqs

append_nil : (xs : List ℕ) → xs ++ [] ≡ xs
append_nil [] = refl
append_nil (x ∷ xs) = rw (append_nil xs)

append_one : (xs ys : List ℕ) (x : ℕ) → (xs ++ (x ∷ [])) ++ ys ≡ xs ++ (x ∷ ys)
append_one [] ys x = refl
append_one (z ∷ xs) ys x = rw (append_one xs ys x)

gather_done :
    (pid blp last : ℕ) (taken seqs : List ℕ)
    → last ≤ pid + 16
    → last < 65536
    → AreBetween pid last taken
    → Marks pid blp 0 taken
    → AreBetween last 65535 seqs
    → Gathered pid taken seqs (blp, seqs)
gather_done pid blp last taken seqs near small within marks left = record {
  more = [];
  last = last;
  splits = refl;
  within = rw (append_nil taken) within;
  near = near;
  small = small;
  marks = rw (append_nil taken) marks;
  left = left;
  shorter = omega arith;
}

gather_far :
    (pid blp s : ℕ) (ss : List ℕ)
    → pid < s
    → s < 65536
    → 16 < s - pid
    → gather pid blp (s ∷ ss) ≡ (blp, s ∷ ss)
unfolding gather
gather_far pid blp s ss h small far =
    let delta : (s + 65536 - pid) % 65536 ≡ s - pid = omega arith in ground (arith, delta, far)

gather_close :
    (pid blp s : ℕ) (ss : List ℕ)
    → pid < s
    → s < 65536
    → s - pid ≤ 16
    → gather pid blp (s ∷ ss) ≡ gather pid (set_bit blp (s - pid - 1)) ss
unfolding gather
gather_close pid blp s ss h small close =
    let delta : (s + 65536 - pid) % 65536 ≡ s - pid = omega arith in ground (arith, delta, close)

Gathered-cons :
    (pid s : ℕ) (taken ss : List ℕ) (block : ℕ × List ℕ)
    → Gathered pid (taken ++ (s ∷ [])) ss block
    → Gathered pid taken (s ∷ ss) block
Gathered-cons pid s taken ss block g = record {
  more = s ∷ g.more;
  last = g.last;
  splits = ap (λ xs. s ∷ xs) g.splits;
  within = rw (← append_one taken g.more s) g.within;
  near = g.near;
  small = g.small;
  marks = rw (← append_one taken g.more s) g.marks;
  left = g.left;
  shorter = omega (arith, g.shorter);
}

gather-Gathered :
    (pid blp last : ℕ) (taken seqs : List ℕ)
    → pid ≤ last
    → last ≤ pid + 16
    → last < 65536
    → AreBetween pid last taken
    → Marks pid blp 0 taken
    → AreBetween last 65535 seqs
    → Gathered pid taken seqs (gather pid blp seqs)
unfolding gather
gather-Gathered pid blp last taken [] after near small within marks left =
    gather_done pid blp last taken [] near small within marks left
gather-Gathered pid blp last taken (s ∷ ss) after near small within marks left =
    let above : pid < s = omega (arith, left.0) in
    let below : s < 65536 = omega (arith, left.1) in
    elim (Bool-cases (ltb 16 (s - pid))) [
      | inl far ↦
          rw (gather_far pid blp s ss above below (ground (arith, far)))
            (gather_done pid blp last taken (s ∷ ss) near small within marks left)
      | inr close ↦ rw (gather_close pid blp s ss above below (ground (arith, close))) (
          Gathered-cons pid s taken ss (gather pid (set_bit blp (s - pid - 1)) ss) (
            gather-Gathered pid (set_bit blp (s - pid - 1)) s (taken ++ (s ∷ [])) ss
              (omega (arith, left.0)) (ground (arith, close)) below
              (AreBetween-snoc pid last s taken above left.0 within)
              (Marks-snoc pid blp s taken above marks) left.2))
    ]

-- The numbers that a list of blocks names, as the parser reads them.
unfoldable pub expand : List (ℕ × ℕ) → List ℕ
expand [] = []
expand ((pid, blp) ∷ blocks) = pid ∷ blp_sequences 16 0 pid blp ++ expand blocks

unmarked : (pid : ℕ) → Marks pid 0 0 []
unfolding Marks
unmarked pid i k = ground (arith, zero-div (2 ^ i))

-- Numbers of 16 bits, each above the one before.
abbrev pub AreIncreasing : List ℕ → Type 0
AreIncreasing [] = Unit {0}
AreIncreasing (x ∷ xs) = (x ≤ 65535) × AreBetween x 65535 xs

AreIncreasing-left : (low : ℕ) (xs : List ℕ) → AreBetween low 65535 xs → AreIncreasing xs
AreIncreasing-left low [] b = tt
AreIncreasing-left low (x ∷ xs) b = (b.1, b.2)

gathered :
    (pid : ℕ) (seqs : List ℕ)
    → AreIncreasing (pid ∷ seqs)
    → Gathered pid [] seqs (gather pid 0 seqs)
gathered pid seqs b =
    gather-Gathered pid 0 pid [] seqs (omega arith) (omega arith) (omega (arith, b.0)) tt
      (unmarked pid) b.1

-- On increasing numbers the blocks name these numbers again.
pub expand-nack_block_list :
    (fuel : ℕ) (seqs : List ℕ)
    → length seqs ≤ fuel
    → AreIncreasing seqs
    → expand (nack_block_list fuel seqs) ≡ seqs
unfolding expand nack_block_list
expand-nack_block_list zero [] h b = refl
expand-nack_block_list zero (s ∷ ss) h b = absurd (omega arith)
expand-nack_block_list (suc fuel) [] h b = refl
expand-nack_block_list (suc fuel) (pid ∷ seqs) h b =
    let g = gathered pid seqs b in
    let block = gather pid 0 seqs in
    let bits =
      blp_sequences-Marks 16 0 pid block.0 g.last g.more (omega (arith, g.near)) g.small
        (AreBetween-le pid (pid + 0) g.last g.more (omega arith) g.within) g.marks in
    let rest =
      expand-nack_block_list fuel block.1 (omega (arith, g.shorter, h))
        (AreIncreasing-left g.last block.1 g.left) in
    ap (λ xs. pid ∷ xs) (rw (bits, rest) (sym g.splits))

-- Blocks of 16-bit numbers.
abbrev pub AreBlocks : List (ℕ × ℕ) → Type 0
AreBlocks [] = Unit {0}
AreBlocks ((pid, blp) ∷ blocks) = (pid < 65536) × (blp < 65536) × AreBlocks blocks

gather-lt : (pid blp : ℕ) (seqs : List ℕ) → blp < 2 ^ 16 → (gather pid blp seqs).0 < 2 ^ 16
unfolding gather
gather-lt pid blp [] h = h
gather-lt pid blp (s ∷ ss) h =
    let delta = (s + 65536 - pid) % 65536 in
    ground (
      arith,
      h,
      gather-lt pid blp ss h,
      λ (near : delta - 1 < 16).
          gather-lt pid (set_bit blp (delta - 1)) ss (set_bit-lt (delta - 1) 16 blp near h),
    )

pub nack_block_list-AreBlocks :
    (fuel : ℕ) (seqs : List ℕ) → AreIncreasing seqs → AreBlocks (nack_block_list fuel seqs)
unfolding nack_block_list
nack_block_list-AreBlocks zero seqs b = tt
nack_block_list-AreBlocks (suc fuel) [] b = tt
nack_block_list-AreBlocks (suc fuel) (pid ∷ seqs) b =
    let g = gathered pid seqs b in
    let block = gather pid 0 seqs in
    (
      omega (arith, b.0),
      omega (arith, gather-lt pid 0 seqs (omega arith)),
      nack_block_list-AreBlocks fuel block.1 (AreIncreasing-left g.last block.1 g.left),
    )

pub length-nack_block_list : (fuel : ℕ) (seqs : List ℕ) → length (nack_block_list fuel seqs) ≤ fuel
unfolding nack_block_list
length-nack_block_list zero seqs = omega arith
length-nack_block_list (suc fuel) [] = omega arith
length-nack_block_list (suc fuel) (pid ∷ seqs) =
    omega (arith, length-nack_block_list fuel (gather pid 0 seqs).1)
