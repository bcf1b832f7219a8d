-- ===== src/Client/NackFeedback/Bits.antt =====
-- The bits of a number, and setting one of them.
use native.Mathlib.Nat.{div-div-eq-div-mul}
use meeting_system.Prelude.{
  ℕ, zero, suc, ◌+◌, ◌*◌, ◌/◌, ◌%◌, ◌^◌, ◌<◌, ◌≡◌, sym, ap, ◌∙◌, ◌==◌, ◌&&◌, not, arith,
}
use meeting_system.Client.NackFeedback.{set_bit}

doubled : (j : ℕ) → 2 * 2 ^ j ≡ 2 ^ suc j
doubled j = grind arith

halve : (b j : ℕ) → b / 2 ^ suc j ≡ b / 2 / 2 ^ j
halve b j = sym (div-div-eq-div-mul b 2 (2 ^ j) ∙ ap (λ k. b / k) (doubled j))

-- Setting a bit above the lowest is setting one of the half.
set_bit-suc : (b i : ℕ) → set_bit b (suc i) ≡ set_bit (b / 2) i * 2 + b % 2
unfolding set_bit
set_bit-suc b i = ground (arith, halve b i)

-- The bits after one of them is set.
pub set_bit_lem :
    (i j b : ℕ) → (set_bit b i / 2 ^ j % 2 == 0) ≡ (not (i == j) && (b / 2 ^ j % 2 == 0))
unfolding set_bit
set_bit_lem zero zero b = ground arith
set_bit_lem zero (suc j) b = ground (arith, halve b j, halve (b + 1) j, halve (set_bit b 0) j)
set_bit_lem (suc i) zero b = ground (arith, set_bit-suc b i)
set_bit_lem (suc i) (suc j) b =
    ground (arith, set_bit_lem i j (b / 2), set_bit-suc b i, halve b j, halve (set_bit b (suc i)) j)

-- Setting a bit below the width keeps the number within the width.
pub set_bit-lt : (i w b : ℕ) → i < w → b < 2 ^ w → set_bit b i < 2 ^ w
unfolding set_bit
set_bit-lt i zero b h k = absurd (omega arith)
set_bit-lt zero (suc w) b h k = ground (arith, doubled w)
set_bit-lt (suc i) (suc w) b h k =
    let half : b / 2 < 2 ^ w = omega (arith, doubled w, k) in
    let later = set_bit-lt i w (b / 2) (omega arith) half in
    omega (arith, set_bit-suc b i, doubled w, later)
