-- ===== src/Client/NackFeedback/Marks.antt =====
-- The bits of a NACK block as a set of sequence numbers, and the parser's loop over them.
use meeting_system.Prelude.{
  ℕ, zero, suc, ◌+◌, ◌-◌, ◌/◌, ◌%◌, ◌^◌, ◌≤◌, ◌<◌, ◌≡◌, refl, inl, inr, Bool, false, List, [], ◌∷◌,
  ◌++◌, ◌||◌, not, ◌==◌, arith, Bool-cases,
}
use meeting_system.Sfu.Rtp.Rtcp.Feedback.{blp_sequences}
use meeting_system.Client.NackFeedback.{set_bit}
use meeting_system.Client.NackFeedback.Bits.{set_bit_lem}

abbrev pub mem : ℕ → List ℕ → Bool
mem x [] = false
mem x (y ∷ ys) = x == y || mem x ys

-- Numbers above `low`, each above the one before, and at most `high`.
abbrev pub AreBetween : ℕ → ℕ → List ℕ → Type 0
AreBetween low high [] = Unit {0}
AreBetween low high (x ∷ xs) = (low < x) × (x ≤ high) × AreBetween x high xs

pub AreBetween-le :
    (low low' high : ℕ) (xs : List ℕ)
    → low' ≤ low
    → AreBetween low high xs
    → AreBetween low' high xs
AreBetween-le low low' high [] h b = tt
AreBetween-le low low' high (x ∷ xs) h b = (omega (arith, b.0), b.1, b.2)

mem-AreBetween :
    (low high x : ℕ) (xs : List ℕ) → x ≤ low → AreBetween low high xs → mem x xs ≡ false
mem-AreBetween low high x [] h b = refl
mem-AreBetween low high x (y ∷ ys) h b =
    ground (arith, b, mem-AreBetween y high x ys (omega (arith, b.0)) b.2)

-- The bits from `bit` on are set for the numbers of the list.
unfoldable pub Marks : ℕ → ℕ → ℕ → List ℕ → Type 0
Marks pid blp bit xs = (i : ℕ) → bit ≤ i → (blp / 2 ^ i % 2 == 0) ≡ not (mem (pid + i + 1) xs)

Marks-tail :
    (pid blp bit x : ℕ) (xs : List ℕ)
    → x ≡ pid + bit + 1
    → Marks pid blp bit (x ∷ xs)
    → Marks pid blp (bit + 1) xs
unfolding Marks
Marks-tail pid blp bit x xs e m i k = ground (arith, e, k, m i (omega arith))

-- The parser's loop over the bits finds these numbers.
pub blp_sequences-Marks :
    (left bit pid blp high : ℕ) (xs : List ℕ)
    → high ≤ pid + bit + left
    → high < 65536
    → AreBetween (pid + bit) high xs
    → Marks pid blp bit xs
    → blp_sequences left bit pid blp ≡ xs
unfolding blp_sequences Marks
blp_sequences-Marks zero bit pid blp high [] le h b m = refl
blp_sequences-Marks zero bit pid blp high (x ∷ xs) le h b m = absurd (omega (arith, b.0, b.1))
blp_sequences-Marks (suc left) bit pid blp high [] le h b m =
    let later =
      blp_sequences-Marks left (bit + 1) pid blp high [] (omega arith) h tt
        (λ i k. m i (omega arith)) in
    ground (arith, m bit (omega arith), later)
blp_sequences-Marks (suc left) bit pid blp high (x ∷ xs) le h b m =
    elim (Bool-cases (x == pid + bit + 1)) [
      | inl here ↦
          let e : x ≡ pid + bit + 1 = ground (arith, here) in
          let later =
            blp_sequences-Marks left (bit + 1) pid blp high xs (omega arith) h
              (AreBetween-le x (pid + (bit + 1)) high xs (omega (arith, e)) b.2)
              (Marks-tail pid blp bit x xs e m) in
          ground (arith, e, b, m bit (omega arith), later)
      | inr there ↦
          let above : pid + bit + 1 < x = ground (arith, there, b) in
          let later =
            blp_sequences-Marks left (bit + 1) pid blp high (x ∷ xs) (omega arith) h
              (omega (arith, above), b.1, b.2) (λ i k. m i (omega arith)) in
          ground (
            arith,
            above,
            m bit (omega arith),
            later,
            mem-AreBetween x high (pid + bit + 1) xs (omega (arith, above)) b.2,
          )
    ]

pub AreBetween-high :
    (low high high' : ℕ) (xs : List ℕ)
    → high ≤ high'
    → AreBetween low high xs
    → AreBetween low high' xs
AreBetween-high low high high' [] h b = tt
AreBetween-high low high high' (x ∷ xs) h b =
    (b.0, omega (arith, b.1), AreBetween-high x high high' xs h b.2)

pub AreBetween-snoc :
    (low last s : ℕ) (xs : List ℕ)
    → low < s
    → last < s
    → AreBetween low last xs
    → AreBetween low s (xs ++ (s ∷ []))
AreBetween-snoc low last s [] l h b = (l, omega arith, tt)
AreBetween-snoc low last s (x ∷ xs) l h b =
    (b.0, omega (arith, b.1), AreBetween-snoc x last s xs (omega (arith, b.1)) h b.2)

mem-snoc : (x s : ℕ) (xs : List ℕ) → mem x (xs ++ (s ∷ [])) ≡ (x == s || mem x xs)
mem-snoc x s [] = refl
mem-snoc x s (y ∷ ys) = ground (arith, mem-snoc x s ys)

pub Marks-snoc :
    (pid blp s : ℕ) (xs : List ℕ)
    → pid < s
    → Marks pid blp 0 xs
    → Marks pid (set_bit blp (s - pid - 1)) 0 (xs ++ (s ∷ []))
unfolding Marks
Marks-snoc pid blp s xs h m i k =
    ground (arith, m i (omega arith), set_bit_lem (s - pid - 1) i blp, mem-snoc (pid + i + 1) s xs)
