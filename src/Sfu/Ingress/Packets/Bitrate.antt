-- ===== src/Sfu/Ingress/Packets/Bitrate.antt =====
-- The bit rate of a REMB packet of the SFU: rounded up, by little.
use native.Mathlib.Nat.{pow-succ', mod-eq_of_lt, mul-le-mul_right}
use meeting_system.Prelude.{
  ℕ, zero, suc, ◌+◌, ◌-◌, ◌*◌, ◌/◌, ◌%◌, ◌^◌, ◌≤◌, ◌<◌, ◌≡◌, ap, ◌∙◌, ltb, arith, inl, inr,
  Bool-cases,
}
use meeting_system.Sfu.Ingress.Packets.{encode_loop, encode_remb_bitrate}

-- What the pair stands for.
abbrev pub bitrate_of : ℕ × ℕ → ℕ
bitrate_of (exp, mantissa) = mantissa * 2 ^ exp

scaled : (m h p : ℕ) → m ≤ h * 2 → h * 2 ≤ m + 1 → (m * p ≤ h * (2 * p)) × (h * (2 * p) ≤ m * p + p)
scaled m h p low high =
    let below : m * p ≤ h * 2 * p = mul-le-mul_right p low in
    let above : h * 2 * p ≤ (m + 1) * p = mul-le-mul_right p high in
    (grind (arith, below), grind (arith, above))

add-one : (n : ℕ) → n + 1 ≡ suc n
add-one n = omega arith

-- One round: `q` is the unit after it, `r` what comes out in the end, `u` the last unit.
one_round :
    (m h p q r u : ℕ)
    → m ≤ h * 2
    → h * 2 ≤ m + 1
    → q ≡ 2 * p
    → h * q ≤ r
    → r + q ≤ h * q + u
    → (m * p ≤ r) × (r + p ≤ m * p + u)
one_round m h p q r u low high twice below above =
    let scale = scaled m h p low high in
    let same : h * q ≡ h * (2 * p) = ap (λ (t : ℕ). h * t) twice in
    (omega (arith, scale, same), omega (arith, scale, same))

-- `k` halvings are enough for a number of at most `262143 * 2 ^ k`.
encode_loop_bounds :
    (left exp k m : ℕ)
    → k < left
    → m < 2 ^ 32 - 1
    → m ≤ 262143 * 2 ^ k
    → ((encode_loop left exp m).1 < 2 ^ 18)
      × ((encode_loop left exp m).0 ≤ exp + k)
      × (m * 2 ^ exp ≤ bitrate_of (encode_loop left exp m))
      × (bitrate_of (encode_loop left exp m) + 2 ^ exp
          ≤ m * 2 ^ exp + 2 ^ (encode_loop left exp m).0)
unfolding encode_loop
encode_loop_bounds zero exp k m h wide small = absurd (omega arith)
encode_loop_bounds (suc left) exp zero m h wide small = ground arith
encode_loop_bounds (suc left) exp (suc k) m h wide small = elim (Bool-cases (ltb 0x3FFFF m)) [
  | inr fits ↦ rw fits (ground arith)
  | inl large ↦
      let halved : (m + 1) % 2 ^ 32 / 2 ≡ (m + 1) / 2 = omega arith in
      let later =
        encode_loop_bounds left (exp + 1) k ((m + 1) / 2) (omega arith) (omega arith)
          (omega (arith, pow-succ' 2 k)) in
      let unit : 2 ^ (exp + 1) ≡ 2 * 2 ^ exp =
        ap (λ (t : ℕ). 2 ^ t) (add-one exp) ∙ pow-succ' 2 exp in
      let r = bitrate_of (encode_loop left (exp + 1) ((m + 1) / 2)) in
      let u = 2 ^ (encode_loop left (exp + 1) ((m + 1) / 2)).0 in
      let round =
        one_round m ((m + 1) / 2) (2 ^ exp) (2 ^ (exp + 1)) r u (omega arith) (omega arith) unit
          later.2 later.3 in
      rw large (rw halved (later.0, omega (arith, later.1), round.0, round.1))
]

-- For every rate that the SFU can be asked to announce: the mantissa and the exponent fit their
-- fields, and what they stand for is not below the rate and less than one unit of the last place
-- above it.
pub encode_remb_bitrate_bounds :
    (bitrate : ℕ)
    → bitrate < 2 ^ 32 - 1
    → ((encode_remb_bitrate bitrate).1 < 2 ^ 18)
      × ((encode_remb_bitrate bitrate).0 ≤ 15)
      × (bitrate ≤ bitrate_of (encode_remb_bitrate bitrate))
      × (bitrate_of (encode_remb_bitrate bitrate) < bitrate + 2 ^ (encode_remb_bitrate bitrate).0)
unfolding encode_remb_bitrate
encode_remb_bitrate_bounds bitrate h =
    let bounds = encode_loop_bounds 63 0 15 bitrate (omega arith) h (omega arith) in
    rw (mod-eq_of_lt bounds.0) (omega (arith, bounds))
