-- ===== src/Sfu/Bandwidth/Range.antt =====
-- The rate that BandwidthEstimator recommends is within its limits, and congestion does not raise it.
use meeting_system.Prelude.{
  ℕ, ◌≤◌, ◌≡◌, Bool, true, List, [], ◌∷◌, ◌||◌, ltb, ◌==◌, if◌then◌else◌, min, arith,
}
use meeting_system.Sfu.Bandwidth.{BandwidthEstimator, Sample, clamp, init, choose, update, updates}

unfoldable pub IsEstimator : BandwidthEstimator → Type 0
IsEstimator e =
    (1 ≤ e.min_bitrate_kbps)
    × (e.min_bitrate_kbps ≤ e.recommended_bitrate_kbps)
    × (e.recommended_bitrate_kbps ≤ e.max_bitrate_kbps)

clamp_range :
    (e : BandwidthEstimator) (bitrate : ℕ)
    → e.min_bitrate_kbps ≤ e.max_bitrate_kbps
    → (e.min_bitrate_kbps ≤ clamp e bitrate) × (clamp e bitrate ≤ e.max_bitrate_kbps)
unfolding clamp
clamp_range e bitrate h = (ground arith, ground arith)

module _ {Loss : Type 0} (loss_above loss_below : Loss → ℕ → Bool) (scale : ℕ → ℕ → ℕ) where
  update-IsEstimator :
      (e : BandwidthEstimator) (s : Sample Loss)
      → IsEstimator e
      → IsEstimator (update loss_above loss_below scale e s)
  unfolding update IsEstimator
  update-IsEstimator e s h = let kept = clamp_range e _ (omega (arith, h)) in (h.0, kept.0, kept.1)

  updates-IsEstimator :
      (e : BandwidthEstimator) (ss : List (Sample Loss))
      → IsEstimator e
      → IsEstimator (updates loss_above loss_below scale e ss)
  unfolding updates
  updates-IsEstimator e [] h = h
  updates-IsEstimator e (s ∷ ss) h =
      updates-IsEstimator (update loss_above loss_below scale e s) ss (update-IsEstimator e s h)

  -- Whatever is sampled after the construction: the recommended rate is not 0 and within the limits.
  pub updates-init-IsEstimator :
      (low high initial : ℕ) (ss : List (Sample Loss))
      → IsEstimator (updates loss_above loss_below scale (init low high initial) ss)
  unfolding init IsEstimator
  updates-init-IsEstimator low high initial ss =
      updates-IsEstimator (init low high initial) ss (omega arith, omega arith, omega arith)

  -- With a product that factors below 1 do not raise: after a sample with a loss above five percent, a
  -- round trip above 300 ms or a jitter above 120 ms the recommended rate is not above the one before.
  pub update-le :
      (e : BandwidthEstimator) (s : Sample Loss)
      → ((bitrate percent : ℕ) → percent ≤ 100 → scale bitrate percent ≤ bitrate)
      → IsEstimator e
      → (loss_above s.packet_loss 5 || (ltb 300 s.rtt_ms || ltb 120 s.jitter_ms)) ≡ true
      → (update loss_above loss_below scale e s).recommended_bitrate_kbps
        ≤ e.recommended_bitrate_kbps
  unfolding update choose IsEstimator clamp
  update-le e s shrinks h congested =
      let measured =
        if s.measured_bitrate_kbps == 0
        then e.recommended_bitrate_kbps
        else clamp e s.measured_bitrate_kbps in
      let candidate = min e.recommended_bitrate_kbps measured in
      ground (
        arith,
        h,
        congested,
        shrinks candidate 50 (omega arith),
        shrinks candidate 70 (omega arith),
        shrinks candidate 85 (omega arith),
      )
