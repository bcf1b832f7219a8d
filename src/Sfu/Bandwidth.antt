-- ===== src/Sfu/Bandwidth.antt =====
-- meeting-server/sfu/bwe/BandwidthEstimator. The loss is a `float` and so are the factors; their
-- comparison and product are parameters, with the constants in percent.
pub mod Range
use meeting_system.Prelude.{
  ℕ, ◌+◌, ◌*◌, ◌/◌, Bool, List, [], ◌∷◌, ◌&&◌, ◌||◌, ltb, ◌==◌, if◌then◌else◌, min, max,
}

pub record BandwidthEstimator : Type 0 where
  pub min_bitrate_kbps : ℕ
  pub max_bitrate_kbps : ℕ
  pub recommended_bitrate_kbps : ℕ

pub record Sample (Loss : Type 0) : Type 0 where
  pub packet_loss : Loss
  pub rtt_ms : ℕ
  pub jitter_ms : ℕ
  pub measured_bitrate_kbps : ℕ

abbrev pub clamp_between : ℕ → ℕ → ℕ → ℕ
clamp_between low high bitrate = max low (min high bitrate)

unfoldable pub clamp : BandwidthEstimator → ℕ → ℕ
clamp e bitrate = clamp_between e.min_bitrate_kbps e.max_bitrate_kbps bitrate

unfoldable pub init : ℕ → ℕ → ℕ → BandwidthEstimator
init low high initial =
    let floor = max 1 low in
    record {
      min_bitrate_kbps = floor;
      max_bitrate_kbps = max floor high;
      recommended_bitrate_kbps = clamp_between floor (max floor high) initial;
    }

-- `loss_above l p` is `l > p / 100`, `loss_below l p` is `l < p / 100`, and `scale b p` is the product
-- of `b` and `p / 100`, truncated.
module _ {Loss : Type 0} (loss_above loss_below : Loss → ℕ → Bool) (scale : ℕ → ℕ → ℕ) where
  -- `Downscale` and `Upscale`, whose tests of the factor hold for the constants that are passed.
  unfoldable pub rescale : BandwidthEstimator → ℕ → ℕ → ℕ
  unfolding clamp
  rescale e bitrate percent = clamp e (scale bitrate percent)

  unfoldable pub choose : BandwidthEstimator → Sample Loss → (candidate measured : ℕ) → ℕ
  unfolding rescale
  choose e s candidate measured =
      if loss_above s.packet_loss 30 || ltb 800 s.rtt_ms
      then rescale e candidate 50
      else if loss_above s.packet_loss 15 || ltb 500 s.rtt_ms
      then rescale e candidate 70
      else if loss_above s.packet_loss 5 || (ltb 300 s.rtt_ms || ltb 120 s.jitter_ms)
      then rescale e candidate 85
      else if loss_below s.packet_loss 2 && (ltb s.rtt_ms 150 && ltb s.jitter_ms 60)
      then rescale e candidate 110
      else (candidate * 3 + measured) / 4

  -- The recommended rate after the sample, which is also the answer.
  unfoldable pub update : BandwidthEstimator → Sample Loss → BandwidthEstimator
  unfolding clamp choose
  update e s =
      let measured =
        if s.measured_bitrate_kbps == 0
        then e.recommended_bitrate_kbps
        else clamp e s.measured_bitrate_kbps in
      record e {
        recommended_bitrate_kbps =
            clamp e (choose e s (min e.recommended_bitrate_kbps measured) measured);
      }

  unfoldable pub updates : BandwidthEstimator → List (Sample Loss) → BandwidthEstimator
  updates e [] = e
  updates e (s ∷ ss) = updates (update e s) ss
