-- ===== src/Client/VideoBwePolicy/Recovery.antt =====
-- After enough reports without loss VideoBwePolicy is back at the configured quality.
use meeting_system.Prelude.{ℕ, ◌+◌, ◌*◌, ◌≤◌, ◌<◌, ◌≡◌, min, List, [], ◌∷◌}
use meeting_system.Client.VideoBwePolicy.{VideoBwePolicySample, VideoBwePolicy, on_receiver_report}

-- The state after the reports.
unfoldable pub run_reports :
    (ℕ → ℕ → ℕ) → VideoBwePolicy → List VideoBwePolicySample → VideoBwePolicy
run_reports round_ratio p [] = p
run_reports round_ratio p (s ∷ ss) =
    run_reports round_ratio (on_receiver_report round_ratio p s).1 ss

-- Reports of a loss below two percent, each five seconds after the one before at least.
unfoldable pub AreClean : ℕ → List VideoBwePolicySample → Type 0
AreClean last [] = Unit {0}
AreClean last (s ∷ ss) =
    (s.fraction_lost * 100 < 2 * 256) × (last + 5000 ≤ s.now_ms) × AreClean s.now_ms ss

-- The rate is at least the configured one or has grown by 10,000 bits per second.
unfoldable Grows : VideoBwePolicy → VideoBwePolicy → ℕ → Type 0
Grows p q now =
    (q.config ≡ p.config)
    × (q.last_restore_at_ms ≡ now)
    × (min p.config.bitrate_bps (p.policy_bitrate_bps + 10000) ≤ q.policy_bitrate_bps)
