-- ===== src/Client/VideoBwePolicy/Invariant.antt =====
-- The rates of VideoBwePolicy stay between the smallest one and the configured one, and what it has
-- published agrees with its state.
use meeting_system.Prelude.{
  ℕ, ◌≤◌, ◌<◌, ◌≡◌, refl, ◌⊎◌, Bool, true, false, not, ◌&&◌, ◌||◌, ltb, ◌==◌, if◌then◌else◌, min,
  max, arith,
}
use meeting_system.Client.VideoBwePolicy.{
  VideoBweDegradationLevel, normal, audio_only, VideoBwePolicyConfig, VideoBwePolicySample,
  VideoBwePolicyTarget, VideoBwePolicy, level_eq, bool_eq, normalize_config,
  reduce_by_thirty_percent, restore_by_ten_percent, effective_bitrate, new_target, publish_target,
  reset, initial, raise, publish_restored, suspend, hold, restore, degrade, degrade_severely, react,
  on_receiver_report, on_remb_target,
}

unfoldable pub HasRates : VideoBwePolicy → Type 0
HasRates p =
    (100000 ≤ p.config.bitrate_bps)
    × (p.config.bitrate_bps < 4294967296)
    × (100000 ≤ p.policy_bitrate_bps)
    × (p.policy_bitrate_bps ≤ p.config.bitrate_bps)
    × ((p.remb_limit_bps ≡ 0) ⊎ (100000 ≤ p.remb_limit_bps))

-- The video is suspended exactly at the level "audio only"; its rate is then 0, else the effective
-- one.
unfoldable pub IsPublished : VideoBwePolicy → Type 0
IsPublished p =
    (level_eq p.target.level audio_only ≡ p.target.video_suspended)
    × (p.target.bitrate_bps
        ≡ (if p.target.video_suspended then 0 else effective_bitrate p p.policy_bitrate_bps))

unfoldable pub IsPolicy : VideoBwePolicy → Type 0
IsPolicy p = HasRates p × IsPublished p

pub level_eq-lem : (l m : VideoBweDegradationLevel) → level_eq l m ≡ true → l ≡ m
level_eq-lem l m h = ground arith

bool_eq-lem : (a b : Bool) → bool_eq a b ≡ true → a ≡ b
bool_eq-lem a b h = ground arith

publish_target-IsPublished :
    (p : VideoBwePolicy) (t : VideoBwePolicyTarget)
    → level_eq t.level audio_only ≡ t.video_suspended
    → t.bitrate_bps ≡ (if t.video_suspended then 0 else effective_bitrate p p.policy_bitrate_bps)
    → IsPublished (publish_target p t)
unfolding publish_target IsPublished effective_bitrate
publish_target-IsPublished p t h k = ground (
  arith,
  level_eq-lem p.target.level t.level,
  bool_eq-lem p.target.video_suspended t.video_suspended,
)

publish_target-HasRates :
    (p : VideoBwePolicy) (t : VideoBwePolicyTarget) → HasRates p → HasRates (publish_target p t)
unfolding publish_target HasRates
publish_target-HasRates p t h = ground arith

publish_target-IsPolicy :
    (p : VideoBwePolicy) (t : VideoBwePolicyTarget)
    → HasRates p
    → level_eq t.level audio_only ≡ t.video_suspended
    → t.bitrate_bps ≡ (if t.video_suspended then 0 else effective_bitrate p p.policy_bitrate_bps)
    → IsPolicy (publish_target p t)
unfolding IsPolicy
publish_target-IsPolicy p t h k l =
    (publish_target-HasRates p t h, publish_target-IsPublished p t k l)

pub reset-IsPolicy :
    (config : VideoBwePolicyConfig) (now : ℕ)
    → config.baseline_bitrate_bps < 4294967296
    → IsPolicy (reset config now)
unfolding reset new_target HasRates initial normalize_config
reset-IsPolicy config now h =
    let c = normalize_config config in
    let p = initial c now in
    publish_target-IsPolicy p
      (new_target p normal c.width c.height c.frame_rate c.bitrate_bps false 0 false) (ground arith)
      refl refl

degrade-IsPolicy :
    (p : VideoBwePolicy) (jitter : ℕ) (turn : Bool) → IsPolicy p → IsPolicy (degrade p jitter turn)
unfolding degrade new_target HasRates IsPolicy reduce_by_thirty_percent
degrade-IsPolicy p jitter turn h =
    publish_target-IsPolicy
      (record p {
        policy_bitrate_bps =
            reduce_by_thirty_percent
              (if p.policy_bitrate_bps == 0 then p.config.bitrate_bps else p.policy_bitrate_bps);
      })
      _ (ground arith) refl refl

degrade_severely-IsPolicy :
    (round_ratio : ℕ → ℕ → ℕ) (p : VideoBwePolicy) (jitter : ℕ) (turn : Bool)
    → IsPolicy p
    → IsPolicy (degrade_severely round_ratio p jitter turn)
unfolding degrade_severely new_target HasRates IsPolicy
degrade_severely-IsPolicy round_ratio p jitter turn h =
    publish_target-IsPolicy (record p { policy_bitrate_bps = min p.policy_bitrate_bps 300000 }) _
      (ground arith) refl refl

pub raise-HasRates : (p : VideoBwePolicy) (now : ℕ) → HasRates p → HasRates (raise p now)
unfolding raise HasRates restore_by_ten_percent
raise-HasRates p now h = ground arith

publish_restored-IsPolicy :
    (p : VideoBwePolicy) (jitter : ℕ) (turn : Bool)
    → HasRates p
    → IsPolicy (publish_restored p jitter turn)
unfolding publish_restored new_target
publish_restored-IsPolicy p jitter turn h =
    publish_target-IsPolicy p _ h (ground arith) (ground arith)

restore-IsPolicy :
    (p : VideoBwePolicy) (now jitter : ℕ) (turn : Bool)
    → IsPolicy p
    → IsPolicy (restore p now jitter turn)
unfolding restore IsPolicy
restore-IsPolicy p now jitter turn h =
    publish_restored-IsPolicy (raise p now) jitter turn (raise-HasRates p now h.0)

suspend-IsPolicy :
    (p : VideoBwePolicy) (jitter : ℕ) (turn : Bool) → IsPolicy p → IsPolicy (suspend p jitter turn)
unfolding suspend new_target IsPolicy
suspend-IsPolicy p jitter turn h =
    publish_target-IsPolicy p
      (new_target p audio_only p.target.width p.target.height 15 0 true jitter turn) h.0 refl refl

hold-IsPolicy :
    (p : VideoBwePolicy) (jitter : ℕ) (turn : Bool) → IsPolicy p → IsPolicy (hold p jitter turn)
unfolding hold new_target IsPolicy IsPublished
hold-IsPolicy p jitter turn h = ground (
  arith,
  h,
  publish_target-IsPolicy p
      (new_target p p.target.level p.target.width p.target.height p.target.frame_rate
        p.policy_bitrate_bps p.target.video_suspended jitter turn)
      h.0 h.1.0 refl,
)

react-IsPolicy :
    (round_ratio : ℕ → ℕ → ℕ) (p : VideoBwePolicy) (sample : VideoBwePolicySample) (jitter : ℕ)
    (turn : Bool)
    → IsPolicy p
    → IsPolicy (react round_ratio p sample jitter turn)
unfolding react restore
react-IsPolicy round_ratio p sample jitter turn h = ground (
  arith,
  suspend-IsPolicy p jitter turn h,
  hold-IsPolicy p jitter turn h,
  degrade-IsPolicy p jitter turn h,
  degrade_severely-IsPolicy round_ratio p jitter turn h,
  restore-IsPolicy p sample.now_ms jitter turn h,
)

pub on_receiver_report-IsPolicy :
    (round_ratio : ℕ → ℕ → ℕ) (p : VideoBwePolicy) (sample : VideoBwePolicySample)
    → IsPolicy p
    → IsPolicy (on_receiver_report round_ratio p sample).1
unfolding on_receiver_report IsPolicy HasRates IsPublished effective_bitrate
on_receiver_report-IsPolicy round_ratio p sample h =
    react-IsPolicy round_ratio
      (record p {
        turn_relay_requested =
            p.turn_relay_requested
            || (sample.has_rtt && ltb 500 sample.rtt_ms && not p.turn_relay_requested);
      })
      sample (if sample.has_rtt && ltb 300 sample.rtt_ms then 100 else 0)
      (sample.has_rtt && ltb 500 sample.rtt_ms && not p.turn_relay_requested) h

pub on_remb_target-IsPolicy :
    (p : VideoBwePolicy) (bitrate : ℕ) → IsPolicy p → IsPolicy (on_remb_target p bitrate).1
unfolding on_remb_target new_target IsPolicy HasRates IsPublished
on_remb_target-IsPolicy p bitrate h =
    publish_target-IsPolicy (record p { remb_limit_bps = max 100000 bitrate })
      (new_target (record p { remb_limit_bps = max 100000 bitrate }) p.target.level p.target.width
        p.target.height p.target.frame_rate p.policy_bitrate_bps p.target.video_suspended
        p.target.jitter_target_ms false)
      (ground arith) h.1.0 refl
