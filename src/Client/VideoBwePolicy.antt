-- ===== src/Client/VideoBwePolicy.antt =====
-- plasma-hawking/src/av/session/VideoBwePolicy: the video quality for the loss and the delay that the
-- receiver reports. Loss is a multiple of 100 / 256 percent, so its comparisons are exact in integers;
-- the rounded width for 360 lines is computed in doubles and is a parameter.
pub mod Invariant
pub mod Recovery
pub mod Runs
use meeting_system.Prelude.{
  ℕ, zero, suc, ◌+◌, ◌-◌, ◌*◌, ◌/◌, ◌%◌, Bool, true, false, not, ◌&&◌, ◌||◌, ltb, leb, ◌==◌,
  if◌then◌else◌, min, max,
}
use meeting_system.Prelude.Int.{ℤ, pos_part}

pub data VideoBweDegradationLevel : Type 0 where
  normal moderate severe audio_only : VideoBweDegradationLevel

pub record VideoBwePolicyConfig : Type 0 where
  pub baseline_width : ℤ
  pub baseline_height : ℤ
  pub baseline_frame_rate : ℤ
  pub baseline_bitrate_bps : ℕ

-- The configuration that `normalizeConfig` returns, in which no number is negative.
pub record Baseline : Type 0 where
  pub width : ℕ
  pub height : ℕ
  pub frame_rate : ℕ
  pub bitrate_bps : ℕ

pub record VideoBwePolicySample : Type 0 where
  pub fraction_lost : ℕ
  pub has_rtt : Bool
  pub rtt_ms : ℕ
  pub now_ms : ℕ

pub record VideoBwePolicyTarget : Type 0 where
  pub level : VideoBweDegradationLevel
  pub width : ℕ
  pub height : ℕ
  pub frame_rate : ℕ
  pub bitrate_bps : ℕ
  pub video_suspended : Bool
  pub jitter_target_ms : ℕ
  pub request_turn_relay : Bool
  pub version : ℕ

pub record VideoBwePolicy : Type 0 where
  pub config : Baseline
  pub target : VideoBwePolicyTarget
  pub policy_bitrate_bps : ℕ
  pub remb_limit_bps : ℕ
  pub last_restore_at_ms : ℕ
  pub turn_relay_requested : Bool

abbrev pub min_video_bitrate_bps : ℕ
min_video_bitrate_bps = 100000

abbrev pub severe_video_bitrate_bps : ℕ
severe_video_bitrate_bps = 300000

abbrev pub level_eq : VideoBweDegradationLevel → VideoBweDegradationLevel → Bool
level_eq normal normal = true
level_eq moderate moderate = true
level_eq severe severe = true
level_eq audio_only audio_only = true
level_eq _ _ = false

abbrev pub bool_eq : Bool → Bool → Bool
bool_eq true b = b
bool_eq false b = not b

unfoldable pub even_at_least_two : ℕ → ℕ
even_at_least_two value = max 2 (max 2 value - max 2 value % 2)

unfoldable pub normalize_config : VideoBwePolicyConfig → Baseline
normalize_config config = record {
  width = even_at_least_two (pos_part config.baseline_width);
  height = even_at_least_two (pos_part config.baseline_height);
  frame_rate = max 1 (pos_part config.baseline_frame_rate);
  bitrate_bps = max min_video_bitrate_bps config.baseline_bitrate_bps;
}

-- `round_ratio w h` is `std::round(w * (360.0 / h))`.
unfoldable pub scaled_width_for_360p : (ℕ → ℕ → ℕ) → Baseline → ℕ
scaled_width_for_360p round_ratio config =
    if leb config.height 360
    then config.width
    else even_at_least_two (round_ratio config.width config.height)

unfoldable pub scaled_height_for_360p : Baseline → ℕ
scaled_height_for_360p config = if leb config.height 360 then config.height else 360

-- The products have 64 bits in the source, which hold them for every 32-bit rate.
unfoldable pub reduce_by_thirty_percent : ℕ → ℕ
reduce_by_thirty_percent bitrate = max min_video_bitrate_bps (bitrate * 70 / 100) % 4294967296

unfoldable pub restore_by_ten_percent : ℕ → ℕ → ℕ
restore_by_ten_percent bitrate baseline = min baseline ((bitrate * 110 + 99) / 100) % 4294967296

unfoldable pub effective_bitrate : VideoBwePolicy → ℕ → ℕ
effective_bitrate p policy_bitrate =
    let bitrate = min (max policy_bitrate min_video_bitrate_bps) p.config.bitrate_bps in
    if leb min_video_bitrate_bps p.remb_limit_bps then min bitrate p.remb_limit_bps else bitrate

abbrev pub same_target : VideoBwePolicyTarget → VideoBwePolicyTarget → Bool
same_target t u =
    level_eq t.level u.level
    && (t.width == u.width)
    && (t.height == u.height)
    && (t.frame_rate == u.frame_rate)
    && (t.bitrate_bps == u.bitrate_bps)
    && bool_eq t.video_suspended u.video_suspended
    && (t.jitter_target_ms == u.jitter_target_ms)
    && bool_eq t.request_turn_relay u.request_turn_relay

-- The target of a call of `publishTarget`, with the version that it gets if it is new.
unfoldable pub new_target :
    VideoBwePolicy
    → VideoBweDegradationLevel
    → (width height frame_rate policy_bitrate : ℕ) → (suspended : Bool) → (jitter : ℕ)
    → (turn : Bool) → VideoBwePolicyTarget
unfolding effective_bitrate
new_target p level width height frame_rate policy_bitrate suspended jitter turn = record {
  level = level;
  width = even_at_least_two width;
  height = even_at_least_two height;
  frame_rate = max 1 frame_rate;
  bitrate_bps = if suspended then 0 else effective_bitrate p policy_bitrate;
  video_suspended = suspended;
  jitter_target_ms = jitter;
  request_turn_relay = turn;
  version = (p.target.version + 1) % 18446744073709551616;
}

unfoldable pub publish_target : VideoBwePolicy → VideoBwePolicyTarget → VideoBwePolicy
publish_target p t = if same_target p.target t then p else record p { target = t }

-- The assignments of `reset`, before it publishes.
unfoldable pub initial : Baseline → ℕ → VideoBwePolicy
initial c now = record {
  config = c;
  target = record {
    level = normal;
    width = 1280;
    height = 720;
    frame_rate = 30;
    bitrate_bps = 1500000;
    video_suspended = false;
    jitter_target_ms = 0;
    request_turn_relay = false;
    version = 0;
  };
  policy_bitrate_bps = c.bitrate_bps;
  remb_limit_bps = 0;
  last_restore_at_ms = now;
  turn_relay_requested = false;
}

unfoldable pub reset : VideoBwePolicyConfig → ℕ → VideoBwePolicy
unfolding initial new_target publish_target
reset config now =
    let c = normalize_config config in
    let p = initial c now in
    publish_target p (new_target p normal c.width c.height c.frame_rate c.bitrate_bps false 0 false)

-- The branch for a loss below two percent: the rate, which grows every five seconds.
unfoldable pub raise : VideoBwePolicy → ℕ → VideoBwePolicy
unfolding restore_by_ten_percent
raise p now =
    if leb p.last_restore_at_ms now && leb 5000 (now - p.last_restore_at_ms)
    then record p {
      last_restore_at_ms = now;
      policy_bitrate_bps =
          if p.policy_bitrate_bps == 0
          then severe_video_bitrate_bps
          else restore_by_ten_percent p.policy_bitrate_bps p.config.bitrate_bps;
    }
    else p

-- What that branch publishes.
unfoldable pub publish_restored : VideoBwePolicy → ℕ → Bool → VideoBwePolicy
unfolding new_target publish_target
publish_restored p jitter turn =
    let c = p.config in
    let rate = p.policy_bitrate_bps in
    publish_target p (
      if leb c.bitrate_bps rate
      then new_target p normal c.width c.height c.frame_rate rate false jitter turn
      else new_target p moderate p.target.width p.target.height 15 rate false jitter turn)

unfoldable pub restore : VideoBwePolicy → ℕ → ℕ → Bool → VideoBwePolicy
restore p now jitter turn = publish_restored (raise p now) jitter turn

-- The branch for a loss above fifteen percent, and the one for a loss above five.
unfoldable pub degrade_severely : (ℕ → ℕ → ℕ) → VideoBwePolicy → ℕ → Bool → VideoBwePolicy
unfolding new_target publish_target
degrade_severely round_ratio p jitter turn =
    let p' = record p { policy_bitrate_bps = min p.policy_bitrate_bps severe_video_bitrate_bps } in
    publish_target p' (
      new_target p' severe (scaled_width_for_360p round_ratio p'.config)
        (scaled_height_for_360p p'.config) 15 p'.policy_bitrate_bps false jitter turn)

unfoldable pub degrade : VideoBwePolicy → ℕ → Bool → VideoBwePolicy
unfolding reduce_by_thirty_percent new_target publish_target
degrade p jitter turn =
    let p' = record p {
      policy_bitrate_bps =
          reduce_by_thirty_percent
            (if p.policy_bitrate_bps == 0 then p.config.bitrate_bps else p.policy_bitrate_bps);
    } in
    publish_target p' (
      new_target p' moderate p'.config.width p'.config.height 15 p'.policy_bitrate_bps false jitter
        turn)

-- The branch for a loss above thirty percent, and the one in which only the jitter target or the
-- relay request may change.
unfoldable pub suspend : VideoBwePolicy → ℕ → Bool → VideoBwePolicy
unfolding new_target publish_target
suspend p jitter turn =
    publish_target p (new_target p audio_only p.target.width p.target.height 15 0 true jitter turn)

unfoldable pub hold : VideoBwePolicy → ℕ → Bool → VideoBwePolicy
unfolding new_target publish_target
hold p jitter turn =
    let t = p.target in
    if not (t.jitter_target_ms == jitter) || turn
    then publish_target p (
        new_target p t.level t.width t.height t.frame_rate p.policy_bitrate_bps t.video_suspended
          jitter turn)
    else p

-- The branches on the loss, which is compared as `fractionLost * 100` with percents of 256.
unfoldable pub react :
    (ℕ → ℕ → ℕ) → VideoBwePolicy → VideoBwePolicySample → ℕ → Bool → VideoBwePolicy
react round_ratio p sample jitter turn =
    let loss = sample.fraction_lost * 100 in
    if ltb (30 * 256) loss
    then suspend p jitter turn
    else if ltb (15 * 256) loss
    then degrade_severely round_ratio p jitter turn
    else if ltb (5 * 256) loss
    then degrade p jitter turn
    else if ltb loss (2 * 256)
    then restore p sample.now_ms jitter turn
    else hold p jitter turn

unfoldable pub on_receiver_report :
    (ℕ → ℕ → ℕ) → VideoBwePolicy → VideoBwePolicySample → Bool × VideoBwePolicy
unfolding react
on_receiver_report round_ratio p sample =
    let jitter = if sample.has_rtt && ltb 300 sample.rtt_ms then 100 else 0 in
    let turn = sample.has_rtt && ltb 500 sample.rtt_ms && not p.turn_relay_requested in
    let p' =
      react round_ratio (record p { turn_relay_requested = p.turn_relay_requested || turn }) sample
        jitter turn in
    (not (p.target.version == p'.target.version) || turn, p')

unfoldable pub on_remb_target : VideoBwePolicy → ℕ → Bool × VideoBwePolicy
unfolding new_target publish_target
on_remb_target p bitrate =
    let t = p.target in
    let q = record p { remb_limit_bps = max min_video_bitrate_bps bitrate } in
    let p' = publish_target q (
      new_target q t.level t.width t.height t.frame_rate q.policy_bitrate_bps t.video_suspended
        t.jitter_target_ms false) in
    (not (t.version == p'.target.version), p')
