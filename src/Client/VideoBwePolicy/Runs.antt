-- ===== src/Client/VideoBwePolicy/Runs.antt =====
-- Calls of VideoBwePolicy one after the other, from a reset on, and what their answers tell.
use meeting_system.Prelude.{
  ℕ, ◌+◌, ◌%◌, ◌≤◌, ◌≡◌, refl, ◌⊎◌, Bool, true, false, not, ◌&&◌, ◌||◌, ltb, ◌==◌, if◌then◌else◌,
  arith, List, [], ◌∷◌,
}
use meeting_system.Client.VideoBwePolicy.{
  audio_only, VideoBwePolicySample, VideoBwePolicyTarget, VideoBwePolicy, level_eq, new_target,
  publish_target, restore, publish_restored, raise, degrade, degrade_severely, suspend, hold, react,
  on_receiver_report, on_remb_target,
}

-- A call: a receiver report or the rate of a REMB packet.
pub data Event : Type 0 where
  report : VideoBwePolicySample → Event
  remb : ℕ → Event

unfoldable pub handle : (ℕ → ℕ → ℕ) → VideoBwePolicy → Event → Bool × VideoBwePolicy
handle round_ratio p (report sample) = on_receiver_report round_ratio p sample
handle round_ratio p (remb bitrate) = on_remb_target p bitrate

unfoldable pub run : (ℕ → ℕ → ℕ) → VideoBwePolicy → List Event → VideoBwePolicy
run round_ratio p [] = p
run round_ratio p (e ∷ es) = run round_ratio (handle round_ratio p e).1 es

-- What the encoder may rely on: no rate while the video is suspended, which is at the level "audio
-- only" and at no other; else a rate of 100,000 bits per second at least and the configured one at
-- most, and at most the last REMB rate.
unfoldable pub IsUsable : VideoBwePolicy → Type 0
IsUsable p =
    (level_eq p.target.level audio_only ≡ p.target.video_suspended)
    × ((p.target.video_suspended ≡ true) × (p.target.bitrate_bps ≡ 0)
        ⊎ (p.target.video_suspended ≡ false) × (100000 ≤ p.target.bitrate_bps))
    × (p.target.bitrate_bps ≤ p.config.bitrate_bps)
    × ((p.remb_limit_bps ≡ 0) ⊎ (p.target.bitrate_bps ≤ p.remb_limit_bps))

-- Either nothing was published, or what was published has another version.
unfoldable IsNoticed : VideoBwePolicy → VideoBwePolicy → Type 0
IsNoticed p q = (q.target ≡ p.target) ⊎ ((p.target.version == q.target.version) ≡ false)

next_version : (v : ℕ) → (v == (v + 1) % 18446744073709551616) ≡ false
next_version v = ground arith

publish_target-IsNoticed :
    (p : VideoBwePolicy) (t : VideoBwePolicyTarget)
    → t.version ≡ (p.target.version + 1) % 18446744073709551616
    → IsNoticed p (publish_target p t)
unfolding publish_target IsNoticed
publish_target-IsNoticed p t h = ground (arith, next_version p.target.version)

publish_restored-IsNoticed :
    (p : VideoBwePolicy) (jitter : ℕ) (turn : Bool) → IsNoticed p (publish_restored p jitter turn)
unfolding publish_restored new_target
publish_restored-IsNoticed p jitter turn = publish_target-IsNoticed p _ (ground arith)

raise_target : (p : VideoBwePolicy) (now : ℕ) → (raise p now).target ≡ p.target
unfolding raise
raise_target p now = ground arith

restore-IsNoticed :
    (p : VideoBwePolicy) (now jitter : ℕ) (turn : Bool) → IsNoticed p (restore p now jitter turn)
unfolding restore IsNoticed
restore-IsNoticed p now jitter turn =
    ground (arith, raise_target p now, publish_restored-IsNoticed (raise p now) jitter turn)

degrade-IsNoticed :
    (p : VideoBwePolicy) (jitter : ℕ) (turn : Bool) → IsNoticed p (degrade p jitter turn)
unfolding degrade new_target IsNoticed
degrade-IsNoticed p jitter turn =
    publish_target-IsNoticed (record p { policy_bitrate_bps = _ }) _ refl

degrade_severely-IsNoticed :
    (round_ratio : ℕ → ℕ → ℕ) (p : VideoBwePolicy) (jitter : ℕ) (turn : Bool)
    → IsNoticed p (degrade_severely round_ratio p jitter turn)
unfolding degrade_severely new_target IsNoticed
degrade_severely-IsNoticed round_ratio p jitter turn =
    publish_target-IsNoticed (record p { policy_bitrate_bps = _ }) _ refl

suspend-IsNoticed :
    (p : VideoBwePolicy) (jitter : ℕ) (turn : Bool) → IsNoticed p (suspend p jitter turn)
unfolding suspend new_target
suspend-IsNoticed p jitter turn = publish_target-IsNoticed p _ refl

hold-IsNoticed : (p : VideoBwePolicy) (jitter : ℕ) (turn : Bool) → IsNoticed p (hold p jitter turn)
unfolding hold new_target IsNoticed
hold-IsNoticed p jitter turn =
    let t = p.target in
    ground (
      arith,
      publish_target-IsNoticed p
          (new_target p t.level t.width t.height t.frame_rate p.policy_bitrate_bps t.video_suspended
            jitter turn)
          refl,
    )

react-IsNoticed :
    (round_ratio : ℕ → ℕ → ℕ) (p : VideoBwePolicy) (sample : VideoBwePolicySample) (jitter : ℕ)
    (turn : Bool)
    → IsNoticed p (react round_ratio p sample jitter turn)
unfolding react
react-IsNoticed round_ratio p sample jitter turn = ground (
  arith,
  suspend-IsNoticed p jitter turn,
  hold-IsNoticed p jitter turn,
  degrade-IsNoticed p jitter turn,
  degrade_severely-IsNoticed round_ratio p jitter turn,
  restore-IsNoticed p sample.now_ms jitter turn,
)

on_receiver_report-IsNoticed :
    (round_ratio : ℕ → ℕ → ℕ) (p : VideoBwePolicy) (sample : VideoBwePolicySample)
    → IsNoticed p (on_receiver_report round_ratio p sample).1
unfolding on_receiver_report IsNoticed
on_receiver_report-IsNoticed round_ratio p sample =
    react-IsNoticed round_ratio
      (record p {
        turn_relay_requested =
            p.turn_relay_requested
            || (sample.has_rtt && ltb 500 sample.rtt_ms && not p.turn_relay_requested);
      })
      sample (if sample.has_rtt && ltb 300 sample.rtt_ms then 100 else 0)
      (sample.has_rtt && ltb 500 sample.rtt_ms && not p.turn_relay_requested)

on_remb_target-IsNoticed :
    (p : VideoBwePolicy) (bitrate : ℕ) → IsNoticed p (on_remb_target p bitrate).1
unfolding on_remb_target new_target IsNoticed
on_remb_target-IsNoticed p bitrate =
    publish_target-IsNoticed (record p { remb_limit_bps = _ }) _ refl

report-quiet :
    (round_ratio : ℕ → ℕ → ℕ) (p : VideoBwePolicy) (sample : VideoBwePolicySample)
    → (on_receiver_report round_ratio p sample).0 ≡ false
    → (on_receiver_report round_ratio p sample).1.target ≡ p.target
unfolding on_receiver_report IsNoticed
report-quiet round_ratio p sample quiet =
    ground (arith, quiet, on_receiver_report-IsNoticed round_ratio p sample)

remb-quiet :
    (p : VideoBwePolicy) (bitrate : ℕ)
    → (on_remb_target p bitrate).0 ≡ false
    → (on_remb_target p bitrate).1.target ≡ p.target
unfolding on_remb_target IsNoticed
remb-quiet p bitrate quiet = ground (arith, quiet, on_remb_target-IsNoticed p bitrate)

-- An answer `false` is true to its word: the target is the one before the call.
pub handle-false :
    (round_ratio : ℕ → ℕ → ℕ) (p : VideoBwePolicy) (e : Event)
    → (handle round_ratio p e).0 ≡ false
    → (handle round_ratio p e).1.target ≡ p.target
unfolding handle
handle-false round_ratio p (report sample) quiet = report-quiet round_ratio p sample quiet
handle-false round_ratio p (remb bitrate) quiet = remb-quiet p bitrate quiet
