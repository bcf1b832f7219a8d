-- ===== src/Client/VideoSession/Sources.antt =====
-- Whether frames flow while a source is on.
use meeting_system.Prelude.{
  ℕ, List, [], ◌∷◌, ◌≡◌, refl, Bool, true, false, not, ◌&&◌, ◌||◌, arith, inl, inr, Bool-cases,
}
use meeting_system.Client.FrameRingBuffer
use meeting_system.Client.FrameRingBuffer.{VideoSendFrameRingBuffer}
use meeting_system.Client.VideoSession.{
  ScreenShareSession, plan_enable_sharing, plan_enable_camera, plan_disable_sharing,
  plan_disable_camera, plan_session_stop, init, start, stop, start_sending, stop_sending,
  enable_sharing, enable_camera, disable_sharing, disable_camera,
}

-- The session runs, there are threads that capture and send, and the queue between them is open.
unfoldable pub IsFlowing {ℓ} : {Frame : Type ℓ} → ScreenShareSession Frame → Type 0
IsFlowing s =
    (s.running ≡ true)
    × (s.threads.capture ≡ true)
    × (s.threads.send ≡ true)
    × (s.send_frames.closed ≡ false)

-- Where a source is on, frames flow.
unfoldable pub IsConsistent {ℓ} : {Frame : Type ℓ} → ScreenShareSession Frame → Type 0
IsConsistent s = s.sharing_enabled || s.camera_sending_enabled ≡ true → IsFlowing s

-- A call of the controller. The first arguments of those that enable a source are whether the socket
-- opens and whether the device starts.
pub data Toggle : Type 0 where
  enables_sharing enables_camera : (opened captured : Bool) → Toggle
  disables_sharing disables_camera stops : Toggle

module _ {ℓ} {Frame : Type ℓ} where
  -- A session whose sources are both on, with a thread that captures.
  abbrev pub sending_both :
      (force_key_frame send recv : Bool) → VideoSendFrameRingBuffer Frame → ScreenShareSession Frame
  sending_both force_key_frame send recv frames = record {
    running = true;
    sharing_enabled = true;
    camera_sending_enabled = true;
    force_key_frame_pending = force_key_frame;
    threads = record { capture = true; send = send; recv = recv };
    send_frames = frames;
  }

  -- The screen is switched off while the camera sends: the camera stays on, but no thread captures any
  -- more and the queue is closed. Switching the screen on again does not change that.
  pub disable_sharing_stalls :
      (opened captured force_key_frame send recv : Bool) (frames : VideoSendFrameRingBuffer Frame)
      → (let after = disable_sharing (sending_both force_key_frame send recv frames) in
          let again = (enable_sharing opened captured after).1 in
          (after.camera_sending_enabled ≡ true)
          × (after.threads.capture ≡ false)
          × (after.send_frames.closed ≡ true)
          × (again.camera_sending_enabled ≡ true)
          × (again.threads.capture ≡ false)
          × (again.send_frames.closed ≡ true))
  unfolding disable_sharing enable_sharing stop_sending start_sending start plan_disable_sharing
      plan_enable_sharing FrameRingBuffer.close
  disable_sharing_stalls opened false force_key_frame send recv frames =
      (refl, refl, refl, refl, refl, refl)
  disable_sharing_stalls opened true force_key_frame send recv frames =
      (refl, refl, refl, refl, refl, refl)

  enable_sharing-IsConsistent :
      (opened captured : Bool) (s : ScreenShareSession Frame)
      → IsConsistent s
      → IsConsistent (enable_sharing opened captured s).1
  unfolding enable_sharing start_sending start plan_enable_sharing IsConsistent IsFlowing
      FrameRingBuffer.reset
  enable_sharing-IsConsistent opened captured s v on = elim (Bool-cases s.running) [
    | inl e ↦ ground (arith, v, e, on)
    | inr e ↦ ground (arith, v, e, on)
  ]

  enable_camera-IsConsistent :
      (opened captured : Bool) (s : ScreenShareSession Frame)
      → IsConsistent s
      → IsConsistent (enable_camera opened captured s).1
  unfolding enable_camera start_sending start plan_enable_camera IsConsistent IsFlowing
      FrameRingBuffer.reset
  enable_camera-IsConsistent opened captured s v on = elim (Bool-cases s.running) [
    | inl e ↦ ground (arith, v, e, on)
    | inr e ↦ ground (arith, v, e, on)
  ]

  disable_sharing-IsConsistent :
      (s : ScreenShareSession Frame)
      → s.camera_sending_enabled ≡ false
      → IsConsistent s
      → IsConsistent (disable_sharing s)
  unfolding disable_sharing stop_sending plan_disable_sharing IsConsistent IsFlowing
      FrameRingBuffer.close
  disable_sharing-IsConsistent s other v on = ground (arith, v, other, on)

  disable_camera-IsConsistent :
      (s : ScreenShareSession Frame)
      → s.sharing_enabled ≡ false
      → IsConsistent s
      → IsConsistent (disable_camera s)
  unfolding disable_camera stop_sending plan_disable_camera IsConsistent IsFlowing
      FrameRingBuffer.close
  disable_camera-IsConsistent s other v on = ground (arith, v, other, on)

  stop-IsConsistent : (s : ScreenShareSession Frame) → IsConsistent s → IsConsistent (stop s)
  unfolding stop plan_session_stop IsConsistent IsFlowing FrameRingBuffer.close
  stop-IsConsistent s v on = ground (arith, v, on)

  unfoldable pub toggle : ScreenShareSession Frame → Toggle → ScreenShareSession Frame
  toggle s (enables_sharing opened captured) = (enable_sharing opened captured s).1
  toggle s (enables_camera opened captured) = (enable_camera opened captured s).1
  toggle s disables_sharing = disable_sharing s
  toggle s disables_camera = disable_camera s
  toggle s stops = stop s

  -- A source is switched off only while the other one is off.
  unfoldable pub is_single : ScreenShareSession Frame → Toggle → Bool
  is_single s disables_sharing = not s.camera_sending_enabled
  is_single s disables_camera = not s.sharing_enabled
  is_single s t = true

  unfoldable pub toggle_all : ScreenShareSession Frame → List Toggle → ScreenShareSession Frame
  toggle_all s [] = s
  toggle_all s (t ∷ ts) = toggle_all (toggle s t) ts

  unfoldable pub are_single : ScreenShareSession Frame → List Toggle → Bool
  are_single s [] = true
  are_single s (t ∷ ts) = is_single s t && are_single (toggle s t) ts

  toggle-IsConsistent :
      (s : ScreenShareSession Frame) (t : Toggle)
      → is_single s t ≡ true
      → IsConsistent s
      → IsConsistent (toggle s t)
  unfolding toggle is_single
  toggle-IsConsistent s (enables_sharing opened captured) single v =
      enable_sharing-IsConsistent opened captured s v
  toggle-IsConsistent s (enables_camera opened captured) single v =
      enable_camera-IsConsistent opened captured s v
  toggle-IsConsistent s disables_sharing single v =
      disable_sharing-IsConsistent s (ground (arith, single)) v
  toggle-IsConsistent s disables_camera single v =
      disable_camera-IsConsistent s (ground (arith, single)) v
  toggle-IsConsistent s stops single v = stop-IsConsistent s v

  toggle_all-IsConsistent :
      (s : ScreenShareSession Frame) (ts : List Toggle)
      → are_single s ts ≡ true
      → IsConsistent s
      → IsConsistent (toggle_all s ts)
  unfolding toggle_all are_single
  toggle_all-IsConsistent s [] single v = v
  toggle_all-IsConsistent s (t ∷ ts) single v =
      toggle_all-IsConsistent (toggle s t) ts (ground (arith, single))
        (toggle-IsConsistent s t (ground (arith, single)) v)

module _ {ℓ} (Frame : Type ℓ) where
  init-IsConsistent : (capacity : ℕ) → IsConsistent (init {Frame = Frame} capacity)
  unfolding init IsConsistent
  init-IsConsistent capacity on = ground (arith, on)

  -- After any calls to a new session, of which those that switch a source off come while the other one
  -- is off: where a source is on, the session runs, there are threads that capture and send, and the
  -- queue between them is open.
  pub toggle_all-init-IsConsistent :
      (capacity : ℕ) (ts : List Toggle)
      → are_single (init {Frame = Frame} capacity) ts ≡ true
      → IsConsistent (toggle_all (init {Frame = Frame} capacity) ts)
  toggle_all-init-IsConsistent capacity ts single =
      toggle_all-IsConsistent (init capacity) ts single (init-IsConsistent capacity)
