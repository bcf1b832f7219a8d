-- ===== src/Client/VideoSessionTests.antt =====
-- A session that shares the screen, stops, and sends the camera.
use meeting_system.Prelude.{ℕ, ◌≡◌, refl, true, false, List, [], ◌∷◌}
use meeting_system.Client.FrameRingBuffer
use meeting_system.Client.VideoSession.{
  init, start, start_sending, enable_sharing, disable_sharing, plan_enable_sharing,
}
use meeting_system.Client.VideoSession.Sources.{
  IsConsistent, Toggle, enables_sharing, disables_sharing, enables_camera, toggle, toggle_all,
  is_single, are_single, sending_both, disable_sharing_stalls, toggle_all-init-IsConsistent,
}

abbrev calls : List Toggle
calls = enables_sharing true true ∷ disables_sharing ∷ enables_camera true true ∷ []

calls_single : are_single (init {Frame = ℕ} 4) calls ≡ true
unfolding are_single is_single toggle init enable_sharing start start_sending plan_enable_sharing
calls_single = refl

toggle_all-init-IsConsistent_example : IsConsistent (toggle_all (init {Frame = ℕ} 4) calls)
toggle_all-init-IsConsistent_example = toggle_all-init-IsConsistent ℕ 4 calls calls_single

disable_sharing_stalls_example :
    (let after = disable_sharing (sending_both false true true (FrameRingBuffer.init {A = ℕ} 4)) in
      let again = (enable_sharing true true after).1 in
      (after.camera_sending_enabled ≡ true)
      × (after.threads.capture ≡ false)
      × (after.send_frames.closed ≡ true)
      × (again.camera_sending_enabled ≡ true)
      × (again.threads.capture ≡ false)
      × (again.send_frames.closed ≡ true))
disable_sharing_stalls_example =
    disable_sharing_stalls true true false true true (FrameRingBuffer.init {A = ℕ} 4)
