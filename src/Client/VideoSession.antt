-- ===== src/Client/VideoSession.antt =====
-- plasma-hawking/src/av/session: VideoSessionStateMachine and VideoThreadLifecycleStateMachine, the
-- plans; VideoThreadRuntime, of which a thread is whether there is one; and of ScreenShareSession the
-- calls that switch the sources on and off, as far as they concern the flags, the threads and the
-- queue of captured frames. Devices, the socket and the bandwidth policy are left out: whether the
-- socket opens and whether a device starts are arguments. A thread that is joined has ended; what the
-- threads do is left out.
pub mod Sources
use meeting_system.Prelude.{ℕ, Bool, true, false, not, ◌&&◌, ◌||◌, if◌then◌else◌}
use meeting_system.Client.FrameRingBuffer
use meeting_system.Client.FrameRingBuffer.{VideoSendFrameRingBuffer}

pub data VideoSendSource : Type 0 where
  no_source screen camera : VideoSendSource

pub record VideoToggleEnablePlan : Type 0 where
  pub already_enabled : Bool
  pub should_start_send_thread : Bool
  pub should_request_key_frame : Bool

pub record VideoToggleDisablePlan : Type 0 where
  pub already_disabled : Bool
  pub should_join_send_thread : Bool
  pub should_set_force_key_frame : Bool
  pub force_key_frame_value : Bool

abbrev pub nothing_to_enable : VideoToggleEnablePlan
nothing_to_enable = record {
  already_enabled = true;
  should_start_send_thread = false;
  should_request_key_frame = false;
}

abbrev pub nothing_to_disable : VideoToggleDisablePlan
nothing_to_disable = record {
  already_disabled = true;
  should_join_send_thread = false;
  should_set_force_key_frame = false;
  force_key_frame_value = false;
}

unfoldable pub plan_enable_sharing :
    (sharing_enabled camera_sending_enabled : Bool) → VideoToggleEnablePlan
plan_enable_sharing true camera_sending_enabled = nothing_to_enable
plan_enable_sharing false camera_sending_enabled = record {
  already_enabled = false;
  should_start_send_thread = not camera_sending_enabled;
  should_request_key_frame = true;
}

unfoldable pub plan_enable_camera :
    (camera_sending_enabled sharing_enabled : Bool) → VideoToggleEnablePlan
plan_enable_camera true sharing_enabled = nothing_to_enable
plan_enable_camera false sharing_enabled = record {
  already_enabled = false;
  should_start_send_thread = not sharing_enabled;
  should_request_key_frame = not sharing_enabled;
}

unfoldable pub plan_disable_sharing :
    (sharing_enabled camera_sending_enabled : Bool) → VideoToggleDisablePlan
plan_disable_sharing false camera_sending_enabled = nothing_to_disable
plan_disable_sharing true camera_sending_enabled = record {
  already_disabled = false;
  should_join_send_thread = not camera_sending_enabled;
  should_set_force_key_frame = true;
  force_key_frame_value = camera_sending_enabled;
}

unfoldable pub plan_disable_camera :
    (camera_sending_enabled sharing_enabled : Bool) → VideoToggleDisablePlan
plan_disable_camera false sharing_enabled = nothing_to_disable
plan_disable_camera true sharing_enabled = record {
  already_disabled = false;
  should_join_send_thread = not sharing_enabled;
  should_set_force_key_frame = not sharing_enabled;
  force_key_frame_value = false;
}

unfoldable pub resolve_send_source :
    (sharing_enabled camera_sending_enabled : Bool) → VideoSendSource
resolve_send_source true camera_sending_enabled = screen
resolve_send_source false true = camera
resolve_send_source false false = no_source

pub record VideoSessionStopPlan : Type 0 where
  pub should_return_early : Bool
  pub should_join_send_before_cleanup : Bool
  pub should_join_recv_after_cleanup : Bool

unfoldable pub plan_session_stop :
    (was_running send_joinable recv_joinable : Bool) → VideoSessionStopPlan
plan_session_stop was_running send_joinable recv_joinable = record {
  should_return_early = not was_running && (not send_joinable && not recv_joinable);
  should_join_send_before_cleanup = send_joinable;
  should_join_recv_after_cleanup = recv_joinable;
}

-- Whether there is a capture, a send and a receive thread.
pub record VideoThreadRuntime : Type 0 where
  pub capture : Bool
  pub send : Bool
  pub recv : Bool

pub record ScreenShareSession {ℓ} (Frame : Type ℓ) : Type ℓ where
  pub running : Bool
  pub sharing_enabled : Bool
  pub camera_sending_enabled : Bool
  pub force_key_frame_pending : Bool
  pub threads : VideoThreadRuntime
  pub send_frames : VideoSendFrameRingBuffer Frame

abbrev pub no_threads : VideoThreadRuntime
no_threads = record { capture = false; send = false; recv = false }

module _ {ℓ} {Frame : Type ℓ} where
  unfoldable pub init : ℕ → ScreenShareSession Frame
  init capacity = record {
    running = false;
    sharing_enabled = false;
    camera_sending_enabled = false;
    force_key_frame_pending = false;
    threads = no_threads;
    send_frames = FrameRingBuffer.init capacity;
  }

  unfoldable pub start :
      (opened : Bool) → ScreenShareSession Frame → Bool × ScreenShareSession Frame
  start opened s =
      if s.running
      then (true, s)
      else if not opened
      then (false, s)
      else (true, record s { running = true; threads = record s.threads { recv = true } })

  unfoldable pub stop : ScreenShareSession Frame → ScreenShareSession Frame
  stop s =
      let plan = plan_session_stop s.running s.threads.send s.threads.recv in
      let stopped = record s { running = false } in
      if plan.should_return_early then stopped else record stopped {
        sharing_enabled = false;
        camera_sending_enabled = false;
        force_key_frame_pending = false;
        send_frames = FrameRingBuffer.close s.send_frames;
        threads = no_threads;
      }

  -- The end of both calls that enable a source.
  unfoldable pub start_sending :
      VideoToggleEnablePlan → ScreenShareSession Frame → ScreenShareSession Frame
  start_sending plan s =
      let asked =
        if plan.should_request_key_frame then record s { force_key_frame_pending = true } else s in
      if plan.should_start_send_thread
      then record asked {
        send_frames = FrameRingBuffer.reset asked.send_frames;
        threads = record asked.threads { capture = true; send = true };
      }
      else asked

  -- The end of both calls that disable a source.
  unfoldable pub stop_sending :
      VideoToggleDisablePlan → ScreenShareSession Frame → ScreenShareSession Frame
  stop_sending plan s =
      let joined =
        if plan.should_join_send_thread && s.threads.send
        then record s {
          send_frames = FrameRingBuffer.close s.send_frames;
          threads = record s.threads { capture = false; send = false };
        }
        else if s.threads.capture
        then record s {
          send_frames = FrameRingBuffer.close s.send_frames;
          threads = record s.threads { capture = false };
        }
        else s in
      if plan.should_set_force_key_frame
      then record joined { force_key_frame_pending = plan.force_key_frame_value }
      else joined

  unfoldable pub enable_sharing :
      (opened captured : Bool) → ScreenShareSession Frame → Bool × ScreenShareSession Frame
  unfolding start_sending
  enable_sharing opened captured s =
      let started = start opened s in
      let plan = plan_enable_sharing started.1.sharing_enabled started.1.camera_sending_enabled in
      if not started.0
      then (false, s)
      else if plan.already_enabled
      then (true, started.1)
      else if not captured
      then (false, started.1)
      else (true, start_sending plan (record started.1 { sharing_enabled = true }))

  unfoldable pub enable_camera :
      (opened captured : Bool) → ScreenShareSession Frame → Bool × ScreenShareSession Frame
  unfolding start_sending
  enable_camera opened captured s =
      let started = start opened s in
      let plan = plan_enable_camera started.1.camera_sending_enabled started.1.sharing_enabled in
      if not started.0
      then (false, s)
      else if plan.already_enabled
      then (true, started.1)
      else if not captured
      then (false, started.1)
      else (true, start_sending plan (record started.1 { camera_sending_enabled = true }))

  unfoldable pub disable_sharing : ScreenShareSession Frame → ScreenShareSession Frame
  unfolding stop_sending
  disable_sharing s =
      if not s.sharing_enabled
      then s
      else stop_sending (plan_disable_sharing true s.camera_sending_enabled)
          (record s { sharing_enabled = false })

  unfoldable pub disable_camera : ScreenShareSession Frame → ScreenShareSession Frame
  unfolding stop_sending
  disable_camera s =
      if not s.camera_sending_enabled
      then s
      else stop_sending (plan_disable_camera true s.sharing_enabled)
          (record s { camera_sending_enabled = false })
