-- ===== src/Client/FrameRingBuffer.antt =====
-- plasma-hawking/src/av/session/VideoSendFrameRingBuffer: the queue of captured frames, which drops
-- its oldest frame for a new one. Each method holds the mutex, so a call is one step.
pub mod Latest
use meeting_system.Prelude.{
  ℕ, Bool, true, false, List, [], ◌∷◌, ◌++◌, Option, none, some, leb, if◌then◌else◌, length, max,
}

pub record VideoSendFrameRingBuffer {ℓ} (A : Type ℓ) : Type ℓ where
  pub capacity : ℕ
  pub frames : List A
  pub closed : Bool

module _ {ℓ} {A : Type ℓ} where
  unfoldable pub init : ℕ → VideoSendFrameRingBuffer A
  init capacity = record { capacity = max capacity 1; frames = []; closed = false }

  unfoldable pub reset : VideoSendFrameRingBuffer A → VideoSendFrameRingBuffer A
  reset b = record b { frames = []; closed = false }

  unfoldable pub close : VideoSendFrameRingBuffer A → VideoSendFrameRingBuffer A
  close b = record b { closed = true }

  unfoldable pub clear : VideoSendFrameRingBuffer A → VideoSendFrameRingBuffer A
  clear b = record b { frames = [] }

  abbrev pub pop_front : List A → List A
  pop_front [] = []
  pop_front (x ∷ rest) = rest

  unfoldable pub push : VideoSendFrameRingBuffer A → A → Bool × VideoSendFrameRingBuffer A
  push b frame = if b.closed then (false, b) else (
    true,
    record b {
      frames =
          (if leb b.capacity (length b.frames) then pop_front b.frames else b.frames)
          ++ (frame ∷ []);
    },
  )

  abbrev pub take_front :
      VideoSendFrameRingBuffer A → List A → Option A × VideoSendFrameRingBuffer A
  take_front b [] = (none, b)
  take_front b (x ∷ rest) = (some x, record b { frames = rest })

  -- `popWait`, on the buffer as it is when its last wait ends: with a frame, closed or timed out. The
  -- answer `false` is `none`.
  unfoldable pub pop_wait : VideoSendFrameRingBuffer A → Option A × VideoSendFrameRingBuffer A
  pop_wait b = take_front b b.frames
