-- ===== src/Client/RingBuffer.antt =====
-- plasma-hawking/src/common/RingBuffer: a bounded queue that refuses what it has no room for. Each
-- method holds the mutex, so a call is one step.
pub mod Fifo
use meeting_system.Prelude.{
  ℕ, Bool, true, false, List, [], ◌∷◌, ◌++◌, Option, none, some, not, ◌||◌, leb, ◌==◌,
  if◌then◌else◌, length,
}
use meeting_system.Prelude.Assoc.{is_empty}

pub record RingBuffer {ℓ} (A : Type ℓ) : Type ℓ where
  pub capacity : ℕ
  pub queue : List A
  pub closed : Bool

module _ {ℓ} {A : Type ℓ} where
  unfoldable pub init : ℕ → RingBuffer A
  init capacity = record {
    capacity = if capacity == 0 then 1 else capacity;
    queue = [];
    closed = false;
  }

  unfoldable pub push : RingBuffer A → A → Bool × RingBuffer A
  push b value =
      if b.closed || leb b.capacity (length b.queue)
      then (false, b)
      else (true, record b { queue = b.queue ++ (value ∷ []) })

  abbrev pub pop_front : RingBuffer A → List A → Option A × RingBuffer A
  pop_front b [] = (none, b)
  pop_front b (x ∷ rest) = (some x, record b { queue = rest })

  -- The answer `false` is `none`.
  unfoldable pub pop : RingBuffer A → Option A × RingBuffer A
  pop b = pop_front b b.queue

  -- `popWait`, on the buffer as it is when the wait ends, by its predicate or by the timeout.
  unfoldable pub pop_wait : RingBuffer A → Option A × RingBuffer A
  pop_wait b =
      if not (b.closed || not (is_empty b.queue))
      then (none, b)
      else if is_empty b.queue
      then (none, b)
      else pop_front b b.queue

  unfoldable pub clear : RingBuffer A → RingBuffer A
  clear b = record b { queue = [] }

  unfoldable pub reset : RingBuffer A → RingBuffer A
  reset b = record b { queue = []; closed = false }

  unfoldable pub close : RingBuffer A → RingBuffer A
  close b = record b { closed = true }
