-- ===== src/Client/RingBuffer/Fifo.antt =====
-- RingBuffer is a bounded first-in first-out queue.
use meeting_system.Prelude.{
  ◌≤◌, ◌≡◌, refl, sym, ap, ◌∙◌, Bool, true, false, List, [], ◌∷◌, ◌++◌, Option, none, some, not,
  ◌||◌, leb, if◌then◌else◌, length, length-append, arith,
}
use meeting_system.Prelude.Assoc.{is_empty}
use meeting_system.Client.RingBuffer.{
  RingBuffer, push, pop_front, pop, pop_wait, clear, reset, close,
}

-- A call: a value is offered, a value is taken with or without a wait, the buffer is closed, cleared
-- or reset.
pub data Call {ℓ} (A : Type ℓ) : Type ℓ where
  offer : A → Call A
  poll await shut discard reopen : Call A

abbrev pub if_accepted {ℓ} : {A : Type ℓ} → Bool → A → List A
if_accepted true x = x ∷ []
if_accepted false x = []

abbrev pub to_list {ℓ} : {A : Type ℓ} → Option A → List A
to_list none = []
to_list (some x) = x ∷ []

module _ {ℓ} {A : Type ℓ} where
  unfoldable pub call : RingBuffer A → Call A → RingBuffer A
  call b (offer x) = (push b x).1
  call b poll = (pop b).1
  call b await = (pop_wait b).1
  call b shut = close b
  call b discard = clear b
  call b reopen = reset b

  -- What a call took into the buffer, and what it gave out or threw away.
  unfoldable pub accepted : RingBuffer A → Call A → List A
  accepted b (offer x) = if_accepted (push b x).0 x
  accepted b _ = []

  unfoldable pub removed : RingBuffer A → Call A → List A
  removed b (offer x) = []
  removed b poll = to_list (pop b).0
  removed b await = to_list (pop_wait b).0
  removed b shut = []
  removed b discard = b.queue
  removed b reopen = b.queue

  unfoldable pub run : RingBuffer A → List (Call A) → RingBuffer A
  run b [] = b
  run b (c ∷ cs) = run (call b c) cs

  unfoldable pub all_accepted : RingBuffer A → List (Call A) → List A
  all_accepted b [] = []
  all_accepted b (c ∷ cs) = accepted b c ++ all_accepted (call b c) cs

  unfoldable pub all_removed : RingBuffer A → List (Call A) → List A
  all_removed b [] = []
  all_removed b (c ∷ cs) = removed b c ++ all_removed (call b c) cs

module _ {ℓ} {A : Type ℓ} where
  append_nil : (xs : List A) → xs ++ [] ≡ xs
  append_nil [] = refl
  append_nil (x ∷ xs) = rw (append_nil xs)

  append_assoc : (xs ys zs : List A) → (xs ++ ys) ++ zs ≡ xs ++ (ys ++ zs)
  append_assoc [] ys zs = refl
  append_assoc (x ∷ xs) ys zs = rw (append_assoc xs ys zs)

  pop_front-queue :
      (b : RingBuffer A) (q : List A)
      → b.queue ≡ q
      → q ++ [] ≡ to_list (pop_front b q).0 ++ (pop_front b q).1.queue
  pop_front-queue b [] h = sym h
  pop_front-queue b (x ∷ q) h = rw (append_nil q)

  waited :
      (c : Bool) (b : RingBuffer A) (q : List A)
      → (if not (c || not (is_empty q))
          then (none, b)
          else if is_empty q
          then (none, b)
          else pop_front b q)
        ≡ pop_front b q
  waited true b [] = refl
  waited false b [] = refl
  waited true b (x ∷ q) = refl
  waited false b (x ∷ q) = refl

  pop_wait-pop : (b : RingBuffer A) → pop_wait b ≡ pop b
  unfolding pop_wait pop
  pop_wait-pop b = waited b.closed b b.queue

  abbrev unless : Bool → RingBuffer A → RingBuffer A → Bool × RingBuffer A
  unless full b b' = if full then (false, b) else (true, b')

  pushed :
      (full : Bool) (b b' : RingBuffer A) (x : A)
      → b'.queue ≡ b.queue ++ (x ∷ [])
      → b.queue ++ if_accepted (unless full b b').0 x ≡ (unless full b b').1.queue
  pushed true b b' x h = append_nil b.queue
  pushed false b b' x h = sym h

  await_lem : (b : RingBuffer A) → b.queue ++ [] ≡ to_list (pop_wait b).0 ++ (pop_wait b).1.queue
  unfolding pop
  await_lem b = rw (pop_wait-pop b) (pop_front-queue b b.queue refl)

  call_lem :
      (b : RingBuffer A) (c : Call A) → b.queue ++ accepted b c ≡ removed b c ++ (call b c).queue
  unfolding call accepted removed push pop pop_wait close clear reset
  call_lem b (offer x) = pushed (b.closed || leb b.capacity (length b.queue)) b _ x refl
  call_lem b poll = pop_front-queue b b.queue refl
  call_lem b await = await_lem b
  call_lem b shut = append_nil b.queue
  call_lem b discard = refl
  call_lem b reopen = refl

  -- Nothing is lost, doubled or reordered: what was in the buffer and what it accepted is what it gave
  -- out or threw away, followed by what is in it.
  pub run_lem :
      (b : RingBuffer A) (cs : List (Call A))
      → b.queue ++ all_accepted b cs ≡ all_removed b cs ++ (run b cs).queue
  unfolding run all_accepted all_removed
  run_lem b [] = append_nil b.queue
  run_lem b (c ∷ cs) =
      sym (append_assoc b.queue (accepted b c) (all_accepted (call b c) cs))
      ∙ ap (λ q. q ++ all_accepted (call b c) cs) (call_lem b c)
      ∙ append_assoc (removed b c) (call b c).queue (all_accepted (call b c) cs)
      ∙ ap (λ q. removed b c ++ q) (run_lem (call b c) cs)
      ∙ sym (append_assoc (removed b c) (all_removed (call b c) cs) (run (call b c) cs).queue)

  call-capacity :
      (b : RingBuffer A) (c : Call A)
      → length b.queue ≤ b.capacity
      → ((call b c).capacity ≡ b.capacity) × (length (call b c).queue ≤ b.capacity)
  unfolding call push pop pop_wait close clear reset
  call-capacity b (offer x) h = ground (arith, length-append b.queue (x ∷ []))
  call-capacity b poll h = ground arith
  call-capacity b await h = ground arith
  call-capacity b shut h = ground arith
  call-capacity b discard h = ground arith
  call-capacity b reopen h = ground arith

  -- The buffer never holds more than its capacity.
  pub run-capacity :
      (b : RingBuffer A) (cs : List (Call A))
      → length b.queue ≤ b.capacity
      → length (run b cs).queue ≤ b.capacity
  unfolding run
  run-capacity b [] h = h
  run-capacity b (c ∷ cs) h = ground (arith, call-capacity b c h, run-capacity (call b c) cs)
