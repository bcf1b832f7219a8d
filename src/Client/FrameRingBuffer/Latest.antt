-- ===== src/Client/FrameRingBuffer/Latest.antt =====
-- VideoSendFrameRingBuffer holds the latest frames.
use meeting_system.Prelude.{
  ℕ, suc, ◌-◌, ◌≤◌, ◌≡◌, refl, sym, ap, ◌∙◌, false, List, [], ◌∷◌, ◌++◌, leb, if◌then◌else◌, length,
  length-append, drop, arith,
}
use meeting_system.Client.FrameRingBuffer.{VideoSendFrameRingBuffer, pop_front, push}

module _ {ℓ} {A : Type ℓ} where
  -- The last `n` elements.
  unfoldable pub latest : ℕ → List A → List A
  latest n xs = drop (length xs - n) xs

  unfoldable pub push_all : VideoSendFrameRingBuffer A → List A → VideoSendFrameRingBuffer A
  push_all b [] = b
  push_all b (x ∷ xs) = push_all (push b x).1 xs

difference : (n m : ℕ) → n ≤ m → suc m - n ≡ suc (m - n)
difference n m h = omega arith

no_excess : (n m : ℕ) → m ≤ n → m - n ≡ 0
no_excess n m h = omega arith

module _ {A : Type 0} where
  latest-cons : (n : ℕ) (x : A) (ys : List A) → n ≤ length ys → latest n (x ∷ ys) ≡ latest n ys
  unfolding latest
  latest-cons n x ys h = ap (λ k. drop k (x ∷ ys)) (difference n (length ys) h)

  latest-short : (n : ℕ) (xs : List A) → length xs ≤ n → latest n xs ≡ xs
  unfolding latest
  latest-short n xs h = ap (λ k. drop k xs) (no_excess n (length xs) h)

  append_nil : (xs : List A) → xs ++ [] ≡ xs
  append_nil [] = refl
  append_nil (x ∷ xs) = rw (append_nil xs)

  append_one : (xs ys : List A) (x : A) → (xs ++ (x ∷ [])) ++ ys ≡ xs ++ (x ∷ ys)
  append_one [] ys x = refl
  append_one (z ∷ xs) ys x = rw (append_one xs ys x)

  -- One push into an open buffer, on the frames alone.
  abbrev pushed : ℕ → List A → A → List A
  pushed n frames x = (if leb n (length frames) then pop_front frames else frames) ++ (x ∷ [])

  latest-pushed :
      (n : ℕ) (frames xs : List A) (x : A)
      → 1 ≤ n
      → length frames ≤ n
      → (latest n (pushed n frames x ++ xs) ≡ latest n (frames ++ (x ∷ xs)))
        × (length (pushed n frames x) ≤ n)
  latest-pushed n [] xs x one h = ground (arith)
  latest-pushed n (f ∷ frames) xs x one h = ground (
    arith,
    append_one frames xs x,
    latest-cons n f ((frames ++ (x ∷ [])) ++ xs),
    length-append (frames ++ (x ∷ [])) xs,
    length-append frames (x ∷ []),
  )

  push_open :
      (b : VideoSendFrameRingBuffer A) (x : A)
      → b.closed ≡ false
      → (push b x).1 ≡ record b { frames = pushed b.capacity b.frames x }
  unfolding push
  push_open b x opened = rw opened

  -- Whatever is pushed into an open buffer that holds no more than its capacity, it then holds the
  -- last frames, as many as its capacity, of those that it held and those that were pushed.
  pub push_all-latest :
      (b : VideoSendFrameRingBuffer A) (xs : List A)
      → b.closed ≡ false
      → 1 ≤ b.capacity
      → length b.frames ≤ b.capacity
      → (push_all b xs).frames ≡ latest b.capacity (b.frames ++ xs)
  unfolding push_all
  push_all-latest b [] opened one h =
      rw (append_nil b.frames) (sym (latest-short b.capacity b.frames h))
  push_all-latest b (x ∷ xs) opened one h =
      let step = latest-pushed b.capacity b.frames xs x one h in
      rw (push_open b x opened, push_all)
        (push_all-latest (record b { frames = pushed b.capacity b.frames x }) xs opened one step.1
          ∙ step.0)
