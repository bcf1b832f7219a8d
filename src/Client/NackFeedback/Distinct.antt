-- ===== src/Client/NackFeedback/Distinct.antt =====
-- The lost sequence numbers, sorted and each once.
use meeting_system.Prelude.{
  ℕ, ◌+◌, ◌≤◌, ◌<◌, ◌≡◌, refl, ◌∙◌, List, [], ◌∷◌, ◌||◌, ◌==◌, length, arith,
}
use meeting_system.Client.NackFeedback.{place, sort_sequences, drop_equal, unique}
use meeting_system.Client.NackFeedback.Marks.{AreBetween, mem}
use meeting_system.Client.NackFeedback.Blocks.{AreIncreasing}

-- Numbers of 16 bits, each at least the one before.
abbrev AreSorted : ℕ → List ℕ → Type 0
AreSorted low [] = Unit {0}
AreSorted low (x ∷ xs) = (low ≤ x) × (x ≤ 65535) × AreSorted x xs

abbrev pub AreSequences : List ℕ → Type 0
AreSequences [] = Unit {0}
AreSequences (x ∷ xs) = (x < 65536) × AreSequences xs

place-AreSorted :
    (low x : ℕ) (xs : List ℕ) → low ≤ x → x ≤ 65535 → AreSorted low xs → AreSorted low (place x xs)
unfolding place
place-AreSorted low x [] l h s = (l, h, tt)
place-AreSorted low x (y ∷ ys) l h s =
    ground (arith, l, h, s, λ (above : y ≤ x). place-AreSorted y x ys above h s.2)

sort_sequences-AreSorted : (xs : List ℕ) → AreSequences xs → AreSorted 0 (sort_sequences xs)
unfolding sort_sequences
sort_sequences-AreSorted [] h = tt
sort_sequences-AreSorted (x ∷ xs) h =
    place-AreSorted 0 x (sort_sequences xs) (omega arith) (omega (arith, h.0))
      (sort_sequences-AreSorted xs h.1)

drop_equal-AreBetween :
    (x : ℕ) (ys : List ℕ) → AreSorted x ys → AreBetween x 65535 (drop_equal x ys)
unfolding drop_equal
drop_equal-AreBetween x [] s = tt
drop_equal-AreBetween x (y ∷ ys) s = ground (
  arith,
  s,
  drop_equal-AreBetween y ys s.2,
  λ (same : x ≡ y). drop_equal-AreBetween x ys (rw same s.2),
)

unique-AreIncreasing : (low : ℕ) (xs : List ℕ) → AreSorted low xs → AreIncreasing (unique xs)
unfolding unique
unique-AreIncreasing low [] s = tt
unique-AreIncreasing low (x ∷ xs) s = (s.1, drop_equal-AreBetween x xs s.2)

pub distinct-AreIncreasing :
    (xs : List ℕ) → AreSequences xs → AreIncreasing (unique (sort_sequences xs))
distinct-AreIncreasing xs h =
    unique-AreIncreasing 0 (sort_sequences xs) (sort_sequences-AreSorted xs h)

mem-place : (z x : ℕ) (xs : List ℕ) → mem z (place x xs) ≡ (z == x || mem z xs)
unfolding place
mem-place z x [] = refl
mem-place z x (y ∷ ys) = ground (arith, mem-place z x ys)

mem-sort_sequences : (z : ℕ) (xs : List ℕ) → mem z (sort_sequences xs) ≡ mem z xs
unfolding sort_sequences
mem-sort_sequences z [] = refl
mem-sort_sequences z (x ∷ xs) =
    ground (arith, mem-place z x (sort_sequences xs), mem-sort_sequences z xs)

mem-drop_equal :
    (z x : ℕ) (ys : List ℕ) → (z == x || mem z (drop_equal x ys)) ≡ (z == x || mem z ys)
unfolding drop_equal
mem-drop_equal z x [] = refl
mem-drop_equal z x (y ∷ ys) = ground (arith, mem-drop_equal z x ys, mem-drop_equal z y ys)

mem-unique : (z : ℕ) (xs : List ℕ) → mem z (unique xs) ≡ mem z xs
unfolding unique
mem-unique z [] = refl
mem-unique z (x ∷ xs) = mem-drop_equal z x xs

pub mem-distinct : (z : ℕ) (xs : List ℕ) → mem z (unique (sort_sequences xs)) ≡ mem z xs
mem-distinct z xs = mem-unique z (sort_sequences xs) ∙ mem-sort_sequences z xs

length-place : (x : ℕ) (xs : List ℕ) → length (place x xs) ≡ length xs + 1
unfolding place
length-place x [] = refl
length-place x (y ∷ ys) = ground (arith, length-place x ys)

length-sort_sequences : (xs : List ℕ) → length (sort_sequences xs) ≡ length xs
unfolding sort_sequences
length-sort_sequences [] = refl
length-sort_sequences (x ∷ xs) =
    omega (arith, length-place x (sort_sequences xs), length-sort_sequences xs)

length-drop_equal : (x : ℕ) (ys : List ℕ) → length (drop_equal x ys) ≤ length ys
unfolding drop_equal
length-drop_equal x [] = omega arith
length-drop_equal x (y ∷ ys) = ground (arith, length-drop_equal x ys, length-drop_equal y ys)

length-unique :
    (xs : List ℕ) → (length (unique xs) ≤ length xs) × (0 < length xs → 0 < length (unique xs))
unfolding unique
length-unique [] = (omega arith, λ h. h)
length-unique (x ∷ xs) = (omega (arith, length-drop_equal x xs), λ h. omega arith)

pub length-distinct :
    (xs : List ℕ)
    → (length (unique (sort_sequences xs)) ≤ length xs)
      × (0 < length xs → 0 < length (unique (sort_sequences xs)))
length-distinct xs =
    let sorted = length-sort_sequences xs in
    let kept = length-unique (sort_sequences xs) in
    (omega (arith, sorted, kept.0), λ h. kept.1 (omega (arith, h, sorted)))
