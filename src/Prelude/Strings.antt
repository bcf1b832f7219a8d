-- ===== src/Prelude/Strings.antt =====
-- The parts of the C++ library on strings that the program uses: `std::to_string`, `std::strtoul`
-- with base 10, `rfind` of a character, `substr`.
use meeting_system.Prelude.Tests.{ltb, leb, ◌==◌, if◌then◌else◌, Bool-cases}
use meeting_system.Prelude.Lists.{length, length-append}
use meeting_system.Prelude.Assoc.{Text}
use Prim.Native.Nat.{ℕ, zero, suc, ◌+◌, ◌-◌, ◌*◌, ◌/◌, ◌%◌, ◌<◌, ◌^◌}
use mathlib.Core.Path.{◌≡◌, refl}
use mathlib.Core.Logic.{inl, inr, ◌≢◌}
use mathlib.Core.Bool.{Bool, true, false, ◌&&◌, ◌||◌}
use mathlib.Core.Option.{Option, none, some}
use mathlib.Core.List.{[], ◌∷◌, ◌++◌}
use native.Mathlib.Omega.{arith}
use native.Mathlib.Nat.{pow-succ'}

-- The decimal digits, on fuel: a number has no more digits than its fuel.
unfoldable pub digits : ℕ → ℕ → Text
digits zero n = []
digits (suc fuel) n =
    let more = digits fuel (n / 10) ++ ((48 + n % 10) ∷ []) in
    if ltb n 10 then (48 + n) ∷ [] else more

-- `std::to_string` of an unsigned number of at most 64 bits.
unfoldable pub to_string : ℕ → Text
unfolding digits
to_string n = digits 20 n

abbrev pub is_digit : ℕ → Bool
is_digit c = leb 48 c && leb c 57

-- The digits from the front, read on top of `acc`.
unfoldable pub read_digits : ℕ → Text → ℕ
read_digits acc [] = acc
read_digits acc (c ∷ cs) =
    let more = read_digits (acc * 10 + (c - 48)) cs in if is_digit c then more else acc

abbrev pub is_space : ℕ → Bool
is_space c = c == 32 || (leb 9 c && leb c 13)

unfoldable pub skip_spaces : Text → Text
skip_spaces [] = []
skip_spaces (c ∷ cs) = if is_space c then skip_spaces cs else c ∷ cs

-- The largest answer for too large a number.
abbrev pub saturate : ℕ → ℕ
saturate n = if ltb 18446744073709551615 n then 18446744073709551615 else n

-- A sign is read; after a minus the number is negated in 64 bits.
unfoldable pub read_signed : Text → ℕ
unfolding read_digits
read_signed [] = 0
read_signed (c ∷ cs) =
    if c == b'+'
    then saturate (read_digits 0 cs)
    else if c == b'-'
    then if ltb 18446744073709551615 (read_digits 0 cs)
      then 18446744073709551615
      else (18446744073709551616 - read_digits 0 cs) % 18446744073709551616
    else saturate (read_digits 0 (c ∷ cs))

unfoldable pub strtoul : Text → ℕ
unfolding skip_spaces read_signed
strtoul text = read_signed (skip_spaces text)

-- `rfind(c)` with what `substr` makes of it: the text before the last `c`, and the text after it.
unfoldable pub split_last : ℕ → Text → Option (Text × Text)
split_last c [] = none
split_last c (x ∷ xs) = elim (split_last c xs) [
  | some (before, after) ↦ some (x ∷ before, after)
  | none ↦ if x == c then some ([], xs) else none
]

abbrev pub AreDigits : Text → Type 0
AreDigits [] = Unit {0}
AreDigits (c ∷ cs) = (is_digit c ≡ true) × AreDigits cs

AreDigits-append : (xs ys : Text) → AreDigits xs → AreDigits ys → AreDigits (xs ++ ys)
AreDigits-append [] ys h k = k
AreDigits-append (x ∷ xs) ys h k = (h.0, AreDigits-append xs ys h.1 k)

digits-AreDigits : (fuel n : ℕ) → AreDigits (digits fuel n)
unfolding digits
digits-AreDigits zero n = tt
digits-AreDigits (suc fuel) n = elim (Bool-cases (ltb n 10)) [
  | inl small ↦ rw small (ground arith, tt)
  | inr large ↦ rw large (
      AreDigits-append (digits fuel (n / 10)) ((48 + n % 10) ∷ []) (digits-AreDigits fuel (n / 10))
        (ground arith, tt))
]

read_digits-append :
    (xs : Text) (c acc : ℕ)
    → AreDigits xs
    → is_digit c ≡ true
    → read_digits acc (xs ++ (c ∷ [])) ≡ read_digits acc xs * 10 + (c - 48)
unfolding read_digits
read_digits-append [] c acc h k = ground arith
read_digits-append (x ∷ xs) c acc h k =
    ground (arith, h.0, read_digits-append xs c (acc * 10 + (x - 48)) h.1 k)

pow_suc : (b n : ℕ) → b ^ suc n ≡ b * b ^ n
pow_suc b n = pow-succ' b n

read_digits-digits : (fuel n : ℕ) → n < 10 ^ fuel → read_digits 0 (digits fuel n) ≡ n
unfolding digits
read_digits-digits zero n h = unfold read_digits in omega arith
read_digits-digits (suc fuel) n h = elim (Bool-cases (ltb n 10)) [
  | inl small ↦ rw small (unfold read_digits in ground arith)
  | inr large ↦ rw large (
      omega (
        arith,
        read_digits-append (digits fuel (n / 10)) (48 + n % 10) 0 (digits-AreDigits fuel (n / 10))
            (ground arith),
        read_digits-digits fuel (n / 10) (omega (arith, pow_suc 10 fuel)),
      ))
]

-- A text of digits has no space and no sign in front.
strtoul-AreDigits : (xs : Text) → AreDigits xs → strtoul xs ≡ saturate (read_digits 0 xs)
unfolding strtoul
strtoul-AreDigits [] h = unfold read_digits in refl
strtoul-AreDigits (x ∷ xs) h = ground (arith, h.0)

-- What `to_string` writes of a number of at most 64 bits, `strtoul` reads.
pub strtoul-to_string : (n : ℕ) → n < 2 ^ 64 → strtoul (to_string n) ≡ n
unfolding to_string
strtoul-to_string n h = ground (
  arith,
  strtoul-AreDigits (digits 20 n) (digits-AreDigits 20 n),
  read_digits-digits 20 n (omega arith),
)

abbrev pub Lacks : ℕ → Text → Type 0
Lacks c [] = Unit {0}
Lacks c (x ∷ xs) = ((x == c) ≡ false) × Lacks c xs

split_last-Lacks : (c : ℕ) (xs : Text) → Lacks c xs → split_last c xs ≡ none
unfolding split_last
split_last-Lacks c [] h = refl
split_last-Lacks c (x ∷ xs) h = rw (split_last-Lacks c xs h.1, split_last) (rw h.0)

-- The last `c` is the one after which there is none.
pub split_last-append :
    (c : ℕ) (xs ys : Text) → Lacks c ys → split_last c (xs ++ (c ∷ ys)) ≡ some (xs, ys)
unfolding split_last
split_last-append c [] ys h = rw (split_last-Lacks c ys h, split_last) (ground arith)
split_last-append c (x ∷ xs) ys h = rw (split_last-append c xs ys h, split_last) refl

AreDigits-Lacks : (c : ℕ) (xs : Text) → is_digit c ≡ false → AreDigits xs → Lacks c xs
AreDigits-Lacks c [] n h = tt
AreDigits-Lacks c (x ∷ xs) n h = (ground (arith, h.0), AreDigits-Lacks c xs n h.1)

-- Only digits are written.
pub to_string-Lacks : (c n : ℕ) → is_digit c ≡ false → Lacks c (to_string n)
unfolding to_string
to_string-Lacks c n h = AreDigits-Lacks c (digits 20 n) h (digits-AreDigits 20 n)

-- And at least one.
pub to_string-ne-nil : (n : ℕ) → length (to_string n) ≢ 0
unfolding to_string
to_string-ne-nil n = ground (arith, length-append (digits 19 (n / 10)) ((48 + n % 10) ∷ []))
