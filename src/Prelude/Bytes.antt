-- ===== src/Prelude/Bytes.antt =====
-- Byte buffers as lists of numbers below 256, their big-endian fields, and checked reads.
use Prim.Native.Nat.{ℕ, zero, suc, ◌+◌, ◌*◌, ◌/◌, ◌%◌, ◌<◌}
use mathlib.Core.Path.{◌≡◌, refl, ap, ◌∙◌}
use mathlib.Core.Logic.{◌⊎◌, inl, inr}
use mathlib.Core.Bool.{Bool, true, false}
use mathlib.Core.List.{List, [], ◌∷◌, ◌++◌}
use native.Mathlib.Omega.{arith}
use meeting_system.Prelude.Tests.{ltb, leb, if◌then◌else◌}
use meeting_system.Prelude.Lists.{length, take, drop, get_or}

-- What a parser answers: a value, a refusal, or a read outside the buffer, which is undefined
-- behaviour in the source.
pub data Read {ℓ} (A : Type ℓ) : Type ℓ where
  ok : A → Read A
  reject : Read A
  fault : Read A

infixl 5 ◌>>=◌ ◌>>◌
abbrev pub ◌>>=◌ {ℓ κ} : {A : Type ℓ} {B : Type κ} → Read A → (A → Read B) → Read B
ok a >>= f = f a
reject >>= f = reject
fault >>= f = fault

abbrev pub ◌>>◌ {ℓ} : {B : Type ℓ} → Read (Unit {0}) → Read B → Read B
m >> k = m >>= λ _. k

-- An early `return false` unless the test holds.
abbrev pub require : Bool → Read (Unit {0})
require true = ok tt
require false = reject

abbrev pub byte_at : List ℕ → ℕ → ℕ
byte_at xs i = get_or xs i 0

abbrev pub be16 : ℕ → ℕ → ℕ
be16 a b = a * 256 + b

abbrev pub be32 : ℕ → ℕ → ℕ → ℕ → ℕ
be32 a b c d = a * 16777216 + b * 65536 + c * 256 + d

-- `p[i]`, a fault outside the buffer.
abbrev pub read_u8 : List ℕ → ℕ → Read ℕ
read_u8 xs i = if ltb i (length xs) then ok (byte_at xs i) else fault

-- `ReadU16(p + i)` and `ReadU32(p + i)`.
abbrev pub read_u16 : List ℕ → ℕ → Read ℕ
read_u16 xs i =
    if ltb (i + 1) (length xs) then ok (be16 (byte_at xs i) (byte_at xs (i + 1))) else fault

abbrev pub read_u32 : List ℕ → ℕ → Read ℕ
read_u32 xs i =
    if ltb (i + 3) (length xs)
    then ok (be32 (byte_at xs i) (byte_at xs (i + 1)) (byte_at xs (i + 2)) (byte_at xs (i + 3)))
    else fault

-- The bytes of a 16-bit and of a 32-bit number, most significant first.
abbrev pub put16 : ℕ → List ℕ
put16 v = v / 256 % 256 ∷ v % 256 ∷ []

abbrev pub put32 : ℕ → List ℕ
put32 v = v / 16777216 % 256 ∷ v / 65536 % 256 ∷ v / 256 % 256 ∷ v % 256 ∷ []

abbrev pub AreBytes : List ℕ → Type 0
AreBytes [] = Unit {0}
AreBytes (x ∷ xs) = (x < 256) × AreBytes xs

pub byte_at-lt : (xs : List ℕ) (i : ℕ) → AreBytes xs → byte_at xs i < 256
byte_at-lt [] i h = omega arith
byte_at-lt (x ∷ xs) zero h = h.0
byte_at-lt (x ∷ xs) (suc i) h = byte_at-lt xs i h.1

pub AreBytes-append : (xs ys : List ℕ) → AreBytes xs → AreBytes ys → AreBytes (xs ++ ys)
AreBytes-append [] ys h k = k
AreBytes-append (x ∷ xs) ys h k = (h.0, AreBytes-append xs ys h.1 k)

pub Read-cases {ℓ} :
    {A : Type ℓ} (r : Read A) → ((a : A) × (r ≡ ok a)) ⊎ ((r ≡ reject) ⊎ (r ≡ fault))
Read-cases (ok a) = inl (a, refl)
Read-cases reject = inr (inl refl)
Read-cases fault = inr (inr refl)

pub not_both {ℓ} : {A : Type ℓ} (r : Read A) {a : A} → (r ≡ reject) ⊎ (r ≡ fault) → r ≡ ok a → ⊥
not_both r e o = ground arith

pub drop-cons : (i : ℕ) (xs : List ℕ) → i < length xs → drop i xs ≡ byte_at xs i ∷ drop (suc i) xs
drop-cons i [] h = absurd (omega arith)
drop-cons zero (x ∷ xs) h = refl
drop-cons (suc i) (x ∷ xs) h = drop-cons i xs (omega arith)

-- The bytes of a big-endian number are the bytes that it was read from.
pub put16-be16 : (a b : ℕ) → a < 256 → b < 256 → put16 (be16 a b) ≡ a ∷ b ∷ []
put16-be16 a b ha hb = ground arith

pub put32-be32 :
    (a b c d : ℕ)
    → a < 256
    → b < 256
    → c < 256
    → d < 256
    → put32 (be32 a b c d) ≡ a ∷ b ∷ c ∷ d ∷ []
put32-be32 a b c d ha hb hc hd = ground arith

-- The parser answers with a value.
abbrev pub is_ok {ℓ} : {A : Type ℓ} → Read A → Bool
is_ok (ok a) = true
is_ok reject = false
is_ok fault = false

pub ok_of_is_ok {ℓ} : {A : Type ℓ} (r : Read A) → is_ok r ≡ true → (a : A) × (r ≡ ok a)
ok_of_is_ok (ok a) h = (a, refl)
ok_of_is_ok reject h = cc
ok_of_is_ok fault h = cc

zero-add : (i : ℕ) → 0 + i ≡ i
zero-add i = omega arith

suc-add : (n i : ℕ) → suc n + i ≡ suc (n + i)
suc-add n i = omega arith

pub byte_at-append : (pre xs : List ℕ) (i : ℕ) → byte_at (pre ++ xs) (length pre + i) ≡ byte_at xs i
byte_at-append [] xs i = ap (byte_at xs) (zero-add i)
byte_at-append (p ∷ pre) xs i =
    ap (byte_at (p ∷ pre ++ xs)) (suc-add (length pre) i) ∙ byte_at-append pre xs i

pub append_assoc : (xs ys zs : List ℕ) → (xs ++ ys) ++ zs ≡ xs ++ (ys ++ zs)
append_assoc [] ys zs = refl
append_assoc (x ∷ xs) ys zs = rw (append_assoc xs ys zs)

-- `n` bytes from `p + i` on, a fault if they are not all in the buffer.
abbrev pub read_bytes : List ℕ → ℕ → ℕ → Read (List ℕ)
read_bytes xs i n = if leb (i + n) (length xs) then ok (take n (drop i xs)) else fault
