-- ===== src/Prelude/Sort.antt =====
-- `std::sort` on strings: the library promises the sorted arrangement of what it is given, and an
-- insertion sort computes it.
use mathlib.Core.List.{Perm}
use mathlib.Core.List.Perm
use mathlib.Core.Path.{◌≡◌, refl}
use mathlib.Core.Bool.{Bool, true, false, ◌&&◌, ◌||◌}
use mathlib.Core.Logic.{inl, inr}
use mathlib.Core.List.{List, [], ◌∷◌}
use native.Mathlib.Omega.{arith}
use meeting_system.Prelude.Tests.{ltb, ◌==◌, if◌then◌else◌, Bool-cases}
use meeting_system.Prelude.Assoc.{Text}

-- `a <= b`, byte by byte.
unfoldable pub text_leb : Text → Text → Bool
text_leb [] ys = true
text_leb (x ∷ xs) [] = false
text_leb (x ∷ xs) (y ∷ ys) = ltb x y || (x == y && text_leb xs ys)

text_leb_total : (a b : Text) → text_leb a b ≡ false → text_leb b a ≡ true
unfolding text_leb
text_leb_total [] ys h = cc
text_leb_total (x ∷ xs) [] h = refl
text_leb_total (x ∷ xs) (y ∷ ys) h = ground (arith, text_leb_total xs ys)

unfoldable pub place : Text → List Text → List Text
place a [] = a ∷ []
place a (b ∷ bs) = if text_leb a b then a ∷ b ∷ bs else b ∷ place a bs

unfoldable pub sort : List Text → List Text
unfolding place text_leb
sort [] = []
sort (a ∷ rest) = place a (sort rest)

-- Each text is at most the next.
abbrev pub IsSorted : List Text → Type 0
IsSorted [] = Unit {0}
IsSorted (a ∷ []) = Unit {0}
IsSorted (a ∷ b ∷ bs) = (text_leb a b ≡ true) × IsSorted (b ∷ bs)

place-IsSorted : (a : Text) (bs : List Text) → IsSorted bs → IsSorted (place a bs)
unfolding place
place-IsSorted a [] h = tt
place-IsSorted a (b ∷ []) h = ground (arith, text_leb_total a b)
place-IsSorted a (b ∷ c ∷ bs) h =
    ground (arith, text_leb_total a b, text_leb_total a c, place-IsSorted a (c ∷ bs) h.1)

pub sort-IsSorted : (xs : List Text) → IsSorted (sort xs)
unfolding sort
sort-IsSorted [] = tt
sort-IsSorted (a ∷ xs) = place-IsSorted a (sort xs) (sort-IsSorted xs)

place-perm : (a : Text) (bs : List Text) → Perm (place a bs) (a ∷ bs)
unfolding place
place-perm a [] = Perm.refl (a ∷ [])
place-perm a (b ∷ bs) = elim (Bool-cases (text_leb a b)) [
  | inl low ↦ rw low (Perm.refl (a ∷ b ∷ bs))
  | inr high ↦ rw high (Perm.trans (Perm.cons b (place-perm a bs)) (Perm.swap a b bs))
]

pub sort-perm : (xs : List Text) → Perm (sort xs) xs
unfolding sort
sort-perm [] = Perm.refl []
sort-perm (a ∷ xs) = Perm.trans (place-perm a (sort xs)) (Perm.cons a (sort-perm xs))
