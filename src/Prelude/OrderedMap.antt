-- ===== src/Prelude/OrderedMap.antt =====
-- `std::map` on numbers: a list of the entries in the order of their keys.
use Prim.Native.Nat.{ℕ, ◌+◌, ◌≤◌, ◌<◌}
use mathlib.Core.Path.{◌≡◌, refl}
use mathlib.Core.Option.{Option, none, some}
use mathlib.Core.List.{List, [], ◌∷◌}
use native.Mathlib.Omega.{arith}
use meeting_system.Prelude.Tests.{ltb, ◌==◌, if◌then◌else◌}
use meeting_system.Prelude.Lists.{length}

module _ {ℓ} {V : Type ℓ} where
  unfoldable pub find : ℕ → List (ℕ × V) → Option V
  find k [] = none
  find k ((j, v) ∷ m) = if j == k then some v else find k m

  unfoldable pub put : ℕ → V → List (ℕ × V) → List (ℕ × V)
  put k v [] = (k, v) ∷ []
  put k v ((j, w) ∷ m) =
      let rest = put k v m in
      if k == j then (k, v) ∷ m else if ltb k j then (k, v) ∷ (j, w) ∷ m else (j, w) ∷ rest

  unfoldable pub remove : ℕ → List (ℕ × V) → List (ℕ × V)
  remove k [] = []
  remove k ((j, w) ∷ m) = let rest = remove k m in if j == k then m else (j, w) ∷ rest

  abbrev pub without_first : List (ℕ × V) → List (ℕ × V)
  without_first [] = []
  without_first (x ∷ m) = m

  abbrev pub IsAbove : ℕ → List (ℕ × V) → Type 0
  IsAbove k [] = Unit {0}
  IsAbove k ((j, w) ∷ m) = (k < j) × IsAbove k m

  abbrev pub IsOrdered : List (ℕ × V) → Type 0
  IsOrdered [] = Unit {0}
  IsOrdered ((j, w) ∷ m) = IsAbove j m × IsOrdered m

module _ {ℓ} {V : Type ℓ} where
  IsAbove-put : (k j : ℕ) (v : V) (m : List (ℕ × V)) → k < j → IsAbove k m → IsAbove k (put j v m)
  unfolding put
  IsAbove-put k j v [] h above = (h, tt)
  IsAbove-put k j v ((i, w) ∷ m) h above = ground (arith, above, h, IsAbove-put k j v m h above.1)

  IsAbove-le : (i j : ℕ) (m : List (ℕ × V)) → i ≤ j → IsAbove j m → IsAbove i m
  IsAbove-le i j [] h above = tt
  IsAbove-le i j ((k, w) ∷ m) h above = (omega (arith, above.0), IsAbove-le i j m h above.1)

  pub put-IsOrdered : (k : ℕ) (v : V) (m : List (ℕ × V)) → IsOrdered m → IsOrdered (put k v m)
  unfolding put
  put-IsOrdered k v [] h = (tt, tt)
  put-IsOrdered k v ((j, w) ∷ m) h = ground (
    arith,
    h,
    put-IsOrdered k v m h.1,
    λ (below : k < j). IsAbove-le k j m (omega arith) h.0,
    λ (above : j < k). IsAbove-put j k v m above h.0,
  )

  IsAbove-remove : (k j : ℕ) (m : List (ℕ × V)) → IsAbove k m → IsAbove k (remove j m)
  unfolding remove
  IsAbove-remove k j [] above = tt
  IsAbove-remove k j ((i, w) ∷ m) above = ground (arith, above, IsAbove-remove k j m above.1)

  pub remove-IsOrdered : (k : ℕ) (m : List (ℕ × V)) → IsOrdered m → IsOrdered (remove k m)
  unfolding remove
  remove-IsOrdered k [] h = tt
  remove-IsOrdered k ((j, w) ∷ m) h =
      ground (arith, h, remove-IsOrdered k m h.1, IsAbove-remove j k m h.0)

  pub without_first-IsOrdered : (m : List (ℕ × V)) → IsOrdered m → IsOrdered (without_first m)
  without_first-IsOrdered [] h = tt
  without_first-IsOrdered (x ∷ m) h = h.1

  find-IsAbove : (k j : ℕ) (m : List (ℕ × V)) → k ≤ j → IsAbove j m → find k m ≡ none
  unfolding find
  find-IsAbove k j [] h above = refl
  find-IsAbove k j ((i, w) ∷ m) h above = ground (arith, above, find-IsAbove k j m h above.1)

  pub find-put :
      (k j : ℕ) (v : V) (m : List (ℕ × V))
      → find j (put k v m) ≡ (if k == j then some v else find j m)
  unfolding find put
  find-put k j v [] = ground arith
  find-put k j v ((i, w) ∷ m) = ground (arith, find-put k j v m)

  pub find-remove :
      (k j : ℕ) (m : List (ℕ × V))
      → IsOrdered m
      → find j (remove k m) ≡ (if k == j then none else find j m)
  unfolding find remove
  find-remove k j [] h = ground arith
  find-remove k j ((i, w) ∷ m) h = ground (arith, h, find-remove k j m h.1, find-IsAbove j i m)

  pub length-put : (k : ℕ) (v : V) (m : List (ℕ × V)) → length (put k v m) ≤ length m + 1
  unfolding put
  length-put k v [] = omega arith
  length-put k v ((j, w) ∷ m) = ground (arith, length-put k v m)

  pub length-remove : (k : ℕ) (m : List (ℕ × V)) → length (remove k m) ≤ length m
  unfolding remove
  length-remove k [] = omega arith
  length-remove k ((j, w) ∷ m) = ground (arith, length-remove k m)

  -- A key below all others comes first.
  pub put-first : (k : ℕ) (v : V) (m : List (ℕ × V)) → IsAbove k m → put k v m ≡ (k, v) ∷ m
  unfolding put
  put-first k v [] above = refl
  put-first k v ((j, w) ∷ m) above = ground (arith, above)
