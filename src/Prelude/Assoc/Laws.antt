-- ===== src/Prelude/Assoc/Laws.antt =====
-- The laws of maps, for any key type, with no condition on the order of the entries.
use Prim.Native.Nat.{suc, ◌+◌}
use mathlib.Core.Path.{◌≡◌, refl, subst}
use mathlib.Core.Logic.{inl, inr}
use mathlib.Core.Bool.{true, false, not, ◌&&◌, ◌||◌}
use mathlib.Core.Option.{none, some}
use mathlib.Core.List.{List, [], ◌∷◌, ◌++◌}
use native.Mathlib.Omega.{arith}
use meeting_system.Prelude.Tests.{if◌then◌else◌, Bool-cases}
use meeting_system.Prelude.Lists.{length}
use meeting_system.Prelude.Assoc.{Eq, lookup, contains, insert, erase, Unique, is_some, keys}

module _ {ℓ} {A : Type ℓ} ⦃e : Eq A⦄ where
  pub beq_refl : (a : A) → e.beq a a ≡ true
  beq_refl a = (e.beq_iff a a).1 refl

  pub beq_sym : (a b : A) → e.beq a b ≡ e.beq b a
  beq_sym a b = ground (arith, e.beq_iff a b, e.beq_iff b a)

module _ {ℓ κ} {K : Type ℓ} {V : Type κ} ⦃e : Eq K⦄ where
  pub contains-lookup : (k : K) (m : List (K × V)) → contains k m ≡ is_some (lookup k m)
  unfolding contains lookup
  contains-lookup k [] = refl
  contains-lookup k ((j, v) ∷ m) = ground (arith, contains-lookup k m)

  pub lookup-insert :
      (k j : K) (v : V) (m : List (K × V))
      → lookup j (insert k v m) ≡ (if e.beq k j then some v else lookup j m)
  unfolding lookup insert
  lookup-insert k j v [] = refl
  lookup-insert k j v ((i, w) ∷ m) =
      ground (arith, e.beq_iff k j, e.beq_iff i k, e.beq_iff i j, lookup-insert k j v m)

  pub contains-insert :
      (k j : K) (v : V) (m : List (K × V)) → contains j (insert k v m) ≡ (e.beq k j || contains j m)
  unfolding contains insert
  contains-insert k j v [] = ground arith
  contains-insert k j v ((i, w) ∷ m) =
      ground (arith, e.beq_iff k j, e.beq_iff i k, e.beq_iff i j, contains-insert k j v m)

  pub lookup-erase :
      (k j : K) (m : List (K × V)) → lookup j (erase k m) ≡ (if e.beq k j then none else lookup j m)
  unfolding lookup erase
  lookup-erase k j [] = ground arith
  lookup-erase k j ((i, w) ∷ m) =
      ground (arith, e.beq_iff k j, e.beq_iff i k, e.beq_iff i j, lookup-erase k j m)

  pub contains-erase :
      (k j : K) (m : List (K × V)) → contains j (erase k m) ≡ (not (e.beq k j) && contains j m)
  unfolding contains erase
  contains-erase k j [] = ground arith
  contains-erase k j ((i, w) ∷ m) =
      ground (arith, e.beq_iff k j, e.beq_iff i k, e.beq_iff i j, contains-erase k j m)

  pub Unique-insert : (k : K) (v : V) (m : List (K × V)) → Unique m → Unique (insert k v m)
  unfolding insert
  Unique-insert k v [] u = unfold contains in (refl, tt)
  Unique-insert k v ((i, w) ∷ m) u =
      ground (arith, beq_sym i k, contains-insert k i v m, Unique-insert k v m u.1)

  pub Unique-erase : (k : K) (m : List (K × V)) → Unique m → Unique (erase k m)
  unfolding erase
  Unique-erase k [] u = tt
  Unique-erase k ((i, w) ∷ m) u = ground (arith, contains-erase k i m, Unique-erase k m u.1)

  pub length-insert :
      (k : K) (v : V) (m : List (K × V))
      → length (insert k v m) ≡ (if contains k m then length m else suc (length m))
  unfolding insert contains
  length-insert k v [] = refl
  length-insert k v ((i, w) ∷ m) = ground (arith, length-insert k v m)

  -- Where the key is absent nothing is erased.
  pub erase_absent : (k : K) (m : List (K × V)) → contains k m ≡ false → erase k m ≡ m
  unfolding erase contains
  erase_absent k [] h = refl
  erase_absent k ((i, w) ∷ m) h = ground (arith, erase_absent k m)

  pub length-erase :
      (k : K) (m : List (K × V))
      → Unique m
      → length m ≡ length (erase k m) + (if contains k m then 1 else 0)
  unfolding erase contains
  length-erase k [] u = refl
  length-erase k ((i, w) ∷ m) u =
      ground (arith, e.beq_iff i k, length-erase k m u.1, erase_absent k m)

  pub keys-insert_present :
      (k : K) (v : V) (m : List (K × V)) → contains k m ≡ true → keys (insert k v m) ≡ keys m
  unfolding insert contains
  keys-insert_present k v [] h = cc
  keys-insert_present k v ((i, w) ∷ m) h = ground (arith, keys-insert_present k v m)

  pub keys-insert_absent :
      (k : K) (v : V) (m : List (K × V))
      → contains k m ≡ false
      → keys (insert k v m) ≡ keys m ++ (k ∷ [])
  unfolding insert contains
  keys-insert_absent k v [] h = refl
  keys-insert_absent k v ((i, w) ∷ m) h = ground (arith, keys-insert_absent k v m)

-- A property of every entry of a map.
module _ {ℓ κ μ} {K : Type ℓ} {V : Type κ} ⦃e : Eq K⦄ (P : K → V → Type μ) where
  abbrev pub Everywhere : List (K × V) → Type (ℓ ⊔ κ ⊔ μ)
  Everywhere m = (k : K) (v : V) → lookup k m ≡ some v → P k v

  pub Everywhere-nil : Everywhere []
  unfolding lookup
  Everywhere-nil k v h = absurd (none-ne-some h)
    where
      none-ne-some : none ≡ some v → ⊥
      none-ne-some q = cc

  pub Everywhere-insert :
      (k : K) (v : V) (m : List (K × V)) → P k v → Everywhere m → Everywhere (insert k v m)
  Everywhere-insert k v m p h j w found = elim (Bool-cases (e.beq k j)) [
    | inl same ↦
        subst (λ x. P x w) ((e.beq_iff k j).0 same)
          (subst (P k) (ground (arith, same, lookup-insert k j v m)) p)
    | inr other ↦ h j w (ground (arith, other, lookup-insert k j v m))
  ]

  pub Everywhere-erase : (k : K) (m : List (K × V)) → Everywhere m → Everywhere (erase k m)
  Everywhere-erase k m h j w found = elim (Bool-cases (e.beq k j)) [
    | inl same ↦ absurd (clash (ground (arith, same, lookup-erase k j m)))
    | inr other ↦ h j w (ground (arith, other, lookup-erase k j m))
  ]
    where
      clash : none ≡ some w → ⊥
      clash q = cc

  -- Where no key occurs twice, what holds everywhere holds of the first entry and of the rest.
  pub Everywhere-head : (k : K) (v : V) (m : List (K × V)) → Everywhere ((k, v) ∷ m) → P k v
  unfolding lookup
  Everywhere-head k v m h = h k v (rw (beq_refl k))

  pub Everywhere-tail :
      (k : K) (v : V) (m : List (K × V))
      → contains k m ≡ false
      → Everywhere ((k, v) ∷ m)
      → Everywhere m
  unfolding lookup
  Everywhere-tail k v m absent h j w found =
      h j w (ground (arith, e.beq_iff k j, contains-lookup k m, absent, found))
