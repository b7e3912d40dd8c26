-- ===== src/Common/Collections.antt =====
-- Python's sets as lists: membership, `set(xs)`, the uniqueness test `len(xs) != len(set(xs))`,
-- and the intersection test `a & b`.
use Prim.Native.Nat.{◌≤◌}
use mathlib.Core.Path.{◌≡◌, refl}
use mathlib.Core.Logic.{◌↔◌}
use mathlib.Core.Bool.{Bool, true, false, ◌||◌}
use mathlib.Core.List.{List, [], ◌∷◌, ◌++◌}
use native.Mathlib.Omega.{arith}
use liki.Common.Tests.{if◌then◌else◌, nat_beq}
use liki.Common.Equality.{Comparable, ◌==◌}
use liki.Common.Lists.{length, any}

module _ {ℓ} {A : Type ℓ} ⦃e : Comparable A⦄ where
  -- `a in xs`
  abbrev pub contains : List A → A → Bool
  contains [] a = false
  contains (x ∷ xs) a = a == x || contains xs a

  -- `set(xs)`, in the order of the last occurrences
  abbrev pub to_set : List A → List A
  to_set [] = []
  to_set (x ∷ xs) = let rest = to_set xs in if contains xs x then rest else x ∷ rest

  -- `bool(set(xs) & set(ys))`
  abbrev pub intersects : List A → List A → Bool
  intersects xs ys = any (contains ys) xs

  -- No element occurs twice.
  abbrev pub Distinct : List A → Type 0
  Distinct [] = Unit
  Distinct (x ∷ xs) = (contains xs x ≡ false) × Distinct xs

  pub contains-to_set : (xs : List A) (a : A) → contains (to_set xs) a ≡ contains xs a
  contains-to_set [] a = refl
  contains-to_set (x ∷ xs) a =
      ground (arith, contains-to_set xs a, contains-to_set xs x, e.same_iff a x)

  pub to_set-Distinct : (xs : List A) → Distinct (to_set xs)
  to_set-Distinct [] = tt
  to_set-Distinct (x ∷ xs) = ground (arith, contains-to_set xs x, to_set-Distinct xs)

  pub length-to_set-le : (xs : List A) → length (to_set xs) ≤ length xs
  length-to_set-le [] = omega arith
  length-to_set-le (x ∷ xs) = ground (arith, length-to_set-le xs)

  pub length-to_set_of_Distinct : (xs : List A) → Distinct xs → length (to_set xs) ≡ length xs
  length-to_set_of_Distinct [] d = refl
  length-to_set_of_Distinct (x ∷ xs) d = ground (arith, length-to_set_of_Distinct xs d.1)

  pub Distinct-of_length : (xs : List A) → length (to_set xs) ≡ length xs → Distinct xs
  Distinct-of_length [] h = tt
  Distinct-of_length (x ∷ xs) h = ground (arith, length-to_set-le xs, Distinct-of_length xs)

  -- `len(xs) == len(set(xs))`
  abbrev pub all_distinct : List A → Bool
  all_distinct xs = nat_beq (length xs) (length (to_set xs))

  pub all_distinct_iff : (xs : List A) → (all_distinct xs ≡ true) ↔ Distinct xs
  all_distinct_iff xs = (
    λ h. Distinct-of_length xs (ground arith),
    λ d. ground (arith, length-to_set_of_Distinct xs d),
  )

  pub contains-append :
      (xs ys : List A) (a : A) → contains (xs ++ ys) a ≡ (contains xs a || contains ys a)
  contains-append [] ys a = refl
  contains-append (x ∷ xs) ys a = ground (arith, contains-append xs ys a)
