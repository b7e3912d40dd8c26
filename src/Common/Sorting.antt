-- ===== src/Common/Sorting.antt =====
-- Python's `sorted`: a stable sort, here by insertion, and the order of texts by code points.
use Prim.Native.Char.{code}
use Prim.Native.String.{String}
use mathlib.Core.Path.{◌≡◌, refl}
use mathlib.Core.Bool.{Bool, true, false}
use mathlib.Core.List.{List, [], ◌∷◌, Perm}
use mathlib.Core.List.Perm
use native.Mathlib.Omega.{arith}
use liki.Common.{if◌then◌else◌, ltb, nat_beq, Comparable, contains, Distinct, Bool-cases, inl, inr}

-- `s <= t` on texts.
unfoldable pub str_leb : String → String → Bool
str_leb String.[] t = true
str_leb (String.◌∷◌ c s) String.[] = false
str_leb (String.◌∷◌ c s) (String.◌∷◌ d t) =
    let rest = str_leb s t in
    if ltb (code c) (code d) then true else if nat_beq (code c) (code d) then rest else false

module _ {ℓ} {A : Type ℓ} (le : A → A → Bool) where
  unfoldable pub insert_by : A → List A → List A
  insert_by x [] = x ∷ []
  insert_by x (y ∷ ys) = let rest = insert_by x ys in if le x y then x ∷ y ∷ ys else y ∷ rest

  unfoldable pub sort_by : List A → List A
  unfolding insert_by
  sort_by [] = []
  sort_by (x ∷ xs) = insert_by x (sort_by xs)

  insert_by-perm : (x : A) (xs : List A) → Perm (insert_by x xs) (x ∷ xs)
  unfolding insert_by
  insert_by-perm x [] = Perm.refl (x ∷ [])
  insert_by-perm x (y ∷ ys) = elim (Bool-cases (le x y)) [
    | inl first ↦ rw first (Perm.refl (x ∷ y ∷ ys))
    | inr later ↦ rw later (Perm.trans (Perm.cons y (insert_by-perm x ys)) (Perm.swap x y ys))
  ]

  pub sort_by-perm : (xs : List A) → Perm (sort_by xs) xs
  unfolding sort_by
  sort_by-perm [] = Perm.refl []
  sort_by-perm (x ∷ xs) = Perm.trans (insert_by-perm x (sort_by xs)) (Perm.cons x (sort_by-perm xs))

  -- Each element is at most the one behind it.
  abbrev pub IsSorted : List A → Type 0
  IsSorted [] = Unit
  IsSorted (x ∷ []) = Unit
  IsSorted (x ∷ y ∷ ys) = (le x y ≡ true) × IsSorted (y ∷ ys)

module _ {ℓ} {A : Type ℓ} (le : A → A → Bool) ⦃e : Comparable A⦄ where
  contains-insert_by :
      (x a : A) (xs : List A) → contains (insert_by le x xs) a ≡ contains (x ∷ xs) a
  unfolding insert_by
  contains-insert_by x a [] = refl
  contains-insert_by x a (y ∷ ys) = ground (arith, contains-insert_by x a ys)

  pub contains-sort_by : (xs : List A) (a : A) → contains (sort_by le xs) a ≡ contains xs a
  unfolding sort_by
  contains-sort_by [] a = refl
  contains-sort_by (x ∷ xs) a =
      ground (arith, contains-insert_by x a (sort_by le xs), contains-sort_by xs a)

  insert_by-Distinct : (x : A) (xs : List A) → Distinct (x ∷ xs) → Distinct (insert_by le x xs)
  unfolding insert_by
  insert_by-Distinct x [] d = d
  insert_by-Distinct x (y ∷ ys) d =
      ground
        (arith, contains-insert_by x y ys, insert_by-Distinct x ys, e.same_iff y x, e.same_iff x y)

  pub sort_by-Distinct : (xs : List A) → Distinct xs → Distinct (sort_by le xs)
  unfolding sort_by
  sort_by-Distinct [] d = tt
  sort_by-Distinct (x ∷ xs) d =
      insert_by-Distinct x (sort_by le xs)
        (ground (arith, contains-sort_by xs x, sort_by-Distinct xs))

-- A total order puts the list in order.
module _ {ℓ} {A : Type ℓ} (le : A → A → Bool)
    (total : (x y : A) → le x y ≡ false → le y x ≡ true) where
  insert_by-IsSorted : (x : A) (xs : List A) → IsSorted le xs → IsSorted le (insert_by le x xs)
  unfolding insert_by
  insert_by-IsSorted x [] s = tt
  insert_by-IsSorted x (y ∷ []) s = ground (arith, total x y)
  insert_by-IsSorted x (y ∷ z ∷ zs) s =
      ground (arith, total x y, total x z, insert_by-IsSorted x (z ∷ zs))

  pub sort_by-IsSorted : (xs : List A) → IsSorted le (sort_by le xs)
  unfolding sort_by
  sort_by-IsSorted [] = tt
  sort_by-IsSorted (x ∷ xs) = insert_by-IsSorted x (sort_by le xs) (sort_by-IsSorted xs)

pub str_leb_total : (s t : String) → str_leb s t ≡ false → str_leb t s ≡ true
unfolding str_leb
str_leb_total String.[] t h = ground arith
str_leb_total (String.◌∷◌ c s) String.[] h = refl
str_leb_total (String.◌∷◌ c s) (String.◌∷◌ d t) h = ground (arith, str_leb_total s t)
