-- ===== src/Common/Equality.antt =====
-- Equality tests as an interface, and the types whose values the program compares.
use Prim.Native.Nat.{ℕ}
use Prim.Native.String.{String}
use mathlib.Core.Path.{◌≡◌, refl}
use mathlib.Core.Logic.{◌↔◌}
use mathlib.Core.Bool.{Bool, true, false, not, ◌&&◌}
use mathlib.Core.Option.{Option, none, some}
use native.Mathlib.Omega.{arith}
use text.Mathlib.Text.{◌==◌ as str_eq}
use text.Mathlib.TextEquality.{eq_iff}
use liki.Common.Tests.{nat_beq, nat_beq_iff}

-- `same` is the source's `==` on the type, and `same_iff` says it decides equality.
pub record Comparable {ℓ} (A : Type ℓ) : Type ℓ where
  pub same : A → A → Bool
  pub same_iff : (x y : A) → (same x y ≡ true) ↔ (x ≡ y)

-- Names, hashes and roles.
instance abbrev pub string_eq : Comparable String
string_eq = record { same = str_eq; same_iff = eq_iff }

-- Counts, sequence numbers and instants.
instance abbrev pub nat_eq : Comparable ℕ
nat_eq = record { same = nat_beq; same_iff = nat_beq_iff }

abbrev pub ◌==◌ {ℓ} : {A : Type ℓ} ⦃c : Comparable A⦄ → (x y : A) → Bool
◌==◌ ⦃c⦄ x y = c.same x y

infix 50 ◌==◌
-- A tuple is compared field by field.
module _ {A B : Type 0} ⦃e : Comparable A⦄ ⦃f : Comparable B⦄ where
  abbrev pub pair_beq : A × B → A × B → Bool
  pair_beq (a, b) (c, d) = a == c && b == d

  pub pair_beq_iff : (p q : A × B) → (pair_beq p q ≡ true) ↔ (p ≡ q)
  pair_beq_iff (a, b) (c, d) = (
    λ h. ground (arith, e.same_iff a c, f.same_iff b d),
    λ h. ground (arith, e.same_iff a c, f.same_iff b d),
  )

  instance abbrev pub pair_eq : Comparable (A × B)
  pair_eq = record { same = pair_beq; same_iff = pair_beq_iff }

pub ==_refl {ℓ} : {A : Type ℓ} ⦃e : Comparable A⦄ (a : A) → (a == a) ≡ true
==_refl ⦃e⦄ a = (e.same_iff a a).1 refl

pub ==_symm {ℓ} : {A : Type ℓ} ⦃e : Comparable A⦄ (a b : A) → (a == b) ≡ (b == a)
==_symm ⦃e⦄ a b = ground (arith, e.same_iff a b, e.same_iff b a)

-- The truth value of an optional text.
abbrev pub is_given : Option String → Bool
is_given none = false
is_given (some s) = not (s == "")
