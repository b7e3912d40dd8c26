-- ===== src/Common/Json.antt =====
-- The values that the program hashes, before they are written as text.
use Prim.Native.Nat.{ℕ}
use Prim.Native.String.{String}
use mathlib.Core.Bool.{Bool}
use mathlib.Core.List.{List, [], ◌∷◌}

mutual
  pub data Json : Type 0 where
    null : Json
    flag : Bool → Json
    num : ℕ → Json
    text : String → Json
    array : Items → Json
    object : Members → Json

  pub data Items : Type 0 where
    nil : Items
    item : Json → Items → Items

  pub data Members : Type 0 where
    end : Members
    member : String → Json → Members → Members

unfoldable pub items_of {ℓ} : {A : Type ℓ} → (A → Json) → List A → Items
items_of f [] = nil
items_of f (x ∷ xs) = item (f x) (items_of f xs)

-- A tuple, encoded element by element.
unfoldable pub array_of {ℓ} : {A : Type ℓ} → (A → Json) → List A → Json
unfolding items_of
array_of f xs = array (items_of f xs)
