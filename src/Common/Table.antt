-- ===== src/Common/Table.antt =====
-- Tables of a database: rows under a text that is their primary key.
use Prim.Native.String.{String}
use mathlib.Core.Path.{◌≡◌, refl}
use mathlib.Core.Bool.{false}
use mathlib.Core.Option.{Option, none, some}
use mathlib.Core.List.{List, [], ◌∷◌}
use native.Mathlib.Omega.{arith}
use liki.Common.{if◌then◌else◌, string_eq, ◌==◌, is_some}

abbrev pub Table {ℓ} : Type ℓ → Type ℓ
Table A = List (String × A)

module _ {ℓ} {A : Type ℓ} where
  -- `SELECT … WHERE key=?`
  abbrev pub row_of : String → Table A → Option A
  row_of key [] = none
  row_of key ((k, a) ∷ rows) = let rest = row_of key rows in if k == key then some a else rest

  -- `UPDATE … WHERE key=?`
  abbrev pub update : String → A → Table A → Table A
  update key a [] = []
  update key a ((k, b) ∷ rows) =
      let rest = update key a rows in if k == key then (k, a) ∷ rest else (k, b) ∷ rest

  -- `INSERT … ON CONFLICT(key) DO UPDATE`
  abbrev pub upsert : String → A → Table A → Table A
  upsert key a [] = (key, a) ∷ []
  upsert key a ((k, b) ∷ rows) =
      let rest = upsert key a rows in if k == key then (k, a) ∷ rows else (k, b) ∷ rest

  -- An update sets the rows that there are.
  abbrev pub renewed : A → Option A → Option A
  renewed a none = none
  renewed a (some b) = some a

  pub row_of-update :
      (key k : String) (a : A) (rows : Table A)
      → row_of key (update k a rows)
        ≡ (if k == key then renewed a (row_of key rows) else row_of key rows)
  row_of-update key k a [] = ground arith
  row_of-update key k a ((q, b) ∷ rows) = ground (
    arith,
    row_of-update key k a rows,
    string_eq.same_iff q k,
    string_eq.same_iff k key,
    string_eq.same_iff q key,
  )

  pub row_of-upsert :
      (key k : String) (a : A) (rows : Table A)
      → row_of key (upsert k a rows) ≡ (if k == key then some a else row_of key rows)
  row_of-upsert key k a [] = refl
  row_of-upsert key k a ((q, b) ∷ rows) = ground (
    arith,
    row_of-upsert key k a rows,
    string_eq.same_iff q k,
    string_eq.same_iff k key,
    string_eq.same_iff q key,
  )

  -- No key occurs twice.
  abbrev pub IsKeyed : Table A → Type 0
  IsKeyed [] = Unit
  IsKeyed ((k, a) ∷ rows) = (is_some (row_of k rows) ≡ false) × IsKeyed rows

  pub update-IsKeyed :
      (k : String) (a : A) (rows : Table A) → IsKeyed rows → IsKeyed (update k a rows)
  update-IsKeyed k a [] h = tt
  update-IsKeyed k a ((q, b) ∷ rows) h =
      ground (arith, update-IsKeyed k a rows h.1, row_of-update q k a rows)

  pub update_missing :
      (k : String) (a : A) (rows : Table A) → row_of k rows ≡ none → update k a rows ≡ rows
  update_missing k a [] h = refl
  update_missing k a ((q, b) ∷ rows) h = ground (arith, update_missing k a rows)
