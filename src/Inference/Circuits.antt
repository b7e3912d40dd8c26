-- ===== src/Inference/Circuits.antt =====
-- inference/backend.py: the circuits that shut a route off after repeated failures.
-- Each method is one transaction, so that calls take effect one after the other.
mod Streak
mod Tests
use liki.Common.{
  ℕ, ◌+◌, String, string_eq, ◌==◌, List, [], ◌∷◌, Option, none, some, Bool, true, false, not,
  if◌then◌else◌, Result, ok, err,
}
use liki.Common.Table.{Table, row_of, upsert, update}
use liki.Common.Int.{ℤ, pos, leb_ℤ}

-- A row of `route_circuits`, less its key.
pub record Circuit : Type 0 where
  pub failures : ℕ
  pub is_open : Bool

abbrev pub Circuits : Type 0
Circuits = Table Circuit

pub data CircuitError : Type 0 where
  value_error : String → CircuitError

unfoldable pub circuit_is_open : String → Circuits → Bool
circuit_is_open route rows = elim (row_of route rows) [ none ↦ false | some c ↦ c.is_open ]

-- `int(row[0] if row else 0)`
unfoldable pub known_failures : Option Circuit → ℕ
known_failures none = 0
known_failures (some c) = c.failures

unfoldable pub record_route_outcome : String → Bool → ℤ → Circuits → Circuits
unfolding known_failures
record_route_outcome route succeeded failure_threshold rows =
    let failures = if succeeded then 0 else known_failures (row_of route rows) + 1 in
    upsert route (record { failures = failures; is_open = leb_ℤ failure_threshold (pos failures) })
      rows

-- The answer, and the rows; `strip` is the method of texts.
unfoldable pub revive_route :
    (String → String) → String → String → Circuits → Result CircuitError (Bool × Circuits)
revive_route strip route reason rows =
    if strip reason == ""
    then err (value_error "a route revival reason is required")
    else elim (row_of route rows) [
      | none ↦ ok (false, rows)
      | some _ ↦ ok (true, update route (record { failures = 0; is_open = false }) rows)
    ]
