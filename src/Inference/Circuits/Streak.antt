-- ===== src/Inference/Circuits/Streak.antt =====
-- A circuit against the history of the calls for its route.
use liki.Common.{
  ℕ, ◌+◌, String, string_eq, ◌==◌, List, [], ◌∷◌, Option, none, some, Bool, false, not, ◌&&◌,
  if◌then◌else◌, Result, ok, err, ◌≡◌, ◌∙◌, ◌<◌, zero, suc, arith,
}
use liki.Common.Table.{row_of, row_of-update, row_of-upsert}
use liki.Common.Int.{ℤ, pos, leb_ℤ}
use liki.Inference.Circuits.{
  Circuit, Circuits, CircuitError, circuit_is_open, known_failures, record_route_outcome,
  revive_route,
}

-- A call that changes circuits.
pub data Call : Type 0 where
  outcome : (route : String) (succeeded : Bool) (failure_threshold : ℤ) → Call
  revival : (route reason : String) → Call

module _ (strip : String → String) where
  -- The rows that a revival leaves; one that raises leaves them as they are.
  abbrev pub rows_after : Result CircuitError (Bool × Circuits) → Circuits → Circuits
  rows_after (ok r) rows = r.1
  rows_after (err e) rows = rows

  -- The rows after the calls, the last one first.
  abbrev pub rows_of : List Call → Circuits
  rows_of [] = []
  rows_of (outcome route succeeded threshold ∷ calls) =
      record_route_outcome route succeeded threshold (rows_of calls)
  rows_of (revival route reason ∷ calls) =
      let rows = rows_of calls in rows_after (revive_route strip route reason rows) rows

  -- How often the route failed since it last succeeded or was revived with a reason.
  abbrev pub streak : String → List Call → ℕ
  streak r [] = 0
  streak r (outcome route succeeded threshold ∷ calls) =
      let before = streak r calls in
      if route == r then if succeeded then 0 else before + 1 else before
  streak r (revival route reason ∷ calls) =
      let before = streak r calls in if route == r && not (strip reason == "") then 0 else before

  -- Whether the last call for the route left its streak at the threshold of that call.
  abbrev pub tripped : String → List Call → Bool
  tripped r [] = false
  tripped r (outcome route succeeded threshold ∷ calls) =
      let before = tripped r calls in
      if route == r
      then leb_ℤ threshold (pos (streak r (outcome route succeeded threshold ∷ calls)))
      else before
  tripped r (revival route reason ∷ calls) =
      let before = tripped r calls in
      if route == r && not (strip reason == "") then false else before

-- `n` more failures of a route.
abbrev pub fail_times : String → ℕ → ℕ → List Call → List Call
fail_times r threshold zero calls = calls
fail_times r threshold (suc n) calls =
    outcome r false (pos threshold) ∷ fail_times r threshold n calls

abbrev open_of : Option Circuit → Bool
open_of none = false
open_of (some c) = c.is_open

-- The row of a route has its streak, and is open as the last call for it found.
rows_of_lem :
    (strip : String → String) (r : String) (calls : List Call)
    → (known_failures (row_of r (rows_of strip calls)) ≡ streak strip r calls)
      × (open_of (row_of r (rows_of strip calls)) ≡ tripped strip r calls)
unfolding known_failures record_route_outcome revive_route
rows_of_lem strip r [] = (ground arith, ground arith)
rows_of_lem strip r (outcome route succeeded threshold ∷ calls) =
    let k = rows_of_lem strip r calls in
    let rows = rows_of strip calls in
    let before = known_failures (row_of route rows) + 1 in
    let n = if succeeded then 0 else before in
    let c : Circuit = record { failures = n; is_open = leb_ℤ threshold (pos n) } in
    (
      ground (arith, k, row_of-upsert r route c rows, string_eq.same_iff route r),
      ground (arith, k, row_of-upsert r route c rows, string_eq.same_iff route r),
    )
rows_of_lem strip r (revival route reason ∷ calls) =
    let k = rows_of_lem strip r calls in
    let rows = rows_of strip calls in
    let c : Circuit = record { failures = 0; is_open = false } in
    (
      ground (arith, k, row_of-update r route c rows, string_eq.same_iff route r),
      ground (arith, k, row_of-update r route c rows, string_eq.same_iff route r),
    )

streak_of_failures :
    (strip : String → String) (r : String) (n threshold : ℕ) (calls : List Call)
    → streak strip r (fail_times r threshold n calls) ≡ n + streak strip r calls
streak_of_failures strip r zero threshold calls = omega arith
streak_of_failures strip r (suc n) threshold calls =
    ground (arith, streak_of_failures strip r n threshold calls, string_eq.same_iff r r)

open_of_lem : (r : String) (rows : Circuits) → circuit_is_open r rows ≡ open_of (row_of r rows)
unfolding circuit_is_open
open_of_lem r rows = ground arith

-- After any calls, the circuit of a route is open exactly if the last call that changed it was an
-- outcome that left the failures since the last success or revival at its threshold or above.
pub circuit_is_open-tripped :
    (strip : String → String) (r : String) (calls : List Call)
    → circuit_is_open r (rows_of strip calls) ≡ tripped strip r calls
circuit_is_open-tripped strip r calls =
    open_of_lem r (rows_of strip calls) ∙ (rows_of_lem strip r calls).1

-- However a route came to be shut, after a revival with a reason and then fewer failures than the
-- threshold its circuit is closed.
pub circuit_revived :
    (strip : String → String) (r reason : String) (n threshold : ℕ) (calls : List Call)
    → (strip reason == "") ≡ false
    → n < threshold
    → circuit_is_open r (rows_of strip (fail_times r threshold n (revival r reason ∷ calls)))
      ≡ false
circuit_revived strip r reason n threshold calls given few =
    circuit_is_open-tripped strip r (fail_times r threshold n (revival r reason ∷ calls))
    ∙ not_tripped n few
  where
    not_tripped :
        (k : ℕ)
        → k < threshold
        → tripped strip r (fail_times r threshold k (revival r reason ∷ calls)) ≡ false
    not_tripped zero h = ground (arith, string_eq.same_iff r r)
    not_tripped (suc k) h = ground (
      arith,
      string_eq.same_iff r r,
      streak_of_failures strip r k threshold (revival r reason ∷ calls),
    )
