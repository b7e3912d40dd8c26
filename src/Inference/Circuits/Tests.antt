-- ===== src/Inference/Circuits/Tests.antt =====
-- A route that fails twice at a threshold of two, and is revived.
use liki.Common.{String, string_eq, List, [], ◌∷◌, true, false, ◌≡◌, refl}
use liki.Common.Int.{pos}
use liki.Inference.Circuits.{known_failures, circuit_is_open, record_route_outcome}
use liki.Inference.Circuits.Streak.{Call, outcome, rows_of, tripped, circuit_is_open-tripped}

abbrev untouched : String → String
untouched s = s

abbrev failed_twice : List Call
failed_twice = outcome "a" false (pos 2) ∷ outcome "b" true (pos 2) ∷ outcome "a" false (pos 2) ∷ []

opened : circuit_is_open "a" (rows_of untouched failed_twice) ≡ true
unfolding circuit_is_open record_route_outcome known_failures
opened = refl

circuit_is_open-tripped_example :
    circuit_is_open "a" (rows_of untouched failed_twice) ≡ tripped untouched "a" failed_twice
circuit_is_open-tripped_example = circuit_is_open-tripped untouched "a" failed_twice
