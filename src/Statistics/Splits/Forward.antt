-- ===== src/Statistics/Splits/Forward.antt =====
-- Walking forward: which windows `walk_forward_splits` of statistics/validation.py gives.
use liki.Common.{
  ◌≡◌, ◌≤◌, ◌<◌, ◌*◌, refl, arith, ℕ, zero, suc, ◌+◌, List, [], ◌∷◌, map, Option, none, some, ltb,
  leb, if◌then◌else◌, ok, ◌∙◌, inl, inr, Bool-cases,
}
use liki.Common.Int.{pos, pos_part, ◌-ℤ◌, ◌+ℤ◌}
use liki.Statistics.Splits.{range, starts, window_at, step_of, walk_forward_splits}

-- The element at a position.
unfoldable pub get_elem? {ℓ} : {A : Type ℓ} → List A → ℕ → Option A
get_elem? [] i = none
get_elem? (x ∷ xs) zero = some x
get_elem? (x ∷ xs) (suc i) = get_elem? xs i

-- Where the window of a round starts.
abbrev pub start_of_round : ℕ → ℕ → ℕ → ℕ
start_of_round start step zero = start
start_of_round start step (suc j) = start_of_round (start + step) step j

start_of_round_lem : (start step j : ℕ) → start_of_round start step j ≡ start + j * step
start_of_round_lem start step zero = omega arith
start_of_round_lem start step (suc j) = omega (arith, start_of_round_lem (start + step) step j)

start_of_round-le : (start step j : ℕ) → start ≤ start_of_round start step j
start_of_round-le start step j = omega (arith, start_of_round_lem start step j)

get_elem?-starts :
    (fuel start limit step j : ℕ)
    → limit ≤ fuel + start
    → 0 < step
    → get_elem? (starts fuel start limit step) j ≡ (
        if ltb (start_of_round start step j) limit
        then some (start_of_round start step j)
        else none)
unfolding starts get_elem?
get_elem?-starts zero start limit step j h p = ground (arith, start_of_round-le start step j)
get_elem?-starts (suc fuel) start limit step zero h p = ground arith
get_elem?-starts (suc fuel) start limit step (suc j) h p = elim (Bool-cases (ltb start limit)) [
  | inl in_range ↦ rw in_range (get_elem?-starts fuel (start + step) limit step j (ground arith) p)
  | inr past ↦ rw past (ground (arith, start_of_round-le (start + step) step j))
]

abbrev mapped {ℓ κ} : {A : Type ℓ} {B : Type κ} → (A → B) → Option A → Option B
mapped f none = none
mapped f (some a) = some (f a)

get_elem?-map {ℓ κ} :
    {A : Type ℓ} {B : Type κ} (f : A → B) (xs : List A) (j : ℕ)
    → get_elem? (map f xs) j ≡ mapped f (get_elem? xs j)
unfolding get_elem?
get_elem?-map f [] j = refl
get_elem?-map f (x ∷ xs) zero = refl
get_elem?-map f (x ∷ xs) (suc j) = get_elem?-map f xs j

-- The last round is the last whose window is in the data.
ltb-limit :
    (n train test start : ℕ)
    → 0 < n
    → ltb (0 + start) (pos_part (pos n -ℤ pos train -ℤ pos test +ℤ pos 1))
      ≡ leb (start + train + test) n
unfolding ◌-ℤ◌ ◌+ℤ◌
ltb-limit n train test start p = ground arith

pub walk_forward_splits-windows :
    (n train test step : ℕ)
    → 0 < n
    → 0 < train
    → 0 < test
    → 0 < step
    → (splits : List (List ℕ × List ℕ)) × (walk_forward_splits
          (pos n)
          (pos train)
          (pos test)
          (some (pos step))
        ≡ ok splits)
      × ((j : ℕ)
          → get_elem? splits j ≡ (
              if leb (j * step + train + test) n
              then some (
                range (j * step) (j * step + train),
                range (j * step + train) (j * step + train + test),
              )
              else none))
unfolding walk_forward_splits step_of window_at
walk_forward_splits-windows n train test step pn ptr pte ps =
    let limit = pos_part (pos n -ℤ pos train -ℤ pos test +ℤ pos 1) in
    (
      map (window_at train test) (starts limit 0 limit step),
      ground arith,
      λ j.
          get_elem?-map (window_at train test) (starts limit 0 limit step) j
          ∙ rw
              (
                get_elem?-starts limit 0 limit step j (omega arith) ps,
                start_of_round_lem 0 step j,
                ltb-limit n train test (j * step) pn,
              )
              (ground arith),
    )
