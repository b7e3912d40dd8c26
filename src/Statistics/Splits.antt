-- ===== src/Statistics/Splits.antt =====
-- statistics/validation.py: folds that keep the training data apart from the test data in time.
-- `numpy.linspace(0, n, parts + 1, dtype=int)[i]` is a parameter, `linspace n parts i`.
pub mod Purged
pub mod Combined
pub mod Forward
mod Tests
use liki.Common.{
  ℕ, zero, suc, ◌+◌, ◌-◌, nat_eq, ◌==◌, String, List, [], ◌∷◌, ◌++◌, map, Option, none, some, Bool,
  true, false, not, ◌&&◌, ◌||◌, any, contains, to_set, length, ltb, leb, if◌then◌else◌, Result, ok,
  err, ◌>>=◌, ◌>>◌, raise_if,
}
use liki.Common.Int.{ℤ, pos, pos_part, ltb_ℤ, leb_ℤ, beq_ℤ, ◌-ℤ◌, ◌+ℤ◌}
use liki.Common.Sorting.{sort_by}

pub data SplitError : Type 0 where
  value_error : String → SplitError

-- `range(start, start + count)` and `range(start, stop)`
unfoldable pub count_from : ℕ → ℕ → List ℕ
count_from start zero = []
count_from start (suc count) = start ∷ count_from (suc start) count

unfoldable pub range : ℕ → ℕ → List ℕ
unfolding count_from
range start stop = count_from start (stop - start)

abbrev pub min_ℕ : ℕ → ℕ → ℕ
min_ℕ a b = if leb a b then a else b

-- A fold of `purged_kfold`, and a split of `cpcv_splits`.
pub record PurgedFold : Type 0 where
  pub train_indices : List ℕ
  pub test_indices : List ℕ
  pub embargo_indices : List ℕ

-- `any(end < index or end >= n for index, end in enumerate(ends))`
unfoldable pub bad_end : ℕ → ℕ → List ℤ → Bool
bad_end n index [] = false
bad_end n index (end ∷ ends) =
    (ltb_ℤ end (pos index) || leb_ℤ (pos n) end) || bad_end n (suc index) ends

-- The indices of the events that pass a test, from `enumerate`.
unfoldable pub indices_from {ℓ} : {A : Type ℓ} → (ℕ → A → Bool) → ℕ → List A → List ℕ
indices_from p index [] = []
indices_from p index (end ∷ ends) =
    let rest = indices_from p (suc index) ends in if p index end then index ∷ rest else rest

unfoldable pub kept_in_fold : ℕ → ℕ → List ℕ → List ℕ → ℕ → ℕ → Bool
kept_in_fold start stop test embargoed index end =
    not (contains test index || contains embargoed index) && not (ltb index stop && leb start end)

unfoldable pub fold_between : ℕ → ℕ → List ℕ → ℕ → ℕ → PurgedFold
unfolding range indices_from kept_in_fold
fold_between n embargo ends start stop =
    let test = range start stop in
    let embargoed = range stop (min_ℕ n (stop + embargo)) in
    record {
      train_indices = indices_from (kept_in_fold start stop test embargoed) 0 ends;
      test_indices = test;
      embargo_indices = embargoed;
    }

unfoldable pub kept_in_split : List ℕ → List ℕ → ℕ → ℤ → Bool
kept_in_split test embargoed index end =
    not (contains test index || contains embargoed index)
    && not (any (λ t. ltb index (suc t) && leb_ℤ (pos t) end) test)

-- `itertools.combinations`
unfoldable pub combinations : ℕ → List ℕ → List (List ℕ)
combinations zero xs = [] ∷ []
combinations (suc k) [] = []
combinations (suc k) (x ∷ xs) = map (λ c. x ∷ c) (combinations k xs) ++ combinations (suc k) xs

module _ (linspace : ℕ → ℕ → ℕ → ℕ) where
  unfoldable pub folds_of : ℕ → ℕ → ℕ → List ℕ → List ℕ → List PurgedFold
  unfolding fold_between
  folds_of n folds embargo ends [] = []
  folds_of n folds embargo ends (fold ∷ rest) =
      fold_between n embargo ends (linspace n folds fold) (linspace n folds (suc fold))
      ∷ folds_of n folds embargo ends rest

  unfoldable pub purged_kfold : List ℤ → ℤ → ℤ → Result SplitError (List PurgedFold)
  unfolding bad_end folds_of range
  purged_kfold ends folds embargo = do
    raise_if (ltb_ℤ folds (pos 2) || ltb_ℤ (pos (length ends)) folds || ltb_ℤ embargo (pos 0))
        (value_error "invalid temporal fold configuration")
    raise_if (bad_end (length ends) 0 ends)
        (value_error "event end indices must be in-range and not precede decision index")
    ok (
        folds_of (length ends) (pos_part folds) (pos_part embargo) (map pos_part ends)
          (range 0 (pos_part folds)))

  -- `set().union(*(… for group in selected))`, as a list with repetitions.
  unfoldable pub group_tests : ℕ → ℕ → List ℕ → List ℕ
  unfolding range
  group_tests n groups [] = []
  group_tests n groups (g ∷ selected) =
      range (linspace n groups g) (linspace n groups (suc g)) ++ group_tests n groups selected

  unfoldable pub group_embargo : ℕ → ℕ → ℤ → List ℕ → List ℕ
  unfolding range
  group_embargo n groups embargo [] = []
  group_embargo n groups embargo (g ∷ selected) =
      range (linspace n groups (suc g))
        (min_ℕ n (pos_part (pos (linspace n groups (suc g)) +ℤ embargo)))
      ++ group_embargo n groups embargo selected

  unfoldable pub split_of : ℕ → ℕ → ℤ → List ℤ → List ℕ → PurgedFold
  unfolding group_tests group_embargo indices_from kept_in_split
  split_of n groups embargo ends selected =
      let test = group_tests n groups selected in
      let embargoed = group_embargo n groups embargo selected in
      record {
        train_indices = indices_from (kept_in_split test embargoed) 0 ends;
        test_indices = sort_by leb (to_set test);
        embargo_indices = sort_by leb (to_set embargoed);
      }

  unfoldable pub cpcv_splits : List ℤ → ℤ → ℤ → ℤ → Result SplitError (List PurgedFold)
  unfolding split_of combinations range
  cpcv_splits ends groups test_groups embargo = do
    raise_if (ltb_ℤ groups (pos 2) || not (leb_ℤ (pos 1) test_groups && ltb_ℤ test_groups groups))
        (value_error "invalid CPCV group configuration")
    ok (
        map (split_of (length ends) (pos_part groups) embargo ends)
          (combinations (pos_part test_groups) (range 0 (pos_part groups))))

-- `for start in range(0, limit, step)`; each round brings the start nearer to the limit, and so
-- `limit` rounds are enough.
unfoldable pub starts : (fuel start limit step : ℕ) → List ℕ
starts zero start limit step = []
starts (suc fuel) start limit step =
    let rest = starts fuel (start + step) limit step in if ltb start limit then start ∷ rest else []

unfoldable pub window_at : ℕ → ℕ → ℕ → List ℕ × List ℕ
unfolding range
window_at train_size test_size start =
    (range start (start + train_size), range (start + train_size) (start + train_size + test_size))

-- `step or test_size`
unfoldable pub step_of : Option ℤ → ℤ → ℤ
step_of none test_size = test_size
step_of (some step) test_size = if beq_ℤ step (pos 0) then test_size else step

unfoldable pub walk_forward_splits :
    ℤ → ℤ → ℤ → Option ℤ → Result SplitError (List (List ℕ × List ℕ))
unfolding step_of starts window_at
walk_forward_splits n train_size test_size step = do
  raise_if (leb_ℤ n (pos 0) || leb_ℤ train_size (pos 0) || leb_ℤ test_size (pos 0))
      (value_error "sizes must be positive")
  raise_if (leb_ℤ (step_of step test_size) (pos 0)) (value_error "step must be positive")
  ok (
      map (window_at (pos_part train_size) (pos_part test_size)) (
        starts (pos_part (n -ℤ train_size -ℤ test_size +ℤ pos 1)) 0
          (pos_part (n -ℤ train_size -ℤ test_size +ℤ pos 1)) (pos_part (step_of step test_size))))
