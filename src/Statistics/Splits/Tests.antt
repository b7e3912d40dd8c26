-- ===== src/Statistics/Splits/Tests.antt =====
-- Six observations, of which the second lasts until the fourth, in three groups.
use native.Mathlib.Nat.{div-zero, zero-div, div-mul-le_self, le-div_iff_mul-le, mul-div_cancel_left}
use liki.Common.{
  ◌≡◌, ◌≤◌, ◌<◌, ◌*◌, ◌/◌, refl, arith, ℕ, zero, suc, ◌+◌, List, [], ◌∷◌, none, some, leb,
  if◌then◌else◌, ok, length, map,
}
use liki.Common.Int.{ℤ, ◌+ℤ◌, pos, pos_part}
use liki.Statistics.Splits.{
  bad_end, folds_of, count_from, fold_between, indices_from, kept_in_fold, split_of, group_tests,
  group_embargo, kept_in_split, PurgedFold, purged_kfold, cpcv_splits, walk_forward_splits,
  combinations, range,
}
use liki.Common.Sorting.{sort_by, insert_by}
use liki.Statistics.Splits.Purged.{IsLinspace, AllApart, times_tested, purged_kfold-AllApart}
use liki.Statistics.Splits.Combined.{AllSplit, cpcv_splits-AllSplit}
use liki.Statistics.Splits.Forward.{get_elem?, walk_forward_splits-windows}

-- Evenly spaced numbers, rounded down.
abbrev evenly : ℕ → ℕ → ℕ → ℕ
evenly n parts i = i * n / parts

evenly_rising : (n parts i : ℕ) → evenly n parts i ≤ evenly n parts (suc i)
evenly_rising n zero i = omega (arith, div-zero (i * n))
evenly_rising n (suc k) i =
    (le-div_iff_mul-le (omega arith)).1 (omega (arith, div-mul-le_self (i * n) (suc k)))

evenly-IsLinspace : IsLinspace evenly
evenly-IsLinspace = record {
  first = λ n parts. ground (arith, zero-div parts);
  last = λ n parts h. mul-div_cancel_left n h;
  rising = evenly_rising;
}

abbrev ends : List ℤ
ends = pos 0 ∷ pos 3 ∷ pos 2 ∷ pos 3 ∷ pos 4 ∷ pos 5 ∷ []

abbrev first_of_three : PurgedFold
first_of_three = record {
  train_indices = 3 ∷ 4 ∷ 5 ∷ [];
  test_indices = 0 ∷ 1 ∷ [];
  embargo_indices = 2 ∷ [];
}

abbrev second_of_three : PurgedFold
second_of_three = record {
  train_indices = 0 ∷ 5 ∷ [];
  test_indices = 2 ∷ 3 ∷ [];
  embargo_indices = 4 ∷ [];
}

abbrev third_of_three : PurgedFold
third_of_three = record {
  train_indices = 0 ∷ 1 ∷ 2 ∷ 3 ∷ [];
  test_indices = 4 ∷ 5 ∷ [];
  embargo_indices = [];
}

abbrev three_folds : List PurgedFold
three_folds = first_of_three ∷ second_of_three ∷ third_of_three ∷ []

folds_given : purged_kfold evenly ends (pos 3) (pos 1) ≡ ok three_folds
unfolding purged_kfold bad_end range folds_of count_from fold_between indices_from kept_in_fold
folds_given = refl

splits_given : cpcv_splits evenly ends (pos 3) (pos 1) (pos 1) ≡ ok three_folds
unfolding cpcv_splits split_of combinations range count_from group_tests group_embargo indices_from
    kept_in_split sort_by insert_by ◌+ℤ◌
splits_given = refl

purged_kfold-AllApart_example :
    AllApart evenly evenly-IsLinspace (length ends) 3 1 (map pos_part ends) 0 three_folds
    × ((x : ℕ) → x < length ends → times_tested x three_folds ≡ 1)
purged_kfold-AllApart_example =
    purged_kfold-AllApart evenly evenly-IsLinspace ends (pos 3) (pos 1) three_folds folds_given

cpcv_splits-AllSplit_example :
    AllSplit evenly (length ends) 3 1 ends (combinations 1 (range 0 3)) three_folds
cpcv_splits-AllSplit_example =
    cpcv_splits-AllSplit evenly ends (pos 3) (pos 1) 1 three_folds splits_given

walk_forward_splits-windows_example :
    (splits : List (List ℕ × List ℕ)) × (walk_forward_splits (pos 10) (pos 4) (pos 2) (some (pos 3))
      ≡ ok splits)
    × ((j : ℕ)
        → get_elem? splits j ≡ (
            if leb (j * 3 + 4 + 2) 10
            then some (range (j * 3) (j * 3 + 4), range (j * 3 + 4) (j * 3 + 4 + 2))
            else none))
walk_forward_splits-windows_example =
    walk_forward_splits-windows 10 4 2 3 (omega arith) (omega arith) (omega arith) (omega arith)
