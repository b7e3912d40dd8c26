-- ===== src/Statistics/Splits/Purged.antt =====
-- The folds keep the training data apart from the test data.
use native.Mathlib.Nat.{le_refl, le_trans}
use liki.Common.{
  ◌≡◌, ◌∙◌, ◌≤◌, ◌<◌, refl, sym, ap, arith, ℕ, zero, suc, ◌+◌, ◌-◌, nat_eq, ◌==◌, List, [], ◌∷◌,
  map, Option, none, some, Bool, false, ◌&&◌, ◌||◌, contains, length, ltb, leb, if◌then◌else◌, ok,
}
use liki.Common.Int.{ℤ, pos_part}
use liki.Statistics.Splits.{
  count_from, range, min_ℕ, PurgedFold, indices_from, kept_in_fold, fold_between, folds_of,
  purged_kfold,
}

contains-count_from :
    (i start count : ℕ)
    → contains (count_from start count) i ≡ (leb start i && ltb i (start + count))
unfolding count_from
contains-count_from i start zero = ground arith
contains-count_from i start (suc count) = ground (arith, contains-count_from i (suc start) count)

pub contains-range :
    (i start stop : ℕ) → contains (range start stop) i ≡ (leb start i && ltb i stop)
unfolding range
contains-range i start stop = ground (arith, contains-count_from i start (stop - start))

-- The event at an index, counted from a first one.
unfoldable pub event_at {ℓ} : {A : Type ℓ} → ℕ → List A → ℕ → Option A
event_at first [] i = none
event_at first (end ∷ ends) i =
    let rest = event_at (suc first) ends i in if i == first then some end else rest

abbrev pub passes {ℓ} : {A : Type ℓ} → (ℕ → A → Bool) → ℕ → Option A → Bool
passes p i none = false
passes p i (some end) = p i end

event_at_below {ℓ} :
    {A : Type ℓ} (first : ℕ) (ends : List A) (i : ℕ) → i < first → event_at first ends i ≡ none
unfolding event_at
event_at_below first [] i h = refl
event_at_below first (end ∷ ends) i h = ground (arith, event_at_below (suc first) ends i)

pub contains-indices_from {ℓ} :
    {A : Type ℓ} (p : ℕ → A → Bool) (first : ℕ) (ends : List A) (i : ℕ)
    → contains (indices_from p first ends) i ≡ passes p i (event_at first ends i)
unfolding indices_from event_at
contains-indices_from p first [] i = refl
contains-indices_from p first (end ∷ ends) i =
    ground (arith, contains-indices_from p (suc first) ends i, event_at_below (suc first) ends i)

-- What a fold is: its test indices are a window of time, and the training indices are the others
-- that are not under the embargo behind it and whose events do not reach into it.
pub record IsApart (n embargo : ℕ) (ends : List ℕ) (start stop : ℕ) (f : PurgedFold) : Type 0 where
  pub tested : (i : ℕ) → contains f.test_indices i ≡ (leb start i && ltb i stop)
  pub embargoed :
      (i : ℕ) → contains f.embargo_indices i ≡ (leb stop i && ltb i n && ltb i (stop + embargo))
  pub trained :
      (i end : ℕ)
      → event_at 0 ends i ≡ some end
      → contains f.train_indices i
        ≡ ((ltb i start && ltb end start) || (leb stop i && leb (stop + embargo) i))

event_at_bound {ℓ} :
    {A : Type ℓ} (first : ℕ) (ends : List A) (i : ℕ) (end : A)
    → event_at first ends i ≡ some end
    → i < first + length ends
unfolding event_at
event_at_bound first [] i end h = absurd (ground arith)
event_at_bound first (e ∷ ends) i end h = ground (arith, event_at_bound (suc first) ends i end)

fold_between-IsApart :
    (n embargo : ℕ) (ends : List ℕ) (start stop : ℕ)
    → n ≡ length ends
    → start ≤ stop
    → IsApart n embargo ends start stop (fold_between n embargo ends start stop)
unfolding fold_between kept_in_fold
fold_between-IsApart n embargo ends start stop e le =
    let test = range start stop in
    let behind = range stop (min_ℕ n (stop + embargo)) in
    record {
      tested = λ i. contains-range i start stop;
      embargoed = λ i. ground (arith, contains-range i stop (min_ℕ n (stop + embargo)));
      trained = λ i end h.
          contains-indices_from (kept_in_fold start stop test behind) 0 ends i
          ∙ rw h (
              ground (
                arith,
                event_at_bound 0 ends i end h,
                contains-range i start stop,
                contains-range i stop (min_ℕ n (stop + embargo)),
              ));
    }

-- What `numpy.linspace` documents: evenly spaced numbers from 0 to n, both included.
pub record IsLinspace (linspace : ℕ → ℕ → ℕ → ℕ) : Type 0 where
  pub first : (n parts : ℕ) → linspace n parts 0 ≡ 0
  pub last : (n parts : ℕ) → 0 < parts → linspace n parts parts ≡ n
  pub rising : (n parts i : ℕ) → linspace n parts i ≤ linspace n parts (suc i)

module _ (linspace : ℕ → ℕ → ℕ → ℕ) (even : IsLinspace linspace) where
  -- Fold after fold, from one on.
  abbrev pub AllApart : ℕ → ℕ → ℕ → List ℕ → ℕ → List PurgedFold → Type 0
  AllApart n k embargo ends i [] = Unit
  AllApart n k embargo ends i (f ∷ fs) =
      IsApart n embargo ends (linspace n k i) (linspace n k (suc i)) f
      × AllApart n k embargo ends (suc i) fs

  folds_of-AllApart :
      (n k embargo : ℕ) (ends : List ℕ) (i count : ℕ)
      → n ≡ length ends
      → AllApart n k embargo ends i (folds_of linspace n k embargo ends (count_from i count))
  unfolding folds_of count_from
  folds_of-AllApart n k embargo ends i zero e = tt
  folds_of-AllApart n k embargo ends i (suc count) e = (
    fold_between-IsApart n embargo ends (linspace n k i) (linspace n k (suc i)) e
        (even.rising n k i),
    folds_of-AllApart n k embargo ends (suc i) count e,
  )

-- How many folds test an index.
abbrev pub times_tested : ℕ → List PurgedFold → ℕ
times_tested i [] = 0
times_tested i (f ∷ fs) =
    let rest = times_tested i fs in if contains f.test_indices i then suc rest else rest

module _ (linspace : ℕ → ℕ → ℕ → ℕ) (even : IsLinspace linspace) where
  rises : (n k i count : ℕ) → linspace n k i ≤ linspace n k (i + count)
  rises n k i zero = let e : i + 0 ≡ i = omega arith in rw e (le_refl (linspace n k i))
  rises n k i (suc count) =
      let e : i + suc count ≡ suc i + count = omega arith in
      rw e (le_trans (even.rising n k i) (rises n k (suc i) count))

  times_tested-folds_of :
      (n k embargo : ℕ) (ends : List ℕ) (x i count : ℕ)
      → times_tested x (folds_of linspace n k embargo ends (count_from i count))
        ≡ (if leb (linspace n k i) x && ltb x (linspace n k (i + count)) then 1 else 0)
  unfolding folds_of count_from fold_between
  times_tested-folds_of n k embargo ends x i zero = ground arith
  times_tested-folds_of n k embargo ends x i (suc count) = ground (
    arith,
    times_tested-folds_of n k embargo ends x (suc i) count,
    contains-range x (linspace n k i) (linspace n k (suc i)),
    even.rising n k i,
    rises n k (suc i) count,
  )

length-map {ℓ κ} :
    {A : Type ℓ} {B : Type κ} (f : A → B) (xs : List A) → length (map f xs) ≡ length xs
length-map f [] = refl
length-map f (x ∷ xs) = omega (arith, length-map f xs)

-- Of the folds that are given, each trains on exactly the events that end before its window or begin
-- after the embargo behind it, so that no event of the training data reaches into the window; and
-- every observation is in the window of one fold.
pub purged_kfold-AllApart :
    (linspace : ℕ → ℕ → ℕ → ℕ) (even : IsLinspace linspace) (ends : List ℤ) (folds embargo : ℤ)
    (fs : List PurgedFold)
    → purged_kfold linspace ends folds embargo ≡ ok fs
    → AllApart linspace even
        (length ends)
        (pos_part folds)
        (pos_part embargo)
        (map pos_part ends)
        0
        fs
      × ((x : ℕ) → x < length ends → times_tested x fs ≡ 1)
unfolding purged_kfold range
purged_kfold-AllApart linspace even ends folds embargo fs e =
    let k = pos_part folds in
    let n = length ends in
    let same : fs ≡ folds_of linspace n k (pos_part embargo) (map pos_part ends) (count_from 0 k) =
      ground arith in
    (
      rw same (
          folds_of-AllApart linspace even n k (pos_part embargo) (map pos_part ends) 0 k
            (sym (length-map pos_part ends))),
      λ x h. rw same (
          once (linspace n k 0) (linspace n k (0 + k)) n x
            (times_tested-folds_of linspace even n k (pos_part embargo) (map pos_part ends) x 0 k)
            (even.first n k) (ap (linspace n k) (omega arith) ∙ even.last n k (ground arith)) h),
    )
  where
    once :
        (start stop n x : ℕ) {times : ℕ}
        → times ≡ (if leb start x && ltb x stop then 1 else 0)
        → start ≡ 0
        → stop ≡ n
        → x < n
        → times ≡ 1
    once start stop n x t e f h = ground arith
