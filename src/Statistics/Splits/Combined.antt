-- ===== src/Statistics/Splits/Combined.antt =====
-- The combined splits keep the training data apart from the test data.
use liki.Common.{
  ◌≡◌, ◌≤◌, refl, sym, ◌∙◌, arith, ℕ, suc, ◌+◌, nat_eq, List, [], ◌∷◌, map, some, Bool, true, false,
  ◌&&◌, any, contains, to_set, contains-to_set, contains-append, length, ltb, leb, ok, nat_beq,
  Bool-cases, inl, inr, ◌↔◌,
}
use liki.Common.Int.{ℤ, pos, pos_part, ltb_ℤ, leb_ℤ, ◌+ℤ◌}
use liki.Common.Sorting.{contains-sort_by}
use liki.Statistics.Splits.{
  PurgedFold, group_tests, group_embargo, kept_in_split, split_of, cpcv_splits, combinations, range,
  min_ℕ,
}
use liki.Statistics.Splits.Purged.{event_at, contains-indices_from, contains-range}

-- Whether an index is in the window of one of the groups, or under the embargo behind one.
module _ (linspace : ℕ → ℕ → ℕ → ℕ) (n groups : ℕ) where
  abbrev pub in_group : ℕ → ℕ → Bool
  in_group i g = leb (linspace n groups g) i && ltb i (linspace n groups (suc g))

  abbrev pub behind_group : ℕ → ℕ → ℕ → Bool
  behind_group embargo i g =
      leb (linspace n groups (suc g)) i && ltb i (linspace n groups (suc g) + embargo) && ltb i n

  contains-group_tests :
      (selected : List ℕ) (i : ℕ)
      → contains (group_tests linspace n groups selected) i ≡ any (in_group i) selected
  unfolding group_tests
  contains-group_tests [] i = refl
  contains-group_tests (g ∷ selected) i = ground (
    arith,
    contains-append (range (linspace n groups g) (linspace n groups (suc g)))
        (group_tests linspace n groups selected) i,
    contains-range i (linspace n groups g) (linspace n groups (suc g)),
    contains-group_tests selected i,
  )

  contains-group_embargo :
      (embargo : ℕ) (selected : List ℕ) (i : ℕ)
      → contains (group_embargo linspace n groups (pos embargo) selected) i
        ≡ any (behind_group embargo i) selected
  unfolding group_embargo ◌+ℤ◌
  contains-group_embargo embargo [] i = refl
  contains-group_embargo embargo (g ∷ selected) i = ground (
    arith,
    contains-append
        (range (linspace n groups (suc g))
          (min_ℕ n (pos_part (pos (linspace n groups (suc g)) +ℤ pos embargo))))
        (group_embargo linspace n groups (pos embargo) selected) i,
    contains-range i (linspace n groups (suc g))
        (min_ℕ n (pos_part (pos (linspace n groups (suc g)) +ℤ pos embargo))),
    contains-group_embargo embargo selected i,
  )

-- A test fails on all of a list exactly when it fails on every member.
any_none_iff :
    (p : ℕ → Bool) (xs : List ℕ)
    → (any p xs ≡ false) ↔ ((t : ℕ) → contains xs t ≡ true → p t ≡ false)
any_none_iff p xs = (to p xs, from p xs)
  where
    to :
        (p : ℕ → Bool) (xs : List ℕ)
        → any p xs ≡ false
        → (t : ℕ) → contains xs t ≡ true
        → p t ≡ false
    to p [] h t m = absurd (ground arith)
    to p (x ∷ xs) h t m = elim (Bool-cases (nat_beq t x)) [
      | inl same ↦ rw ((nat_eq.same_iff t x).0 same) (ground arith)
      | inr other ↦ to p xs (ground arith) t (ground arith)
    ]

    from :
        (p : ℕ → Bool) (xs : List ℕ)
        → ((t : ℕ) → contains xs t ≡ true → p t ≡ false)
        → any p xs ≡ false
    from p [] h = refl
    from p (x ∷ xs) h = ground (arith, h x (ground arith), from p xs (λ t m. h t (ground arith)))

-- What a split is, for the groups that were chosen.
pub record IsSplit (linspace : ℕ → ℕ → ℕ → ℕ) (n groups embargo : ℕ) (ends : List ℤ)
    (selected : List ℕ) (f : PurgedFold) : Type 0 where
  pub tested : (i : ℕ) → contains f.test_indices i ≡ any (in_group linspace n groups i) selected
  pub embargoed :
      (i : ℕ)
      → contains f.embargo_indices i ≡ any (behind_group linspace n groups embargo i) selected
  pub trained :
      (i : ℕ) (end : ℤ)
      → event_at 0 ends i ≡ some end
      → (contains f.train_indices i ≡ true) ↔ (
          (any (in_group linspace n groups i) selected ≡ false)
          × (any (behind_group linspace n groups embargo i) selected ≡ false)
          × ((t : ℕ)
              → any (in_group linspace n groups t) selected ≡ true
              → i ≤ t
              → ltb_ℤ end (pos t) ≡ true))

module _ (test behind : List ℕ) (tested embargoed : ℕ → Bool)
    (same_test : (i : ℕ) → contains test i ≡ tested i)
    (same_behind : (i : ℕ) → contains behind i ≡ embargoed i) where
  kept_in_split_iff :
      (i : ℕ) (end : ℤ)
      → (kept_in_split test behind i end ≡ true) ↔ (
          (tested i ≡ false)
          × (embargoed i ≡ false)
          × ((t : ℕ) → tested t ≡ true → i ≤ t → ltb_ℤ end (pos t) ≡ true))
  unfolding kept_in_split
  kept_in_split_iff i end =
      let reaches = λ (t : ℕ). ltb i (suc t) && leb_ℤ (pos t) end in
      (
        λ h. (
          ground (arith, same_test i),
          ground (arith, same_behind i),
          λ t m le.
              let free = (any_none_iff reaches test).0 (ground arith) t (same_test t ∙ m) in
              ground arith,
        ),
        λ h.
            let free =
              (any_none_iff reaches test).1
                (λ t m. ground (arith, h.2 t (sym (same_test t) ∙ m))) in
            ground (arith, same_test i, same_behind i),
      )

split_of-IsSplit :
    (linspace : ℕ → ℕ → ℕ → ℕ) (n groups embargo : ℕ) (ends : List ℤ) (selected : List ℕ)
    → IsSplit linspace n groups embargo ends selected
        (split_of linspace n groups (pos embargo) ends selected)
unfolding split_of
split_of-IsSplit linspace n groups embargo ends selected =
    let test = group_tests linspace n groups selected in
    let behind = group_embargo linspace n groups (pos embargo) selected in
    record {
      tested = λ i.
          contains-sort_by leb (to_set test) i
          ∙ contains-to_set test i
          ∙ contains-group_tests linspace n groups selected i;
      embargoed = λ i.
          contains-sort_by leb (to_set behind) i
          ∙ contains-to_set behind i
          ∙ contains-group_embargo linspace n groups embargo selected i;
      trained = λ i end h.
          rw (contains-indices_from (kept_in_split test behind) 0 ends i, h)
            (kept_in_split_iff test behind (λ t. any (in_group linspace n groups t) selected)
              (λ t. any (behind_group linspace n groups embargo t) selected)
              (contains-group_tests linspace n groups selected)
              (contains-group_embargo linspace n groups embargo selected) i end);
    }

-- Splits for choices of groups, one for each.
abbrev pub AllSplit :
    (ℕ → ℕ → ℕ → ℕ) → ℕ → ℕ → ℕ → List ℤ → List (List ℕ) → List PurgedFold → Type 0
AllSplit linspace n groups embargo ends [] [] = Unit
AllSplit linspace n groups embargo ends [] (f ∷ fs) = ⊥
AllSplit linspace n groups embargo ends (s ∷ ss) [] = ⊥
AllSplit linspace n groups embargo ends (s ∷ ss) (f ∷ fs) =
    IsSplit linspace n groups embargo ends s f × AllSplit linspace n groups embargo ends ss fs

map-AllSplit :
    (linspace : ℕ → ℕ → ℕ → ℕ) (n groups embargo : ℕ) (ends : List ℤ) (chosen : List (List ℕ))
    → AllSplit linspace n groups embargo ends chosen
        (map (split_of linspace n groups (pos embargo) ends) chosen)
map-AllSplit linspace n groups embargo ends [] = tt
map-AllSplit linspace n groups embargo ends (s ∷ ss) = (
  split_of-IsSplit linspace n groups embargo ends s,
  map-AllSplit linspace n groups embargo ends ss,
)

-- The splits that are given for an embargo that is not negative are one for each choice of groups.
-- One tests on the windows of its groups, keeps the embargo behind each of them in the data, and trains
-- on exactly the events that are in neither and that end before each later tested observation.
pub cpcv_splits-AllSplit :
    (linspace : ℕ → ℕ → ℕ → ℕ) (ends : List ℤ) (groups test_groups : ℤ) (embargo : ℕ)
    (splits : List PurgedFold)
    → cpcv_splits linspace ends groups test_groups (pos embargo) ≡ ok splits
    → AllSplit linspace
        (length ends)
        (pos_part groups)
        embargo
        ends
        (combinations (pos_part test_groups) (range 0 (pos_part groups)))
        splits
unfolding cpcv_splits
cpcv_splits-AllSplit linspace ends groups test_groups embargo splits e =
    let chosen = combinations (pos_part test_groups) (range 0 (pos_part groups)) in
    let same : splits
        ≡ map (split_of linspace (length ends) (pos_part groups) (pos embargo) ends) chosen =
      ground arith in
    rw same (map-AllSplit linspace (length ends) (pos_part groups) embargo ends chosen)
