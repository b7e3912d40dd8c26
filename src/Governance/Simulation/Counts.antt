-- ===== src/Governance/Simulation/Counts.antt =====
-- What the counts of a replay and of a stress comparison mean.
use liki.Common.{
  ℕ, suc, ◌↔◌, true, Bool-cases, inl, inr, ◌+◌, ◌≤◌, String, string_eq, ◌==◌, List, [], ◌∷◌, map,
  Bool, ◌≡◌, ◌≢◌, arith, length, select, contains, to_set, Distinct, to_set-Distinct,
  contains-to_set, ◌∙◌, ok,
}
use liki.Common.Sorting.{
  sort_by, str_leb, IsSorted, sort_by-IsSorted, str_leb_total, sort_by-Distinct, contains-sort_by,
}
use liki.Governance.Simulation.{
  ReplayEvent, ReplayResult, Arithmetic, killed_only_now, ended_as, run_counterfactual_replay,
  LabeledStressScenario, StressComparison, is_mismatch, run_labeled_stress_comparison,
}

outcomes_differ : ◌≢◌ {A = String} "WINNER" "LATE_DEATH"
outcomes_differ p = cc ((string_eq.same_iff "WINNER" "LATE_DEATH").1 p)

counts_bound :
    {F : Type 0} (es : List (ReplayEvent F))
    → (length (select (ended_as "WINNER") es) + length (select (ended_as "LATE_DEATH") es)
        ≤ length (select killed_only_now es))
      × (length (select killed_only_now es) ≤ length es)
counts_bound [] = omega arith
counts_bound (e ∷ es) = ground (
  arith,
  counts_bound es,
  string_eq.same_iff e.later_outcome "WINNER",
  string_eq.same_iff e.later_outcome "LATE_DEATH",
  outcomes_differ,
)

-- How many elements of a list have a property.
pub data Counted {A : Type 0} (P : A → Type 0) : List A → ℕ → Type 0 where
  none_left : Counted P [] 0
  counted : {x : A} {xs : List A} {n : ℕ} → P x → Counted P xs n → Counted P (x ∷ xs) (suc n)
  skipped : {x : A} {xs : List A} {n : ℕ} → ¬ P x → Counted P xs n → Counted P (x ∷ xs) n

-- A branch that was not killed, and that the new rule kills.
abbrev pub KillsAlone : {F : Type 0} → ReplayEvent F → Type 0
KillsAlone e = (e.actual_decision ≢ "KILLED") × (e.counterfactual_decision ≡ "KILLED")

select-Counted :
    {A : Type 0} (P : A → Type 0) (p : A → Bool)
    → ((x : A) → (p x ≡ true) ↔ P x)
    → (xs : List A) → Counted P xs (length (select p xs))
select-Counted P p h [] = none_left
select-Counted P p h (x ∷ xs) = elim (Bool-cases (p x)) [
  | inl hit ↦ rw hit (counted ((h x).0 hit) (select-Counted P p h xs))
  | inr miss ↦ rw miss (skipped (λ k. ground (arith, miss, (h x).1 k)) (select-Counted P p h xs))
]

killed_only_now_iff : {F : Type 0} (e : ReplayEvent F) → (killed_only_now e ≡ true) ↔ KillsAlone e
killed_only_now_iff e = ground (
  arith,
  string_eq.same_iff e.actual_decision "KILLED",
  string_eq.same_iff e.counterfactual_decision "KILLED",
)

ended_as_iff :
    {F : Type 0} (outcome : String) (e : ReplayEvent F)
    → (ended_as outcome e ≡ true) ↔ (KillsAlone e × (e.later_outcome ≡ outcome))
ended_as_iff outcome e = ground (
  arith,
  string_eq.same_iff e.actual_decision "KILLED",
  string_eq.same_iff e.counterfactual_decision "KILLED",
  string_eq.same_iff e.later_outcome outcome,
)

-- The branches killed earlier are exactly those that were not killed and that the new rule kills; the
-- winners lost and the late deaths prevented are exactly those of them that ended so, and their sum
-- is at most the number killed, which is at most that of the branches evaluated: all, at least one.
pub run_counterfactual_replay_counts :
    {F : Type 0} (a : Arithmetic F) (hash : List (ReplayEvent F) → String)
    (es : List (ReplayEvent F)) (r : ReplayResult F)
    → run_counterfactual_replay a hash es ≡ ok r
    → Counted KillsAlone es r.killed_earlier
      × Counted (λ e. KillsAlone e × (e.later_outcome ≡ "WINNER")) es r.later_winners_lost
      × Counted (λ e. KillsAlone e × (e.later_outcome ≡ "LATE_DEATH")) es r.late_deaths_prevented
      × (r.later_winners_lost + r.late_deaths_prevented ≤ r.killed_earlier)
      × (r.killed_earlier ≤ r.evaluated_branches)
      × (1 ≤ r.evaluated_branches)
      × (r.evaluated_branches ≡ length es)
unfolding run_counterfactual_replay
run_counterfactual_replay_counts a hash es r h =
    let killed : r.killed_earlier ≡ length (select killed_only_now es) = ground arith in
    let winners : r.later_winners_lost ≡ length (select (ended_as "WINNER") es) = ground arith in
    let deaths : r.late_deaths_prevented ≡ length (select (ended_as "LATE_DEATH") es) =
      ground arith in
    (
      rw killed (select-Counted KillsAlone killed_only_now killed_only_now_iff es),
      rw winners (
          select-Counted (λ e. KillsAlone e × (e.later_outcome ≡ "WINNER")) (ended_as "WINNER")
            (ended_as_iff "WINNER") es),
      rw deaths (
          select-Counted (λ e. KillsAlone e × (e.later_outcome ≡ "LATE_DEATH"))
            (ended_as "LATE_DEATH") (ended_as_iff "LATE_DEATH") es),
      ground (arith, counts_bound es),
      ground (arith, counts_bound es),
      ground (arith, counts_bound es),
      ground arith,
    )

-- The labelled scenarios whose decision came out as expected.
abbrev pub as_expected : LabeledStressScenario → Bool
as_expected s = s.expected_decision == s.observed_decision

length-select_not :
    (ss : List LabeledStressScenario)
    → length (map (λ (s : LabeledStressScenario). s.scenario_id) (select is_mismatch ss))
        + length (select as_expected ss)
      ≡ length ss
length-select_not [] = omega arith
length-select_not (s ∷ ss) = ground (arith, length-select_not ss)

-- The scenarios matched are those whose decision came out as expected, every other one is listed,
-- and the classes are those that occur, in order and without repetition.
pub run_labeled_stress_comparison_counts :
    (hash : List LabeledStressScenario → String) (ss : List LabeledStressScenario)
    (r : StressComparison)
    → run_labeled_stress_comparison hash ss ≡ ok r
    → (r.matched ≡ length (select as_expected ss))
      × (r.matched + length r.mismatches ≡ r.total)
      × (r.total ≡ length ss)
      × IsSorted str_leb r.scenario_classes
      × Distinct r.scenario_classes
      × ((k : String)
          → contains r.scenario_classes k
            ≡ contains (map (λ (s : LabeledStressScenario). s.scenario_class) ss) k)
unfolding run_labeled_stress_comparison
run_labeled_stress_comparison_counts hash ss r h =
    let classes = map (λ (s : LabeledStressScenario). s.scenario_class) ss in
    let e : r.scenario_classes ≡ sort_by str_leb (to_set classes) = ground arith in
    (
      ground (arith, length-select_not ss),
      ground (arith, length-select_not ss),
      ground arith,
      rw e (sort_by-IsSorted str_leb str_leb_total (to_set classes)),
      rw e (sort_by-Distinct str_leb (to_set classes) (to_set-Distinct classes)),
      λ k. rw e (contains-sort_by str_leb (to_set classes) k ∙ contains-to_set classes k),
    )
