-- ===== src/Governance/Simulation.antt =====
-- governance/simulation.py: counterfactual replay and labelled stress scenarios. Costs are floats,
-- whose type and operations are parameters.
pub mod Counts
mod Tests
use liki.Common.{
  ℕ, ◌-◌, String, string_eq, ◌==◌, List, [], ◌∷◌, map, Bool, true, false, not, ◌&&◌, is_empty,
  length, select, to_set, Result, ok, err, ◌>>=◌, ◌>>◌, raise_if,
}
use liki.Common.Sorting.{sort_by, str_leb}
use liki.Governance.Base.{Error, External, no_replay_events, no_scenarios}
use liki.Governance.Evidence.{ArtifactProvenance}

pub record ReplayEvent (F : Type 0) : Type 0 where
  pub branch_id : String
  pub actual_decision : String
  pub counterfactual_decision : String
  pub later_outcome : String
  pub compute_cost_usd : F
  pub statistical_capital : F
  pub source_artifact : ArtifactProvenance

pub record ReplayResult (F : Type 0) : Type 0 where
  pub input_hash : String
  pub evaluated_branches : ℕ
  pub killed_earlier : ℕ
  pub later_winners_lost : ℕ
  pub late_deaths_prevented : ℕ
  pub compute_cost_saved_usd : F
  pub statistical_capital_delta : F

-- What the arithmetic of floats and the hash of a tuple of records give.
pub record Arithmetic (F : Type 0) : Type 0 where
  pub zero_cost : F
  pub add_cost : F → F → F
  pub negate_cost : F → F

module _ {F : Type 0} where
  -- `actual_decision != "KILLED" and counterfactual_decision == "KILLED"`
  abbrev pub killed_only_now : ReplayEvent F → Bool
  killed_only_now e = not (e.actual_decision == "KILLED") && (e.counterfactual_decision == "KILLED")

  abbrev pub ended_as : String → ReplayEvent F → Bool
  ended_as outcome e = killed_only_now e && (e.later_outcome == outcome)

  -- `sum(cost(e) for e in events)`, from the left
  unfoldable pub total_cost : Arithmetic F → (ReplayEvent F → F) → F → List (ReplayEvent F) → F
  total_cost a cost acc [] = acc
  total_cost a cost acc (e ∷ es) = total_cost a cost (a.add_cost acc (cost e)) es

  unfoldable pub run_counterfactual_replay :
      Arithmetic F
      → (List (ReplayEvent F) → String)
      → List (ReplayEvent F)
      → Result Error (ReplayResult F)
  run_counterfactual_replay a hash events = do
    raise_if (is_empty events) no_replay_events
    let killed = select killed_only_now events
    ok (record {
      input_hash = hash events;
      evaluated_branches = length events;
      killed_earlier = length killed;
      later_winners_lost = length (select (ended_as "WINNER") events);
      late_deaths_prevented = length (select (ended_as "LATE_DEATH") events);
      compute_cost_saved_usd = total_cost a (λ e. e.compute_cost_usd) a.zero_cost killed;
      statistical_capital_delta =
          a.negate_cost (total_cost a (λ e. e.statistical_capital) a.zero_cost killed);
    })

pub record LabeledStressScenario : Type 0 where
  pub scenario_id : String
  pub scenario_class : String
  pub expected_decision : String
  pub observed_decision : String
  pub fixture_artifact : ArtifactProvenance

pub record StressComparison : Type 0 where
  pub input_hash : String
  pub scenario_classes : List String
  pub total : ℕ
  pub matched : ℕ
  pub mismatches : List String

abbrev pub is_mismatch : LabeledStressScenario → Bool
is_mismatch s = not (s.expected_decision == s.observed_decision)

unfoldable pub run_labeled_stress_comparison :
    (List LabeledStressScenario → String)
    → List LabeledStressScenario
    → Result Error StressComparison
run_labeled_stress_comparison hash scenarios = do
  raise_if (is_empty scenarios) no_scenarios
  let classes =
      sort_by str_leb (to_set (map (λ (s : LabeledStressScenario). s.scenario_class) scenarios))
  let mismatches = map (λ (s : LabeledStressScenario). s.scenario_id) (select is_mismatch scenarios)
  ok (record {
    input_hash = hash scenarios;
    scenario_classes = classes;
    total = length scenarios;
    matched = length scenarios - length mismatches;
    mismatches = mismatches;
  })
