-- ===== src/Governance/Simulation/Tests.antt =====
-- Two replayed branches, with whole costs, and two labelled scenarios.
use liki.Common.{ℕ, ◌+◌, ◌≤◌, String, string_eq, List, [], ◌∷◌, ◌≡◌, refl, length}
use liki.Governance.Simulation.{
  ReplayEvent, ReplayResult, Arithmetic, total_cost, run_counterfactual_replay,
  LabeledStressScenario, StressComparison,
}
use liki.Governance.Simulation.Counts.{Counted, KillsAlone, run_counterfactual_replay_counts}
use liki.Governance.Samples.{artifact}

abbrev whole : Arithmetic ℕ
whole = record { zero_cost = 0; add_cost = λ a b. a + b; negate_cost = λ a. a }

abbrev event : String → String → ReplayEvent ℕ
event now outcome = record {
  branch_id = "b1";
  actual_decision = "KEPT";
  counterfactual_decision = now;
  later_outcome = outcome;
  compute_cost_usd = 3;
  statistical_capital = 2;
  source_artifact = artifact;
}

abbrev events : List (ReplayEvent ℕ)
events = event "KILLED" "WINNER" ∷ event "KEPT" "LATE_DEATH" ∷ []

abbrev replayed : ReplayResult ℕ
replayed = record {
  input_hash = "x";
  evaluated_branches = 2;
  killed_earlier = 1;
  later_winners_lost = 1;
  late_deaths_prevented = 0;
  compute_cost_saved_usd = 3;
  statistical_capital_delta = 2;
}

run_counterfactual_replay_counts_example :
    Counted KillsAlone events replayed.killed_earlier
    × Counted (λ e. KillsAlone e × (e.later_outcome ≡ "WINNER")) events replayed.later_winners_lost
    × Counted
        (λ e. KillsAlone e × (e.later_outcome ≡ "LATE_DEATH"))
        events
        replayed.late_deaths_prevented
    × (replayed.later_winners_lost + replayed.late_deaths_prevented ≤ replayed.killed_earlier)
    × (replayed.killed_earlier ≤ replayed.evaluated_branches)
    × (1 ≤ replayed.evaluated_branches)
    × (replayed.evaluated_branches ≡ length events)
unfolding run_counterfactual_replay total_cost
run_counterfactual_replay_counts_example =
    run_counterfactual_replay_counts whole (λ es. "x") events replayed refl

abbrev scenario : String → String → LabeledStressScenario
scenario id observed = record {
  scenario_id = id;
  scenario_class = "crash";
  expected_decision = "HALT";
  observed_decision = observed;
  fixture_artifact = artifact;
}

abbrev scenarios : List LabeledStressScenario
scenarios = scenario "s1" "HALT" ∷ scenario "s2" "TRADE" ∷ []

abbrev compared : StressComparison
compared = record {
  input_hash = "x";
  scenario_classes = "crash" ∷ [];
  total = 2;
  matched = 1;
  mismatches = "s2" ∷ [];
}
