-- ===== src/Governance/Samples.antt =====
-- Small records on which the tests of governance run.
use liki.Common.{ℕ, ◌+◌, String, string_eq, ◌==◌, List, [], ◌∷◌, none, some, false, if◌then◌else◌}
use liki.Common.Int.{pos}
use liki.Common.Json.{Json, member, text, object}
use liki.Governance.Base.{External, Datetime}
use liki.Governance.Evidence.{ArtifactProvenance, AutomatedCheck, pass, ApprovalSnapshot}
use liki.Governance.Proposal.{green, amber, red, proposed, GovernanceProposal, Classification}
use liki.Governance.Policy.{GovernancePolicy}
use liki.Governance.Review.{support, GovernanceReview, LifecycleEvidence, OwnerDelivery}
use liki.Governance.Incident.{Incident, sev1, open_incident}
use liki.Governance.Handling.{Handover}
use liki.Governance.ModelRisk.{ModelRecord, approved, strategy, material}
use liki.Governance.Promotion.{veto_window}

abbrev first_text : Json → String
first_text (object (member k (text t) rest)) = t
first_text _ = ""

-- Text is taken as it stands, but for one padded name; the digest is the first text of an object.
abbrev pub plain : External
plain = record {
  strip = λ s. if s == " ann" then "ann" else s;
  lower = λ s. s;
  digest = first_text;
  datetime_text = λ t. "";
}

abbrev pub at : ℕ → Datetime
at t = record { instant = t; utc_offset = some (pos 0) }

abbrev pub artifact : ArtifactProvenance
artifact = record {
  artifact_id = "a1";
  content_hash = "h1";
  authenticated_principal = "ci";
  environment_fingerprint = "e1";
  code_fingerprint = "c1";
  classification = "INTERNAL";
}

abbrev pub snapshot : ApprovalSnapshot
snapshot = record {
  dependencies = record { scope = "core"; version = "1"; content_hash = "h2" } ∷ [];
  known_incident_ids = [];
  evidence_hashes = "h1" ∷ [];
  snapshot_hash = "s1";
}

abbrev pub proposal : GovernanceProposal
proposal = record {
  proposal_id = "p1";
  proposal_version = 1;
  authored_by = "ann";
  declared_class = green;
  problem = "drift";
  proposed_change = "retune";
  affected_modules = "core" ∷ [];
  affected_paths = "liki/core.py" ∷ [];
  protected_controls = [];
  evidence = record { role = "study"; artifact = artifact } ∷ [];
  counterevidence = [];
  historical_replay_plan = "replay";
  risk_if_changed = "low";
  risk_if_not_changed = "low";
  rollback_plan = "revert";
  owner_attention_required = false;
  real_money_enablement = false;
  approval_snapshot = snapshot;
  status = proposed;
  created_at = 1;
  classification_source = none;
  complete_evidence_at = some 5;
  owner_notification_delivered_at = none;
  promotion_eligible_at = none;
  owner_veto_at = none;
  owner_approval_at = none;
  promoted_at = none;
  rollback_policy_id = none;
}

abbrev pub policy : GovernancePolicy
policy = record {
  policy_id = "gov";
  policy_version = "1";
  content_hash = "h3";
  protected_controls =
      record { control_id = "core"; path_prefixes = "liki/" ∷ []; minimum_class = amber }
      ∷ record { control_id = "web"; path_prefixes = "liki/web" ∷ []; minimum_class = red }
      ∷ [];
  review_thresholds = λ c. some 3;
}

abbrev pub classification : Classification
classification = record {
  proposal_id = "p1";
  policy_id = "gov";
  policy_version = "1";
  classifier_principal = "bob";
  deterministic_floor = green;
  final_class = green;
  matched_controls = [];
  policy_content_hash = "h3";
  classified_at = 2;
}

abbrev pub review_by : String → GovernanceReview
review_by name = record {
  council_review_id = name;
  proposal_id = "p1";
  reviewer_principal = name;
  profile = record {
    provider_correlation_domain = name;
    model_family = "f";
    model_version = "1";
    reviewer_mandate = "adversarial";
    prompt_template_version = "1";
    evidence_ordering = "h1" ∷ [];
    prior_verdicts_visible = false;
    shared_tools_retrieval_policy = "none";
    known_shared_contamination = [];
    independence_group_id = name;
    fresh_context_id = name;
  };
  evidence_manifest_hash = "m1";
  inspected_evidence = artifact ∷ [];
  verdict = support;
  material_objections = [];
  created_at = 3;
}

abbrev pub reviews : List GovernanceReview
reviews = review_by "r1" ∷ review_by "r2" ∷ review_by "r3" ∷ []

abbrev pub passing_check : AutomatedCheck
passing_check = record {
  check_id = "k1";
  check_kind = "unit";
  result = pass;
  result_artifact = artifact;
  executed_at = 4;
}

abbrev pub lifecycle : LifecycleEvidence
lifecycle = record { replay = []; tests = passing_check ∷ []; shadow = []; canary = [] }

abbrev pub delivery : OwnerDelivery
delivery = record {
  authoritative_channel = "mail";
  notification_id = "n1";
  provider_message_id = "m1";
  delivered_at = 10;
  lifecycle_snapshot_hash = "sha256:";
}

abbrev pub after_window : Datetime
after_window = at (10 + veto_window)

abbrev pub incident : Incident
incident = record {
  incident_id = "i1";
  severity = sev1;
  status = open_incident;
  incident_type = "outage";
  opened_at = 1;
  opened_by = "ops";
  affected_modules = "core" ∷ [];
  affected_run_ids = [];
  affected_strategy_ids = [];
  affected_policy_versions = [];
  affected_artifact_ids = [];
  evidence = artifact ∷ [];
  containment_actions = [];
  contained_at = none;
  resolved_at = none;
  closed_at = none;
  reconciliation_evidence = [];
  root_cause_artifact = none;
  impact_assessment_artifact = none;
  postmortem_artifact = none;
  owner_notification_artifact = none;
  owner_notified_at = none;
  corrective_action_ids = [];
  state_version = 1;
}

abbrev pub handover : Handover
handover = record {
  containment_action = some "halt";
  reconciliation_evidence = artifact ∷ [];
  root_cause_artifact = some artifact;
  impact_assessment_artifact = some artifact;
  postmortem_artifact = some artifact;
}

abbrev pub model_named : String → ModelRecord
model_named id = record {
  model_id = id;
  model_type = strategy;
  owner_role = "desk";
  developer_principals = "dev" ∷ [];
  developer_artifacts = artifact ∷ [];
  purpose = "signal";
  allowed_uses = "paper" ∷ [];
  prohibited_uses = "live" ∷ [];
  materiality = material;
  inputs = "bars" ∷ [];
  outputs = "score" ∷ [];
  assumptions = "stationary" ∷ [];
  limitations = "short history" ∷ [];
  dependencies = "numpy" ∷ [];
  validation_status = "done";
  champion_challenger_status = "champion";
  monitoring_plan_id = "mp";
  version = "1";
  status = approved;
  development_evidence = artifact ∷ [];
  validation_evidence = [];
  monitoring_evidence = [];
  recalibration_consumed_evidence = [];
  model_card = none;
  created_at = 1;
  updated_at = 1;
  validation_due_at = none;
  retired_at = none;
  replacement_model_id = none;
}
