-- ===== src/Governance/Incident.antt =====
-- governance/domain.py: incidents and change sets, with the validators of their contents.
use liki.Common.{
  ℕ, String, List, Option, Bool, true, false, not, ◌&&◌, is_empty, is_some, length, ltb, Result, ok,
  ◌>>◌, raise_if,
}
use liki.Governance.Base.{
  Error, some_items, resolution_incomplete, postmortem_missing, interaction_untested, below_minimum,
}
use liki.Governance.Evidence.{ArtifactProvenance, AutomatedCheck, SnapshotDependency}

pub data IncidentSeverity : Type 0 where
  sev0 sev1 sev2 sev3 : IncidentSeverity

pub data IncidentStatus : Type 0 where
  open_incident contained reconciling resolved closed : IncidentStatus

pub record Incident : Type 0 where
  pub incident_id : String
  pub severity : IncidentSeverity
  pub status : IncidentStatus
  pub incident_type : String
  pub opened_at : ℕ
  pub opened_by : String
  pub affected_modules : List String
  pub affected_run_ids : List String
  pub affected_strategy_ids : List String
  pub affected_policy_versions : List String
  pub affected_artifact_ids : List String
  pub evidence : List ArtifactProvenance
  pub containment_actions : List String
  pub contained_at : Option ℕ
  pub resolved_at : Option ℕ
  pub closed_at : Option ℕ
  pub reconciliation_evidence : List ArtifactProvenance
  pub root_cause_artifact : Option ArtifactProvenance
  pub impact_assessment_artifact : Option ArtifactProvenance
  pub postmortem_artifact : Option ArtifactProvenance
  pub owner_notification_artifact : Option ArtifactProvenance
  pub owner_notified_at : Option ℕ
  pub corrective_action_ids : List String
  pub state_version : ℕ

-- `status in {RESOLVED, CLOSED}`
abbrev pub is_settled : IncidentStatus → Bool
is_settled resolved = true
is_settled closed = true
is_settled _ = false

abbrev pub is_closed : IncidentStatus → Bool
is_closed closed = true
is_closed _ = false

-- `severity in {SEV0, SEV1}`
abbrev pub is_severe : IncidentSeverity → Bool
is_severe sev0 = true
is_severe sev1 = true
is_severe _ = false

-- The bounds of the fields, and `_incident_evidence_is_complete`.
unfoldable pub validate_incident : Incident → Result Error Incident
unfolding some_items
validate_incident i = do
  some_items i.affected_modules
  some_items i.evidence
  raise_if (ltb i.state_version 1) below_minimum
  raise_if
      (is_settled i.status
        && not (
            not (is_empty i.reconciliation_evidence)
            && is_some i.root_cause_artifact
            && is_some i.impact_assessment_artifact))
      resolution_incomplete
  raise_if (is_closed i.status && is_severe i.severity && not (is_some i.postmortem_artifact))
      postmortem_missing
  ok i

pub record ChangeSet : Type 0 where
  pub change_set_id : String
  pub proposal_ids : List String
  pub dependencies : List SnapshotDependency
  pub affected_scopes : List String
  pub approval_snapshot_hash : String
  pub interaction_test_artifacts : List ArtifactProvenance
  pub interaction_tests : List AutomatedCheck
  pub state : String
  pub created_at : ℕ
  pub revalidated_at : Option ℕ
  pub promoted_at : Option ℕ
  pub rollback_set_id : Option String

-- Several proposals without tests of their interaction.
abbrev pub is_untested : ChangeSet → Bool
is_untested c =
    ltb 1 (length c.proposal_ids)
    && not (not (is_empty c.interaction_test_artifacts) && not (is_empty c.interaction_tests))

-- `_composite_sets_are_tested`, behind the bounds of the fields
unfoldable pub validate_change_set : ChangeSet → Result Error ChangeSet
unfolding some_items
validate_change_set c = do
  some_items c.proposal_ids
  some_items c.dependencies
  some_items c.affected_scopes
  raise_if (is_untested c) interaction_untested
  ok c
