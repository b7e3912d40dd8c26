-- ===== src/Governance/Handling.antt =====
-- governance/domain.py: `transition_incident`, the handling of an incident.
pub mod Step
pub mod Course
mod Tests
use liki.Common.{
  ℕ, suc, ◌+◌, String, string_eq, Comparable, nat_beq, nat_beq_iff, ◌==◌, List, [], ◌∷◌, ◌++◌,
  Option, none, some, Bool, true, false, not, contains, if◌then◌else◌, ◌≡◌, ◌↔◌, arith, Result, ok,
  err, ◌>>=◌, ◌>>◌, raise_if,
}
use liki.Governance.Base.{Error, External, Datetime, utc, non_empty, invalid_transition}
use liki.Governance.Evidence.{ArtifactProvenance}
use liki.Governance.Incident.{
  IncidentStatus, open_incident, contained, reconciling, resolved, closed, Incident,
  validate_incident,
}

-- The place of a status in the enumeration, by which statuses are compared.
abbrev pub incident_index : IncidentStatus → ℕ
incident_index open_incident = 0
incident_index contained = 1
incident_index reconciling = 2
incident_index resolved = 3
incident_index closed = 4

abbrev pub incident_status_beq : IncidentStatus → IncidentStatus → Bool
incident_status_beq a b = nat_beq (incident_index a) (incident_index b)

pub incident_status_beq_iff : (a b : IncidentStatus) → (incident_status_beq a b ≡ true) ↔ (a ≡ b)
incident_status_beq_iff a b = ground arith

instance abbrev pub incident_status_eq : Comparable IncidentStatus
incident_status_eq = record { same = incident_status_beq; same_iff = incident_status_beq_iff }

-- `valid[incident.status]`
unfoldable pub valid_next : IncidentStatus → List IncidentStatus
valid_next open_incident = contained ∷ []
valid_next contained = reconciling ∷ []
valid_next reconciling = resolved ∷ []
valid_next resolved = closed ∷ open_incident ∷ []
valid_next closed = []

-- `containment_action or "contained"`
unfoldable pub action_text : Option String → String
action_text none = "contained"
action_text (some a) = if a == "" then "contained" else a

-- The keyword arguments of the call.
pub record Handover : Type 0 where
  pub containment_action : Option String
  pub reconciliation_evidence : List ArtifactProvenance
  pub root_cause_artifact : Option ArtifactProvenance
  pub impact_assessment_artifact : Option ArtifactProvenance
  pub postmortem_artifact : Option ArtifactProvenance

-- `data` with the fields that the new status brings; the text is the validated action.
unfoldable pub with_status : Incident → IncidentStatus → ℕ → String → Handover → Incident
with_status i open_incident now action h = record i {
  status = open_incident;
  state_version = i.state_version + 1;
}
with_status i contained now action h = record i {
  status = contained;
  state_version = i.state_version + 1;
  contained_at = some now;
  containment_actions = i.containment_actions ++ action ∷ [];
}
with_status i reconciling now action h = record i {
  status = reconciling;
  state_version = i.state_version + 1;
}
with_status i resolved now action h = record i {
  status = resolved;
  state_version = i.state_version + 1;
  resolved_at = some now;
  reconciliation_evidence = h.reconciliation_evidence;
  root_cause_artifact = h.root_cause_artifact;
  impact_assessment_artifact = h.impact_assessment_artifact;
}
with_status i closed now action h = record i {
  status = closed;
  state_version = i.state_version + 1;
  closed_at = some now;
  postmortem_artifact = h.postmortem_artifact;
}

-- The one text that the call brings in is validated if it is stored.
unfoldable pub validated_action : External → IncidentStatus → Handover → Result Error String
unfolding action_text non_empty
validated_action ext to h =
    if to == contained then non_empty ext (action_text h.containment_action) else ok "contained"

unfoldable pub transition_incident :
    External → Incident → IncidentStatus → Datetime → Handover → Result Error Incident
transition_incident ext i to now h = do
  at ← utc now
  raise_if (not (contains (valid_next i.status) to)) invalid_transition
  action ← validated_action ext to h
  validate_incident (with_status i to at action h)
