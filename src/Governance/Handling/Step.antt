-- ===== src/Governance/Handling/Step.antt =====
-- One accepted transition of an incident.
use liki.Common.{
  String, string_eq, [], none, true, contains, ◌≡◌, refl, ◌≢◌, inl, inr, arith, ok, ◌≤◌,
  Result-cases,
}
use liki.Governance.Base.{External, Datetime, utc}
use liki.Governance.Incident.{
  IncidentStatus, open_incident, contained, reconciling, resolved, closed, Incident,
  validate_incident, is_settled, is_severe,
}
use liki.Governance.Handling.{
  Handover, valid_next, with_status, validated_action, transition_incident, incident_status_eq,
}

pub data Leads : IncidentStatus → IncidentStatus → Type 0 where
  contain : Leads open_incident contained
  reconcile : Leads contained reconciling
  resolve : Leads reconciling resolved
  close : Leads resolved closed
  reopen : Leads resolved open_incident

-- The one status that a status is reached from.
abbrev pub source : IncidentStatus → IncidentStatus
source open_incident = resolved
source contained = open_incident
source reconciling = contained
source resolved = reconciling
source closed = resolved

pub Leads-source : {s t : IncidentStatus} → Leads s t → s ≡ source t
Leads-source contain = refl
Leads-source reconcile = refl
Leads-source resolve = refl
Leads-source close = refl
Leads-source reopen = refl

Leads-of_valid : (s t : IncidentStatus) → contains (valid_next s) t ≡ true → Leads s t
unfolding valid_next
Leads-of_valid s t h = grind (arith, contain, reconcile, resolve, close, reopen)

-- What an incident holds once it is settled, and once a severe one is closed.
pub record IsComplete (i : Incident) : Type 0 where
  pub settled_evidence :
      is_settled i.status ≡ true
      → (i.reconciliation_evidence ≢ [])
        × (i.root_cause_artifact ≢ none)
        × (i.impact_assessment_artifact ≢ none)
  pub closed_postmortem :
      i.status ≡ closed → is_severe i.severity ≡ true → i.postmortem_artifact ≢ none
  pub versioned : 1 ≤ i.state_version

validate_incident-IsComplete :
    (i : Incident) {j : Incident} → validate_incident i ≡ ok j → (j ≡ i) × IsComplete i
unfolding validate_incident
validate_incident-IsComplete i h = (
  ground arith,
  record {
    settled_evidence = λ s. (ground arith, ground arith, ground arith);
    closed_postmortem = λ c s. ground arith;
    versioned = ground arith;
  },
)

module _ (ext : External) (i : Incident) (to : IncidentStatus) (now : Datetime) (h : Handover) where
  pub transition_incident-eq-ok :
      (j : Incident)
      → transition_incident ext i to now h ≡ ok j
      → Leads i.status to
        × ((action : String) × (j ≡ with_status i to now.instant action h))
        × IsComplete j
  unfolding transition_incident utc
  transition_incident-eq-ok j e = elim (Result-cases (validated_action ext to h)) [
    | inr (x, refused) ↦ absurd (ground (arith, refused))
    | inl (action, stored) ↦
        let valid = validate_incident (with_status i to now.instant action h) in
        let accepted : valid ≡ ok j = ground (arith, stored) in
        let (same, complete) =
          validate_incident-IsComplete (with_status i to now.instant action h) accepted in
        (Leads-of_valid i.status to (ground arith), (action, same), rw same complete)
  ]
