-- ===== src/Governance/Handling/Course.antt =====
-- What holds of an incident along every course of accepted transitions.
use liki.Common.{ℕ, ◌-◌, ◌%◌, ◌≤◌, String, none, ◌≡◌, ◌≢◌, refl, arith, ok, sym, ◌∙◌}
use liki.Governance.Base.{External, Datetime}
use liki.Governance.Incident.{
  IncidentStatus, open_incident, contained, reconciling, resolved, closed, Incident,
}
use liki.Governance.Handling.{Handover, incident_index, with_status, transition_incident}
use liki.Governance.Handling.Step.{
  Leads, IsComplete, Leads-source, source, transition_incident-eq-ok,
}

-- The incidents that calls of `transition_incident` lead to, each stored before the next call.
pub data Course (ext : External) (i : Incident) : Incident → Type 0 where
  here : Course ext i i
  next :
      {j k : Incident} (to : IncidentStatus) (now : Datetime) (h : Handover)
      → Course ext i j
      → transition_incident ext j to now h ≡ ok k
      → Course ext i k

-- Which times are on record, by status.
abbrev pub IsTimed : Incident → Type 0
IsTimed i =
    (i.status ≡ contained → i.contained_at ≢ none)
    × (i.status ≡ reconciling → i.contained_at ≢ none)
    × (i.status ≡ resolved → (i.contained_at ≢ none) × (i.resolved_at ≢ none))
    × (i.status ≡ closed → (i.contained_at ≢ none) × (i.resolved_at ≢ none) × (i.closed_at ≢ none))

-- What no transition changes.
pub record IsSameCase (i j : Incident) : Type 0 where
  pub same_id : j.incident_id ≡ i.incident_id
  pub same_severity : j.severity ≡ i.severity
  pub same_evidence : j.evidence ≡ i.evidence
  pub same_opening : (j.opened_at ≡ i.opened_at) × (j.opened_by ≡ i.opened_by)
  pub same_scope : j.affected_modules ≡ i.affected_modules

-- The facts that one transition keeps, for the record that it stores.
closed_source : (to : IncidentStatus) → closed ≢ source to
closed_source to e = ground arith

module _ (i : Incident) (now : ℕ) (action : String) (h : Handover) where
  with_status-IsTimed :
      (to : IncidentStatus)
      → Leads i.status to
      → IsTimed i
      → IsTimed (with_status i to now action h)
  unfolding with_status
  with_status-IsTimed open_incident e t = ground (arith, Leads-source e)
  with_status-IsTimed contained e t = ground (arith, Leads-source e)
  with_status-IsTimed reconciling e t = ground (arith, Leads-source e)
  with_status-IsTimed resolved e t = ground (arith, Leads-source e)
  with_status-IsTimed closed e t = ground (arith, Leads-source e)

  with_status-IsSameCase :
      (first : Incident) (to : IncidentStatus)
      → IsSameCase first i
      → IsSameCase first (with_status i to now action h)
  unfolding with_status
  with_status-IsSameCase first open_incident s = ground arith
  with_status-IsSameCase first contained s = ground arith
  with_status-IsSameCase first reconciling s = ground arith
  with_status-IsSameCase first resolved s = ground arith
  with_status-IsSameCase first closed s = ground arith

  -- Versions count the transitions, and the handling goes round in four steps.
  abbrev Phase : ℕ → Incident → Type 0
  Phase v i = (v ≤ i.state_version) × ((i.state_version - v) % 4 ≡ incident_index i.status % 4)

  with_status-Phase :
      (v : ℕ) (to : IncidentStatus)
      → Leads i.status to
      → Phase v i
      → Phase v (with_status i to now action h)
  unfolding with_status
  with_status-Phase v open_incident e t = ground (arith, Leads-source e)
  with_status-Phase v contained e t = ground (arith, Leads-source e)
  with_status-Phase v reconciling e t = ground (arith, Leads-source e)
  with_status-Phase v resolved e t = ground (arith, Leads-source e)
  with_status-Phase v closed e t = ground (arith, Leads-source e)

module _ (ext : External) (i : Incident) where
  -- Every later record of an incident has the identity, severity and evidence of the first.
  pub Course-IsSameCase : {j : Incident} → Course ext i j → IsSameCase i j
  Course-IsSameCase here = record {
    same_id = refl;
    same_severity = refl;
    same_evidence = refl;
    same_opening = (refl, refl);
    same_scope = refl;
  }
  Course-IsSameCase (next {j} {k} to now h past e) =
      let (_, (action, stored), _) = transition_incident-eq-ok ext j to now h k e in
      rw stored (with_status-IsSameCase j now.instant action h i to (Course-IsSameCase past))

  -- From an incident that was just opened, each status comes with the times of the steps before it,
  -- and a settled or closed one with its evidence.
  pub Course-IsTimed :
      {j : Incident}
      → i.status ≡ open_incident
      → 1 ≤ i.state_version
      → Course ext i j
      → IsTimed j × IsComplete j
  Course-IsTimed start v here = (ground arith, ground arith)
  Course-IsTimed start v (next {j} {k} to now h past e) =
      let (leads, (action, stored), complete) = transition_incident-eq-ok ext j to now h k e in
      (
        rw stored
            (with_status-IsTimed j now.instant action h to leads (Course-IsTimed start v past).0),
        complete,
      )

  -- From an open incident, the version that was gained tells the status modulo four: a closed or
  -- reopened incident has gained a multiple of four.
  pub Course-Phase :
      {j : Incident}
      → i.status ≡ open_incident
      → Course ext i j
      → (i.state_version ≤ j.state_version)
        × ((j.state_version - i.state_version) % 4 ≡ incident_index j.status % 4)
  Course-Phase start here = ground arith
  Course-Phase start (next {j} {k} to now h past e) =
      let (leads, (action, stored), _) = transition_incident-eq-ok ext j to now h k e in
      rw stored (
        with_status-Phase j now.instant action h i.state_version to leads (Course-Phase start past))

  -- A closed incident accepts no transition.
  pub transition_incident_closed :
      (to : IncidentStatus) (now : Datetime) (h : Handover) (j : Incident)
      → i.status ≡ closed
      → transition_incident ext i to now h ≢ ok j
  transition_incident_closed to now h j shut e =
      let (leads, _, _) = transition_incident-eq-ok ext i to now h j e in
      closed_source to (sym shut ∙ Leads-source leads)
