-- ===== src/Governance/Handling/Tests.antt =====
-- The sample incident is contained, resolved and closed.
use liki.Common.{refl, arith}
use liki.Governance.Base.{utc}
use liki.Governance.Incident.{Incident, contained, reconciling, resolved, closed, validate_incident}
use liki.Governance.Handling.{valid_next, with_status, validated_action, transition_incident}
use liki.Governance.Handling.Step.{IsComplete}
use liki.Governance.Handling.Course.{Course, here, next, IsTimed, Course-IsTimed}
use liki.Governance.Samples.{plain, at, incident, handover}

abbrev on_contained : Incident
unfolding with_status
on_contained = with_status incident contained 2 "halt" handover

abbrev on_reconciling : Incident
unfolding with_status
on_reconciling = with_status on_contained reconciling 3 "contained" handover

abbrev on_resolved : Incident
unfolding with_status
on_resolved = with_status on_reconciling resolved 4 "contained" handover

abbrev on_closed : Incident
unfolding with_status
on_closed = with_status on_resolved closed 5 "contained" handover

handled : Course plain incident on_closed
unfolding transition_incident utc valid_next validated_action validate_incident with_status
handled =
    next closed (at 5) handover
      (next resolved (at 4) handover
        (next reconciling (at 3) handover (next contained (at 2) handover here refl) refl) refl)
      refl

Course-IsTimed_example : IsTimed on_closed × IsComplete on_closed
Course-IsTimed_example = Course-IsTimed plain incident refl (omega arith) handled
