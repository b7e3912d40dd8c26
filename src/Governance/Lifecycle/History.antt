-- ===== src/Governance/Lifecycle/History.antt =====
-- What one transition demands, and what holds of every history of accepted transitions.
use liki.Common.{
  ℕ, ◌+◌, ◌≤◌, String, string_eq, List, [], Option, some, ◌≡◌, ◌↔◌, ◌≢◌, arith, Result, ok, ap, sym,
  ◌∙◌,
}
use liki.Common.Int.{pos, int_eq}
use liki.Governance.Base.{Error, External, Datetime, utc, non_empty}
use liki.Governance.Evidence.{ArtifactProvenance}
use liki.Governance.Proposal.{
  ProposalStatus, proposed, promoted, rolled_back, frozen, stale_approval, vetoed, rejected,
  status_index, GovernanceProposal,
}
use liki.Governance.Lifecycle.{ProposalStateTransition, validate_transition, transition_proposal}
use liki.Governance.Lifecycle.Graph.{
  Edge, classify, review, replay, test, cast_shadow, try_canary, prepare, promote, monitor,
  roll_back, roll_back_late, halt, IsHalt, halt_frozen, halt_stale, halt_vetoed, halt_rejected,
  Edge-of_allowed, allowed_of_Edge,
}

-- What the call demands of its arguments.
pub record Demands (ext : External) (p : GovernanceProposal) (version : ℕ) (to : ProposalStatus)
    (actor : String) (evidence : List ArtifactProvenance) (now : Datetime)
    (evaluation : Option ProposalStatus) : Type 0 where
  pub at_utc : now.utc_offset ≡ some (pos 0)
  pub along_edge : Edge p.status to
  pub evaluated : to ≡ promoted → evaluation ≡ some promoted
  pub with_evidence : evidence ≢ []
  pub by_someone : ext.strip actor ≢ ""
  pub versioned : (1 ≤ version) × (1 ≤ p.proposal_version)

module _ (ext : External) (p : GovernanceProposal) (version : ℕ) (to : ProposalStatus)
    (actor : String) (evidence : List ArtifactProvenance) (now : Datetime)
    (evaluation : Option ProposalStatus) where
  abbrev call : Result Error ProposalStateTransition
  call = transition_proposal ext p version to actor evidence now evaluation

  abbrev pub recorded : ProposalStateTransition
  recorded = record {
    proposal_id = p.proposal_id;
    proposal_version = p.proposal_version;
    state_before = p.status;
    state_after = to;
    state_version_before = version;
    state_version_after = version + 1;
    actor_principal = ext.strip actor;
    evidence = evidence;
    created_at = now.instant;
  }

  Demands-of_ok :
      {t : ProposalStateTransition}
      → call ≡ ok t
      → Demands ext p version to actor evidence now evaluation × (t ≡ recorded)
  unfolding transition_proposal validate_transition non_empty utc
  Demands-of_ok h = (
    record {
      at_utc = ground (arith, int_eq.same_iff);
      along_edge = Edge-of_allowed p.status to (ground arith);
      evaluated = ground arith;
      with_evidence = ground arith;
      by_someone = ground (arith, string_eq.same_iff (ext.strip actor) "");
      versioned = ground arith;
    },
    ground arith,
  )

  ok_of_Demands : Demands ext p version to actor evidence now evaluation → call ≡ ok recorded
  unfolding transition_proposal validate_transition non_empty utc
  ok_of_Demands d =
      ground
        (arith, allowed_of_Edge d.along_edge, string_eq.same_iff (ext.strip actor) "", d.evaluated)

  -- A transition is accepted exactly when the call meets its demands, and then records the old and
  -- the new status and the next version.
  pub transition_proposal_iff :
      (t : ProposalStateTransition)
      → (call ≡ ok t) ↔ (Demands ext p version to actor evidence now evaluation × (t ≡ recorded))
  transition_proposal_iff t = (λ h. Demands-of_ok h, λ d. ok_of_Demands d.0 ∙ ap ok (sym d.1))

-- One accepted transition of the proposal at a status and version, stored by its owner.
pub data Stored (ext : External) (p : GovernanceProposal) (s : ProposalStatus) (v : ℕ)
    (t : ProposalStatus) (w : ℕ) : Type 0 where
  store :
      (actor : String) (evidence : List ArtifactProvenance) (now : Datetime)
      (evaluation : Option ProposalStatus) {r : ProposalStateTransition}
      → transition_proposal ext (record p { status = s }) v t actor evidence now evaluation ≡ ok r
      → w ≡ r.state_version_after
      → Stored ext p s v t w

pub data History (ext : External) (p : GovernanceProposal) (s : ProposalStatus) (v : ℕ)
    : ProposalStatus → ℕ → Type 0 where
  here : History ext p s v s v
  next :
      {t u : ProposalStatus} {w x : ℕ}
      → History ext p s v t w
      → Stored ext p t w u x
      → History ext p s v u x

-- A proposal that was stopped stays stopped.
IsHalt-Edge : {s t : ProposalStatus} → IsHalt s → Edge s t → IsHalt t
IsHalt-Edge halt_frozen (halt h) = h
IsHalt-Edge halt_stale (halt h) = h
IsHalt-Edge halt_vetoed (halt h) = h
IsHalt-Edge halt_rejected (halt h) = h

-- How far a proposal that started at version `v` has come.
abbrev Progress : ProposalStatus → ℕ → ℕ → Type 0
Progress rolled_back v w = v + 9 ≤ w
Progress frozen v w = Unit
Progress stale_approval v w = Unit
Progress vetoed v w = Unit
Progress rejected v w = Unit
Progress t v w = w ≡ v + status_index t

Edge-Progress : {s t : ProposalStatus} (v w : ℕ) → Edge s t → Progress s v w → Progress t v (w + 1)
Edge-Progress v w (halt halt_frozen) g = tt
Edge-Progress v w (halt halt_stale) g = tt
Edge-Progress v w (halt halt_vetoed) g = tt
Edge-Progress v w (halt halt_rejected) g = tt
Edge-Progress v w classify g = omega arith
Edge-Progress v w review g = omega arith
Edge-Progress v w replay g = omega arith
Edge-Progress v w test g = omega arith
Edge-Progress v w cast_shadow g = omega arith
Edge-Progress v w try_canary g = omega arith
Edge-Progress v w prepare g = omega arith
Edge-Progress v w promote g = omega arith
Edge-Progress v w monitor g = omega arith
Edge-Progress v w roll_back g = omega arith
Edge-Progress v w roll_back_late g = omega arith

module _ (ext : External) (p : GovernanceProposal) where
  Stored-Edge : {s t : ProposalStatus} {v w : ℕ} → Stored ext p s v t w → Edge s t × (w ≡ v + 1)
  Stored-Edge {s = s} {t = t} {v = v} (store actor evidence now evaluation h e) =
      let (d, r) =
        (transition_proposal_iff ext (record p { status = s }) v t actor evidence now evaluation
            _).0
          h in
      (d.along_edge, e ∙ ap (λ r. r.state_version_after) r)

  -- Along transitions that `transition_proposal` accepts, once a proposal is frozen, stale, vetoed or
  -- rejected, every later status is one of these.
  pub History-IsHalt :
      {s : ProposalStatus} {v : ℕ} {t : ProposalStatus} {w : ℕ}
      → IsHalt s
      → History ext p s v t w
      → IsHalt t
  History-IsHalt h here = h
  History-IsHalt h (next past step) = IsHalt-Edge (History-IsHalt h past) (Stored-Edge step).0

  History-Progress :
      {v : ℕ} {t : ProposalStatus} {w : ℕ} → History ext p proposed v t w → Progress t v w
  History-Progress here = omega arith
  History-Progress {v} (next {u = u} {w = w} {x = x} past step) =
      let (edge, e) = Stored-Edge step in rw e (Edge-Progress v w edge (History-Progress past))

  -- A proposal that was registered at version `v` is PROMOTED at version `v + 8` only: no stage of
  -- the flow is skipped or repeated on the way.
  pub History-promoted : {v w : ℕ} → History ext p proposed v promoted w → w ≡ v + 8
  History-promoted h = History-Progress h
