-- ===== src/Governance/Lifecycle/Tests.antt =====
-- A proposal takes its first step, and one that was vetoed is frozen.
use liki.Common.{ℕ, ◌+◌, [], ◌∷◌, none, some, ◌≡◌, ◌↔◌, refl, ok}
use liki.Governance.Base.{utc, non_empty}
use liki.Governance.Proposal.{
  proposed, classified, promoted, vetoed, frozen, ProposalStatus, reviewing, replayed, tested,
  shadow, canary, ready,
}
use liki.Governance.Lifecycle.{is_allowed, validate_transition, transition_proposal}
use liki.Governance.Lifecycle.Graph.{IsHalt, halt_vetoed}
use liki.Governance.Lifecycle.History.{
  Demands, recorded, transition_proposal_iff, Stored, store, History, here, next, History-IsHalt,
  History-promoted,
}
use liki.Governance.Samples.{plain, at, proposal, artifact}

transition_proposal_iff_example :
    (transition_proposal plain proposal 1 classified "ops" (artifact ∷ []) (at 2) none
      ≡ ok (recorded plain proposal 1 classified "ops" (artifact ∷ []) (at 2) none))
    ↔ (Demands plain proposal 1 classified "ops" (artifact ∷ []) (at 2) none
        × (recorded plain proposal 1 classified "ops" (artifact ∷ []) (at 2) none
            ≡ recorded plain proposal 1 classified "ops" (artifact ∷ []) (at 2) none))
transition_proposal_iff_example =
    transition_proposal_iff plain proposal 1 classified "ops" (artifact ∷ []) (at 2) none
      (recorded plain proposal 1 classified "ops" (artifact ∷ []) (at 2) none)

step :
    (s t : ProposalStatus) (v : ℕ)
    → transition_proposal plain
        (record proposal { status = s })
        v
        t
        "ops"
        (artifact ∷ [])
        (at 2)
        (some promoted)
      ≡ ok (
          recorded plain
            (record proposal { status = s })
            v
            t
            "ops"
            (artifact ∷ [])
            (at 2)
            (some promoted))
    → Stored plain proposal s v t (v + 1)
step s t v h = store "ops" (artifact ∷ []) (at 2) (some promoted) h refl

freeze : History plain proposal vetoed 3 frozen 4
unfolding transition_proposal utc is_allowed non_empty validate_transition
freeze = next here (step vetoed frozen 3 refl)

History-IsHalt_example : IsHalt frozen
History-IsHalt_example = History-IsHalt plain proposal halt_vetoed freeze

to_promoted : History plain proposal proposed 1 promoted 9
unfolding transition_proposal utc is_allowed non_empty validate_transition
to_promoted =
    next
      (next
        (next
          (next
            (next
              (next
                (next (next here (step proposed classified 1 refl))
                  (step classified reviewing 2 refl))
                (step reviewing replayed 3 refl))
              (step replayed tested 4 refl))
            (step tested shadow 5 refl))
          (step shadow canary 6 refl))
        (step canary ready 7 refl))
      (step ready promoted 8 refl)

History-promoted_example : ◌≡◌ {A = ℕ} 9 (1 + 8)
History-promoted_example = History-promoted plain proposal to_promoted
