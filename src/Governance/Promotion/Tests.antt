-- ===== src/Governance/Promotion/Tests.antt =====
-- A run of `evaluate_promotion` on a GREEN proposal whose veto window has passed.
use liki.Common.{◌+◌, [], none, some, true, ◌≡◌, ◌↔◌, ◌⊎◌, refl, ok, arith}
use liki.Governance.Samples.{
  plain, at, proposal, classification, reviews, lifecycle, snapshot, after_window, delivery,
}
use liki.Governance.Proposal.{promoted, rejected, vetoed}
use liki.Common.Json.{array_of}
use liki.Governance.Base.{utc, canonical_hash}
use liki.Governance.Evidence.{check_json, artifact_json}
use liki.Governance.Review.{
  check_unique_independence, correlation_fingerprint, checks, has_failure, lifecycle_hash,
}
use liki.Governance.Promotion.{
  evaluate_promotion, mark_stale_if_snapshot_changed, evaluate_evidence, requirements_met,
  is_adversarial, evaluate_delivery, veto_window,
}
use liki.Governance.Promotion.Conditions.{IsPromotable}
use liki.Governance.Promotion.Safety.{evaluate_promotion_real_money, evaluate_promotion_later}
use liki.Governance.Promotion.Verdict.{evaluate_promotion_iff}

promoted_run :
    evaluate_promotion plain proposal classification reviews lifecycle snapshot after_window none
      (some delivery)
      none
      []
      none
    ≡ ok promoted
unfolding evaluate_promotion utc mark_stale_if_snapshot_changed check_unique_independence
    correlation_fingerprint canonical_hash array_of evaluate_evidence checks requirements_met
    has_failure is_adversarial evaluate_delivery lifecycle_hash check_json artifact_json
promoted_run = refl

evaluate_promotion_iff_example :
    (evaluate_promotion plain proposal classification reviews lifecycle snapshot after_window none
        (some delivery)
        none
        []
        none
      ≡ ok promoted)
    ↔ IsPromotable plain proposal classification reviews lifecycle snapshot after_window none
        (some delivery)
        none
        []
        none
evaluate_promotion_iff_example =
    evaluate_promotion_iff plain proposal classification reviews lifecycle snapshot after_window
      none (some delivery) none [] none

evaluate_promotion_real_money_example : (rejected ≡ rejected) ⊎ (rejected ≡ vetoed)
unfolding evaluate_promotion utc
evaluate_promotion_real_money_example =
    evaluate_promotion_real_money plain (record proposal { real_money_enablement = true })
      classification reviews lifecycle snapshot none (some delivery) none [] none after_window
      rejected refl refl

evaluate_promotion_later_example :
    evaluate_promotion plain proposal classification reviews lifecycle snapshot
      (at (11 + veto_window))
      none
      (some delivery)
      none
      []
      none
    ≡ ok promoted
evaluate_promotion_later_example =
    evaluate_promotion_later plain proposal classification reviews lifecycle snapshot none
      (some delivery) none [] none after_window (at (11 + veto_window)) (omega arith) refl
      promoted_run
