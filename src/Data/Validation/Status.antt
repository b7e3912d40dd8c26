-- ===== src/Data/Validation/Status.antt =====
-- The status of findings, and what it lets through.
use liki.Common.{ℕ, ◌≤◌, ◌≡◌, ◌↔◌, List, ◌++◌, false, any, any-append, is_empty-append, ok, arith}
use liki.Data.Validation.{
  QualityStatus, pass, warn, fail, quarantined, ValidationFinding, is_compromise, is_fail,
  promotion_status, require_usable,
}

abbrev pub rank : QualityStatus → ℕ
rank pass = 0
rank warn = 1
rank fail = 2
rank quarantined = 3

-- More findings never make a status better, wherever they are added.
pub promotion_status-append :
    (before findings after : List ValidationFinding)
    → rank (promotion_status findings) ≤ rank (promotion_status (before ++ (findings ++ after)))
unfolding promotion_status
promotion_status-append before findings after = ground (
  arith,
  any-append (λ f. is_compromise f.kind) before (findings ++ after),
  any-append (λ f. is_compromise f.kind) findings after,
  any-append (λ f. is_fail f.severity) before (findings ++ after),
  any-append (λ f. is_fail f.severity) findings after,
  is_empty-append before (findings ++ after),
  is_empty-append findings after,
)

-- Findings are let through exactly if none is about a compromised source and none has the severity
-- FAIL: one that has the severity QUARANTINED for another reason does not stop them.
pub require_usable_iff :
    (findings : List ValidationFinding)
    → (require_usable findings ≡ ok tt) ↔ (
        (any (λ f. is_compromise f.kind) findings ≡ false)
        × (any (λ f. is_fail f.severity) findings ≡ false))
unfolding require_usable promotion_status
require_usable_iff findings = (λ h. (ground arith, ground arith), λ h. ground arith)
