-- ===== src/Data/Validation/Tests.antt =====
-- Two records, one microsecond apart, the second of them not available when it happened.
use liki.Common.{◌≤◌, ◌≡◌, ◌↔◌, refl, [], ◌∷◌, some, none, ok, All, any, false}
use liki.Common.Int.{pos}
use liki.Common.Sorting.{sort_by, insert_by}
use liki.Data.Validation.{
  CanonicalMarketRecord, DatasetValidator, ValidationFinding, trade, gap, quarantined, gap_exceeds,
  same_key, add_gap, is_gap, is_lookahead, staleness, scan, by_time, validate, promotion_status,
  require_usable, is_compromise, is_fail,
}
use liki.Data.Validation.Status.{require_usable_iff}
use liki.Data.Validation.Usable.{IsSound, validate_iff, validate_causal}

abbrev first : CanonicalMarketRecord
first = record {
  instrument_id = "BTCUSDT";
  event_time = 5;
  available_at = 5;
  price = pos 100;
  quantity = some (pos 1);
  price_kind = trade;
  raw_payload_hash = "sha256:1";
}

abbrev second : CanonicalMarketRecord
second = record first { event_time = 6; available_at = 9; price = pos 101 }

abbrev validator : DatasetValidator
validator = record { max_gap = pos 1; max_staleness = pos 3 }

abbrev doubtful : ValidationFinding
doubtful = record {
  kind = gap;
  severity = quarantined;
  reason = gap_exceeds (pos 1);
  at = some 5;
  raw_payload_hashes = [];
}

usable : require_usable (validate validator (some 10) (second ∷ first ∷ [])) ≡ ok tt
unfolding validate scan same_key add_gap is_gap is_lookahead staleness by_time promotion_status
    require_usable sort_by insert_by
usable = refl

validate_iff_example :
    (require_usable (validate validator (some 10) (second ∷ first ∷ [])) ≡ ok tt)
    ↔ IsSound validator 10 none (sort_by by_time (second ∷ first ∷ []))
validate_iff_example = validate_iff validator 10 (second ∷ first ∷ [])

validate_causal_example : All (λ r. r.available_at ≤ 10) (second ∷ first ∷ [])
validate_causal_example = validate_causal validator 10 (second ∷ first ∷ []) usable

require_usable_iff_example : (require_usable (doubtful ∷ []) ≡ ok tt) ↔ (
    (any (λ f. is_compromise f.kind) (doubtful ∷ []) ≡ false)
    × (any (λ f. is_fail f.severity) (doubtful ∷ []) ≡ false))
require_usable_iff_example = require_usable_iff (doubtful ∷ [])
