-- ===== src/Data/Validation.antt =====
-- data/validation.py, with the records of data/models.py: which data may enter research. A time is
-- an instant in UTC, which `ensure_utc` refuses to take from any other zone; a span of time may be
-- negative, and a price or a quantity is the coefficient of a decimal at one common exponent.
pub mod Usable
pub mod Status
mod Tests
use liki.Common.{
  ℕ, suc, ◌+◌, String, string_eq, Comparable, ◌==◌, ◌≡◌, ◌↔◌, List, [], ◌∷◌, ◌++◌, Option, none,
  some, is_some, Bool, true, false, not, ◌&&◌, ◌||◌, any, is_empty, ltb, leb, nat_beq,
  if◌then◌else◌, Result, ok, err, ◌>>=◌, ◌>>◌, raise_if, arith,
}
use liki.Common.Int.{ℤ, pos, int_eq, ltb_ℤ, leb_ℤ, beq_ℤ, sub_ℕ}
use liki.Common.Sorting.{sort_by}

pub data QualityStatus : Type 0 where
  pass : QualityStatus
  warn : QualityStatus
  fail : QualityStatus
  quarantined : QualityStatus

pub data PriceKind : Type 0 where
  index : PriceKind
  mark : PriceKind
  last : PriceKind
  trade : PriceKind
  bbo : PriceKind

abbrev pub kind_index : PriceKind → ℕ
kind_index index = 0
kind_index mark = 1
kind_index last = 2
kind_index trade = 3
kind_index bbo = 4

pub data DataError : Type 0 where
  value_error : String → DataError
  not_eligible : QualityStatus → DataError

pub record CanonicalMarketRecord : Type 0 where
  pub instrument_id : String
  pub event_time : ℕ
  pub available_at : ℕ
  pub price : ℤ
  pub quantity : Option ℤ
  pub price_kind : PriceKind
  pub raw_payload_hash : String

abbrev pub is_negative : Option ℤ → Bool
is_negative none = false
is_negative (some q) = ltb_ℤ q (pos 0)

unfoldable pub valid_record : CanonicalMarketRecord → Result DataError CanonicalMarketRecord
valid_record r = do
  raise_if (leb_ℤ r.price (pos 0)) (value_error "price must be greater than 0")
  raise_if (is_negative r.quantity) (value_error "quantity must not be negative")
  raise_if (ltb r.available_at r.event_time) (value_error "available_at cannot precede event_time")
  ok r

pub data FindingKind : Type 0 where
  gap : FindingKind
  duplicate : FindingKind
  bad_tick : FindingKind
  uncertain : FindingKind
  lookahead : FindingKind
  stale : FindingKind
  source_compromise : FindingKind
  provider_disagreement : FindingKind

-- What the text of a finding says.
pub data Reason : Type 0 where
  exact_duplicate : Reason
  gap_exceeds : ℤ → Reason
  not_available : Reason
  stale_by : ℤ → Reason
  stated : String → Reason

pub record ValidationFinding : Type 0 where
  pub kind : FindingKind
  pub severity : QualityStatus
  pub reason : Reason
  pub at : Option ℕ
  pub raw_payload_hashes : List String

pub record DatasetValidator : Type 0 where
  pub max_gap : ℤ
  pub max_staleness : ℤ

unfoldable pub new_validator : ℤ → ℤ → Result DataError DatasetValidator
new_validator max_gap max_staleness = do
  raise_if (leb_ℤ max_gap (pos 0) || ltb_ℤ max_staleness (pos 0))
      (value_error "gap and staleness policies must be non-negative")
  ok (record { max_gap = max_gap; max_staleness = max_staleness })

abbrev pub quantity_beq : Option ℤ → Option ℤ → Bool
quantity_beq none none = true
quantity_beq (some a) (some b) = beq_ℤ a b
quantity_beq _ _ = false

-- The keys of two records are equal: time, price, quantity and kind of price.
unfoldable pub same_key : CanonicalMarketRecord → CanonicalMarketRecord → Bool
same_key r s =
    nat_beq r.event_time s.event_time
    && beq_ℤ r.price s.price
    && quantity_beq r.quantity s.quantity
    && nat_beq (kind_index r.price_kind) (kind_index s.price_kind)

-- `findings.append(…)` under a test, in front of what comes after.
abbrev pub add_if : Bool → ValidationFinding → List ValidationFinding → List ValidationFinding
add_if true f fs = f ∷ fs
add_if false f fs = fs

unfoldable pub duplicate_finding : CanonicalMarketRecord → ValidationFinding
duplicate_finding r = record {
  kind = duplicate;
  severity = warn;
  reason = exact_duplicate;
  at = some r.event_time;
  raw_payload_hashes = r.raw_payload_hash ∷ [];
}

unfoldable pub gap_finding :
    DatasetValidator → CanonicalMarketRecord → CanonicalMarketRecord → ValidationFinding
gap_finding v previous r = record {
  kind = gap;
  severity = fail;
  reason = gap_exceeds v.max_gap;
  at = some previous.event_time;
  raw_payload_hashes = previous.raw_payload_hash ∷ r.raw_payload_hash ∷ [];
}

unfoldable pub lookahead_finding : CanonicalMarketRecord → ValidationFinding
lookahead_finding r = record {
  kind = lookahead;
  severity = fail;
  reason = not_available;
  at = some r.available_at;
  raw_payload_hashes = r.raw_payload_hash ∷ [];
}

unfoldable pub stale_finding : ℤ → CanonicalMarketRecord → ValidationFinding
stale_finding age r = record {
  kind = stale;
  severity = fail;
  reason = stale_by age;
  at = some r.available_at;
  raw_payload_hashes = r.raw_payload_hash ∷ [];
}

unfoldable pub is_gap :
    DatasetValidator → Option CanonicalMarketRecord → CanonicalMarketRecord → Bool
is_gap v none r = false
is_gap v (some p) r = ltb_ℤ v.max_gap (sub_ℕ r.event_time p.event_time)

unfoldable pub is_lookahead : Option ℕ → CanonicalMarketRecord → Bool
is_lookahead none r = false
is_lookahead (some t) r = ltb t r.available_at

-- The gap before a record; without a previous one there is none.
unfoldable pub add_gap :
    DatasetValidator
    → Option CanonicalMarketRecord
    → CanonicalMarketRecord
    → List ValidationFinding
    → List ValidationFinding
unfolding is_gap gap_finding
add_gap v none r fs = fs
add_gap v (some p) r fs = add_if (is_gap v (some p) r) (gap_finding v p r) fs

-- After the loop: the last record, against the time of the decision.
unfoldable pub staleness :
    DatasetValidator → Option ℕ → Option CanonicalMarketRecord → List ValidationFinding
unfolding stale_finding
staleness v (some t) (some r) =
    add_if (ltb_ℤ v.max_staleness (sub_ℕ t r.available_at))
      (stale_finding (sub_ℕ t r.available_at) r) []
staleness v _ _ = []

-- The loop, with the records that it has seen and the one before.
unfoldable pub scan :
    DatasetValidator
    → Option ℕ
    → List CanonicalMarketRecord
    → Option CanonicalMarketRecord
    → List CanonicalMarketRecord
    → List ValidationFinding
unfolding same_key duplicate_finding add_gap is_lookahead lookahead_finding staleness
scan v t seen previous [] = staleness v t previous
scan v t seen previous (r ∷ rs) = add_if (any (same_key r) seen) (duplicate_finding r) (
    add_gap v previous r
      (add_if (is_lookahead t r) (lookahead_finding r) (scan v t (r ∷ seen) (some r) rs)))

unfoldable pub by_time : CanonicalMarketRecord → CanonicalMarketRecord → Bool
by_time r s = leb r.event_time s.event_time

unfoldable pub validate :
    DatasetValidator → Option ℕ → List CanonicalMarketRecord → List ValidationFinding
unfolding scan by_time
validate v decision_time records = scan v decision_time [] none (sort_by by_time records)

abbrev pub is_compromise : FindingKind → Bool
is_compromise source_compromise = true
is_compromise _ = false

abbrev pub is_fail : QualityStatus → Bool
is_fail fail = true
is_fail _ = false

unfoldable pub promotion_status : List ValidationFinding → QualityStatus
promotion_status findings =
    if any (λ f. is_compromise f.kind) findings
    then quarantined
    else if any (λ f. is_fail f.severity) findings
    then fail
    else if not (is_empty findings)
    then warn
    else pass

abbrev pub is_unusable : QualityStatus → Bool
is_unusable fail = true
is_unusable quarantined = true
is_unusable _ = false

unfoldable pub require_usable : List ValidationFinding → Result DataError (Unit {0})
unfolding promotion_status
require_usable findings =
    raise_if (is_unusable (promotion_status findings)) (not_eligible (promotion_status findings))

unfoldable pub quarantine : String → ℕ → List String → Result DataError ValidationFinding
quarantine reason at raw_payload_hashes = do
  raise_if (is_empty raw_payload_hashes)
      (value_error "quarantine requires preserved raw payload provenance")
  ok (record {
    kind = source_compromise;
    severity = quarantined;
    reason = stated reason;
    at = some at;
    raw_payload_hashes = raw_payload_hashes;
  })
