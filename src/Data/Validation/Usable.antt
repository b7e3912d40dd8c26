-- ===== src/Data/Validation/Usable.antt =====
-- What data is like that validation lets through.
use liki.Common.{
  ℕ, ◌≤◌, ◌≡◌, ◌↔◌, refl, List, [], ◌∷◌, Option, none, some, false, any, All, ok, arith, inl, inr,
  Bool-cases,
}
use liki.Common.Int.{◌≤ℤ◌, sub_ℕ}
use liki.Data.Validation.{
  CanonicalMarketRecord, DatasetValidator, duplicate_finding, gap_finding, lookahead_finding,
  stale_finding, is_gap, is_lookahead, add_gap, staleness, scan, by_time, validate, is_compromise,
  is_fail, require_usable,
}
use mathlib.Core.Path.{subst}
use liki.Common.Sorting.{sort_by, insert_by}
use liki.Data.Validation.Status.{require_usable_iff}

abbrev pub NoGap : DatasetValidator → Option CanonicalMarketRecord → CanonicalMarketRecord → Type 0
NoGap v none r = Unit
NoGap v (some p) r = sub_ℕ r.event_time p.event_time ≤ℤ v.max_gap

abbrev pub IsRecent : DatasetValidator → ℕ → Option CanonicalMarketRecord → Type 0
IsRecent v t none = Unit
IsRecent v t (some r) = sub_ℕ t r.available_at ≤ℤ v.max_staleness

-- From one record to the next, no gap is above the limit and each record was available by the time
-- of the decision; the last one is not stale then.
abbrev pub IsSound :
    DatasetValidator → ℕ → Option CanonicalMarketRecord → List CanonicalMarketRecord → Type 0
IsSound v t p [] = IsRecent v t p
IsSound v t p (r ∷ rs) = NoGap v p r × (r.available_at ≤ t) × IsSound v t (some r) rs

no_compromise :
    (v : DatasetValidator) (t : Option ℕ) (seen : List CanonicalMarketRecord)
    (p : Option CanonicalMarketRecord) (rs : List CanonicalMarketRecord)
    → any (λ f. is_compromise f.kind) (scan v t seen p rs) ≡ false
unfolding scan add_gap staleness duplicate_finding gap_finding lookahead_finding stale_finding
no_compromise v t seen p [] = ground arith
no_compromise v t seen p (r ∷ rs) = ground (arith, no_compromise v t (r ∷ seen) (some r) rs)

scan-IsSound :
    (v : DatasetValidator) (t : ℕ) (seen : List CanonicalMarketRecord)
    (p : Option CanonicalMarketRecord) (rs : List CanonicalMarketRecord)
    → (any (λ f. is_fail f.severity) (scan v (some t) seen p rs) ≡ false) ↔ IsSound v t p rs
unfolding scan add_gap is_gap is_lookahead staleness duplicate_finding gap_finding lookahead_finding
    stale_finding
scan-IsSound v t seen none [] = (λ h. tt, λ h. refl)
scan-IsSound v t seen (some p) [] = (λ h. ground arith, λ h. ground arith)
scan-IsSound v t seen none (r ∷ rs) =
    let k = scan-IsSound v t (r ∷ seen) (some r) rs in
    (λ h. (tt, ground arith, k.0 (ground arith)), λ h. ground (arith, h.1, k.1 h.2))
scan-IsSound v t seen (some p) (r ∷ rs) =
    let k = scan-IsSound v t (r ∷ seen) (some r) rs in
    (λ h. (ground arith, ground arith, k.0 (ground arith)), λ h. ground (arith, h.0, h.1, k.1 h.2))

-- Data is let through for a decision exactly if, in the order of time, no gap between records is
-- above the limit, every record was available by then, and the last one is not stale.
pub validate_iff :
    (v : DatasetValidator) (t : ℕ) (records : List CanonicalMarketRecord)
    → (require_usable (validate v (some t) records) ≡ ok tt)
      ↔ IsSound v t none (sort_by by_time records)
unfolding validate
validate_iff v t records =
    let sorted = sort_by by_time records in
    let u = require_usable_iff (validate v (some t) records) in
    let s = scan-IsSound v t [] none sorted in
    (λ h. s.0 (u.0 h).1, λ h. u.1 (no_compromise v (some t) [] none sorted, s.1 h))

IsSound-All :
    (v : DatasetValidator) (t : ℕ) (p : Option CanonicalMarketRecord)
    (rs : List CanonicalMarketRecord)
    → IsSound v t p rs
    → All (λ r. r.available_at ≤ t) rs
IsSound-All v t p [] h = tt
IsSound-All v t p (r ∷ rs) h = (h.1, IsSound-All v t (some r) rs h.2)

All-insert_by :
    (P : CanonicalMarketRecord → Type 0) (r : CanonicalMarketRecord)
    (rs : List CanonicalMarketRecord)
    → All P (insert_by by_time r rs)
    → P r × All P rs
unfolding insert_by
All-insert_by P r [] h = h
All-insert_by P r (s ∷ rs) h = elim (Bool-cases (by_time r s)) [
  | inl first ↦
      let e : insert_by by_time r (s ∷ rs) ≡ r ∷ s ∷ rs = rw first refl in subst (All P) e h
  | inr later ↦
      let e : insert_by by_time r (s ∷ rs) ≡ s ∷ insert_by by_time r rs = rw later refl in
      let k = subst (All P) e h in let i = All-insert_by P r rs k.1 in (i.0, (k.0, i.1))
]

All-of_sorted :
    (P : CanonicalMarketRecord → Type 0) (rs : List CanonicalMarketRecord)
    → All P (sort_by by_time rs)
    → All P rs
unfolding sort_by
All-of_sorted P [] h = tt
All-of_sorted P (r ∷ rs) h =
    let i = All-insert_by P r (sort_by by_time rs) h in (i.0, All-of_sorted P rs i.1)

-- No look-ahead: data that is let through for a decision, in whatever order it came, has no record
-- that was not available by then.
pub validate_causal :
    (v : DatasetValidator) (t : ℕ) (records : List CanonicalMarketRecord)
    → require_usable (validate v (some t) records) ≡ ok tt
    → All (λ r. r.available_at ≤ t) records
validate_causal v t records h =
    All-of_sorted (λ r. r.available_at ≤ t) records
      (IsSound-All v t none (sort_by by_time records) ((validate_iff v t records).0 h))
