-- ===== src/Inference/Backend/Numbers.antt =====
-- The numbers and fences of the attempts of a request.
use liki.Common.{
  ℕ, suc, ◌<◌, String, string_eq, ◌==◌, [], ◌∷◌, some, false, ◌≡◌, refl, arith, inl, inr,
  Bool-cases,
}
use liki.Common.Table.{Table, row_of, update, IsKeyed, update_missing}
use liki.Inference.Records.{AttemptRow}
use liki.Inference.Backend.Claim.{attempt_count, max_fence, or_zero, has_number}

-- The attempts of a request are numbered from one as they come, and so are their fences.
unfoldable pub IsNumbered : Table AttemptRow → Type 0
unfolding attempt_count
IsNumbered [] = Unit
IsNumbered ((a, r) ∷ rows) =
    (r.fence ≡ suc (attempt_count r.request_id rows)) × (r.attempt_no ≡ r.fence) × IsNumbered rows

-- A row that stands for the same claim.
pub record IsClaim (r s : AttemptRow) : Type 0 where
  pub same_request : s.request_id ≡ r.request_id
  pub same_number : s.attempt_no ≡ r.attempt_no
  pub same_fence : s.fence ≡ r.fence

pub attempt_count-update :
    (q a : String) (r s : AttemptRow) (rows : Table AttemptRow)
    → IsKeyed rows
    → row_of a rows ≡ some r
    → IsClaim r s
    → attempt_count q (update a s rows) ≡ attempt_count q rows
unfolding attempt_count
attempt_count-update q a r s [] k h c = refl
attempt_count-update q a r s ((b, t) ∷ rows) k h c = elim (Bool-cases (b == a)) [
  | inl here ↦ ground (arith, c.same_request, update_missing a s rows, string_eq.same_iff b a)
  | inr there ↦ ground (arith, attempt_count-update q a r s rows k.1)
]

pub IsNumbered-update :
    (a : String) (r s : AttemptRow) (rows : Table AttemptRow)
    → IsKeyed rows
    → row_of a rows ≡ some r
    → IsClaim r s
    → IsNumbered rows
    → IsNumbered (update a s rows)
unfolding IsNumbered
IsNumbered-update a r s [] k h c n = tt
IsNumbered-update a r s ((b, t) ∷ rows) k h c n = elim (Bool-cases (b == a)) [
  | inl here ↦ ground (
    arith,
    c.same_request,
    c.same_number,
    c.same_fence,
    update_missing a s rows,
    string_eq.same_iff b a,
  )
  | inr there ↦
      ground
        (arith, IsNumbered-update a r s rows k.1, attempt_count-update t.request_id a r s rows k.1)
]

pub max_fence_count :
    (q : String) (rows : Table AttemptRow)
    → IsNumbered rows
    → or_zero (max_fence q rows) ≡ attempt_count q rows
unfolding max_fence attempt_count IsNumbered
max_fence_count q [] n = refl
max_fence_count q ((a, r) ∷ rows) n =
    ground (arith, max_fence_count q rows n.2, string_eq.same_iff r.request_id q)

pub has_number_above :
    (q : String) (n : ℕ) (rows : Table AttemptRow)
    → IsNumbered rows
    → attempt_count q rows < n
    → has_number q n rows ≡ false
unfolding has_number attempt_count IsNumbered
has_number_above q n [] k h = refl
has_number_above q n ((a, r) ∷ rows) k h =
    ground (arith, has_number_above q n rows k.2, string_eq.same_iff r.request_id q)
