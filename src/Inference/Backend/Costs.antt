-- ===== src/Inference/Backend/Costs.antt =====
-- What is reserved and what is spent, against the attempts.
use liki.Common.{
  String, string_eq, ◌==◌, [], ◌∷◌, Option, none, some, false, not, ◌&&◌, if◌then◌else◌, ◌≡◌, refl,
  ◌∙◌, ap, sym, arith, inl, inr, Bool-cases,
}
use liki.Common.Int.{ℤ, pos, ◌+ℤ◌, ◌-ℤ◌, +ℤ_parts, -ℤ_parts, eq_of_parts}
use liki.Common.Table.{Table, row_of, update, row_of-update, IsKeyed, update_missing}
use liki.Inference.Records.{RequestRow, AttemptRow, Store}
use liki.Inference.Backend.Finish.{is_created}
use liki.Inference.Backend.Calls.{IsStore}

-- What an open attempt of a request holds, and what a finished one has cost.
unfoldable pub held : String → AttemptRow → ℤ
unfolding is_created
held q r = if r.request_id == q && is_created r.attempt.status then r.reservation else pos 0

unfoldable pub spent : String → AttemptRow → ℤ
unfolding is_created
spent q r =
    if r.request_id == q && not (is_created r.attempt.status)
    then r.attempt.total_cost_usd
    else pos 0

unfoldable pub total : (AttemptRow → ℤ) → Table AttemptRow → ℤ
total f [] = pos 0
total f ((a, r) ∷ rows) = total f rows +ℤ f r

abbrev pub reserved_of : Option RequestRow → ℤ
reserved_of none = pos 0
reserved_of (some r) = r.reserved_cost

abbrev pub accrued_of : Option RequestRow → ℤ
accrued_of none = pos 0
accrued_of (some r) = r.accrued_cost

-- The costs of each request are the sums over its attempts.
pub record IsBalanced (db : Store) : Type 0 where
  pub reserved : (q : String) → reserved_of (row_of q db.requests) ≡ total (held q) db.attempts
  pub accrued : (q : String) → accrued_of (row_of q db.requests) ≡ total (spent q) db.attempts

swap_ℤ : (x y z : ℤ) → x +ℤ y +ℤ z ≡ x +ℤ z +ℤ y
swap_ℤ x y z =
    eq_of_parts (x +ℤ y +ℤ z) (x +ℤ z +ℤ y)
      (omega (arith, +ℤ_parts (x +ℤ y) z, +ℤ_parts x y, +ℤ_parts (x +ℤ z) y, +ℤ_parts x z))

carry_ℤ : (x y z w v : ℤ) → x +ℤ w ≡ y +ℤ v → x +ℤ z +ℤ w ≡ y +ℤ z +ℤ v
carry_ℤ x y z w v h = swap_ℤ x z w ∙ ap (λ t. t +ℤ z) h ∙ swap_ℤ y v z

pub cancel_ℤ : (x y z : ℤ) → x +ℤ z ≡ y +ℤ z → x ≡ y
cancel_ℤ x y z h = eq_of_parts x y (ground (arith, +ℤ_parts x z, +ℤ_parts y z))

-- From x to x - w + v, and from t to t with t + w = x + v.
moved_ℤ : (x t w v : ℤ) → t +ℤ w ≡ x +ℤ v → x -ℤ w +ℤ v ≡ t
moved_ℤ x t w v h =
    eq_of_parts (x -ℤ w +ℤ v) t
      (ground (arith, +ℤ_parts (x -ℤ w) v, -ℤ_parts x w, +ℤ_parts t w, +ℤ_parts x v))

pub still_ℤ : (x : ℤ) → x -ℤ pos 0 +ℤ pos 0 ≡ x
still_ℤ x =
    eq_of_parts (x -ℤ pos 0 +ℤ pos 0) x
      (ground (arith, +ℤ_parts (x -ℤ pos 0) (pos 0), -ℤ_parts x (pos 0)))

pub total-update :
    (f : AttemptRow → ℤ) (a : String) (r s : AttemptRow) (rows : Table AttemptRow)
    → IsKeyed rows
    → row_of a rows ≡ some r
    → total f (update a s rows) +ℤ f r ≡ total f rows +ℤ f s
unfolding total
total-update f a r s [] k h = absurd (ground arith)
total-update f a r s ((b, t) ∷ rows) k h = elim (Bool-cases (b == a)) [
  | inl here ↦
      let same : t ≡ r = ground arith in
      let rest : update a s rows ≡ rows =
        update_missing a s rows (ground (arith, string_eq.same_iff b a)) in
      rw (here, rest, same) (swap_ℤ (total f rows) (f s) (f r))
  | inr there ↦ rw there (
      carry_ℤ (total f (update a s rows)) (total f rows) (f t) (f r) (f s)
        (total-update f a r s rows k.1 (ground arith)))
]

held_elsewhere :
    (q z : String) (r : AttemptRow) → r.request_id ≡ q → (q == z) ≡ false → held z r ≡ pos 0
unfolding held
held_elsewhere q z r e h = rw (e, h) refl

spent_elsewhere :
    (q z : String) (r : AttemptRow) → r.request_id ≡ q → (q == z) ≡ false → spent z r ≡ pos 0
unfolding spent
spent_elsewhere q z r e h = rw (e, h) refl

-- A change of an open attempt and of its request keeps the balance if both change alike.
pub replaced-IsBalanced :
    (db d : Store) (q a : String) (r p : RequestRow) (row s : AttemptRow)
    → IsStore db
    → IsBalanced db
    → row_of q db.requests ≡ some r
    → row_of a db.attempts ≡ some row
    → row.request_id ≡ q
    → s.request_id ≡ q
    → d.requests ≡ update q p db.requests
    → d.attempts ≡ update a s db.attempts
    → p.reserved_cost ≡ r.reserved_cost -ℤ held q row +ℤ held q s
    → p.accrued_cost ≡ r.accrued_cost -ℤ spent q row +ℤ spent q s
    → IsBalanced d
replaced-IsBalanced db d q a r p row s k b f g h i e e' x y = record {
  reserved = λ z.
      shift reserved_of (held z) z
        (elim (Bool-cases (q == z)) [
          | inl here ↦
              rw (← (string_eq.same_iff q z).0 here, row_of-update q q p db.requests, f)
                (ground (arith, x, string_eq.same_iff q q))
          | inr other ↦
              rw
                (
                  row_of-update z q p db.requests,
                  other,
                  held_elsewhere q z row h other,
                  held_elsewhere q z s i other,
                )
                (sym (still_ℤ _))
        ])
        (b.reserved z);
  accrued = λ z.
      shift accrued_of (spent z) z
        (elim (Bool-cases (q == z)) [
          | inl here ↦
              rw (← (string_eq.same_iff q z).0 here, row_of-update q q p db.requests, f)
                (ground (arith, y, string_eq.same_iff q q))
          | inr other ↦
              rw
                (
                  row_of-update z q p db.requests,
                  other,
                  spent_elsewhere q z row h other,
                  spent_elsewhere q z s i other,
                )
                (sym (still_ℤ _))
        ])
        (b.accrued z);
}
  where
    shift :
        (cost : Option RequestRow → ℤ) (m : AttemptRow → ℤ) (z : String)
        → cost (row_of z (update q p db.requests)) ≡ cost (row_of z db.requests) -ℤ m row +ℤ m s
        → cost (row_of z db.requests) ≡ total m db.attempts
        → cost (row_of z d.requests) ≡ total m d.attempts
    shift cost m z u v =
        ap (λ t. cost (row_of z t)) e
        ∙ u
        ∙ ap (λ t. t -ℤ m row +ℤ m s) v
        ∙ moved_ℤ (total m db.attempts) (total m (update a s db.attempts)) (m row) (m s)
            (total-update m a row s db.attempts k.attempt_keys g)
        ∙ ap (total m) (sym e')
