-- ===== src/Inference/Backend/Quiet.antt =====
-- The calls that leave what is reserved and what is spent.
use liki.Common.{
  ℕ, ◌+◌, String, string_eq, some, false, ◌≡◌, refl, ◌∙◌, ap, sym, arith, inl, inr, Bool-cases,
  Option-cases,
}
use liki.Common.Int.{ℤ, pos, ◌+ℤ◌, +ℤ_parts, eq_of_parts}
use liki.Common.Table.{Table, row_of, update, row_of-update, IsKeyed}
use liki.Inference.Pricing.{decision_useful}
use liki.Inference.Records.{
  InferenceRequest, attempting, settled, ContextManifest, RequestRow, AttemptRow, Store, kept,
}
use liki.Inference.Backend.Admit.{create_or_get, new_row}
use liki.Inference.Backend.Claim.{
  attempt_count, max_fence, or_zero, new_attempt, inserted, claim_attempt, attempt_of,
}
use liki.Inference.Backend.Finish.{is_created}
use liki.Inference.Backend.Marks.{
  append_event, hibernate, revive, reconcile_attempt_cost, useful, mark_rows, mark_decision_useful,
}
use liki.Inference.Backend.Calls.{IsStore}
use liki.Inference.Pricing.{decision_useful}
use liki.Inference.Backend.Costs.{
  held, spent, total, reserved_of, accrued_of, IsBalanced, cancel_ℤ, total-update,
}

-- A change of requests that leaves their costs.
kept_requests :
    (db d : Store)
    → IsBalanced db
    → ((z : String) → reserved_of (row_of z d.requests) ≡ reserved_of (row_of z db.requests))
    → ((z : String) → accrued_of (row_of z d.requests) ≡ accrued_of (row_of z db.requests))
    → d.attempts ≡ db.attempts
    → IsBalanced d
kept_requests db d b f g e = record {
  reserved = λ z. f z ∙ b.reserved z ∙ ap (total (held z)) (sym e);
  accrued = λ z. g z ∙ b.accrued z ∙ ap (total (spent z)) (sym e);
}

update_reserved :
    (q z : String) (r p : RequestRow) (rows : Table RequestRow)
    → row_of q rows ≡ some r
    → p.reserved_cost ≡ r.reserved_cost
    → reserved_of (row_of z (update q p rows)) ≡ reserved_of (row_of z rows)
update_reserved q z r p rows h e = ground (arith, row_of-update z q p rows, string_eq.same_iff q z)

update_accrued :
    (q z : String) (r p : RequestRow) (rows : Table RequestRow)
    → row_of q rows ≡ some r
    → p.accrued_cost ≡ r.accrued_cost
    → accrued_of (row_of z (update q p rows)) ≡ accrued_of (row_of z rows)
update_accrued q z r p rows h e = ground (arith, row_of-update z q p rows, string_eq.same_iff q z)

-- A change of an attempt that leaves what it holds and has cost.
total_same :
    (f : AttemptRow → ℤ) (a : String) (r s : AttemptRow) (rows : Table AttemptRow)
    → IsKeyed rows
    → row_of a rows ≡ some r
    → f s ≡ f r
    → total f (update a s rows) ≡ total f rows
total_same f a r s rows k h e =
    cancel_ℤ (total f (update a s rows)) (total f rows) (f r)
      (total-update f a r s rows k h ∙ ap (λ t. total f rows +ℤ t) e)

pub creates-IsBalanced :
    (now : ℕ) (request : InferenceRequest) (manifest : ContextManifest) (db : Store)
    → IsBalanced db
    → IsBalanced (kept db (create_or_get now request manifest db))
unfolding create_or_get new_row
creates-IsBalanced now request manifest db b = record {
  reserved = λ z. ground (arith, b.reserved z, string_eq.same_iff request.inference_request_id z);
  accrued = λ z. ground (arith, b.accrued z, string_eq.same_iff request.inference_request_id z);
}

pub zero_ℤ : (x : ℤ) → x ≡ x +ℤ pos 0
zero_ℤ x = eq_of_parts x (x +ℤ pos 0) (omega (arith, +ℤ_parts x (pos 0)))

new_held :
    (z q : String) (a route : String) (n m t : ℕ) (r : RequestRow) (db : Store)
    → total (held z) (inserted a q route n m t r db).attempts ≡ total (held z) db.attempts
unfolding inserted held total new_attempt
new_held z q a route n m t r db = ground (arith, zero_ℤ (total (held z) db.attempts))

new_spent :
    (z q : String) (a route : String) (n m t : ℕ) (r : RequestRow) (db : Store)
    → total (spent z) (inserted a q route n m t r db).attempts ≡ total (spent z) db.attempts
unfolding inserted spent total new_attempt
new_spent z q a route n m t r db = ground (arith, zero_ℤ (total (spent z) db.attempts))

inserted-IsBalanced :
    (a q route : String) (n m t : ℕ) (r : RequestRow) (db : Store)
    → IsBalanced db
    → row_of q db.requests ≡ some r
    → IsBalanced (inserted a q route n m t r db)
unfolding inserted
inserted-IsBalanced a q route n m t r db b h = record {
  reserved = λ z.
      update_reserved q z r (record r { status = attempting }) db.requests h refl
      ∙ b.reserved z
      ∙ sym (new_held z q a route n m t r db);
  accrued = λ z.
      update_accrued q z r (record r { status = attempting }) db.requests h refl
      ∙ b.accrued z
      ∙ sym (new_spent z q a route n m t r db);
}

pub claims-IsBalanced :
    (a : String) (now : ℕ) (q route : String) (lease : ℕ) (db : Store)
    → IsBalanced db
    → IsBalanced (kept db (claim_attempt a now q route lease db))
unfolding claim_attempt
claims-IsBalanced a now q route lease db b = elim (Option-cases (row_of q db.requests)) [
  | inl missing ↦ record {
    reserved = λ z. ground (arith, b.reserved z);
    accrued = λ z. ground (arith, b.accrued z);
  }
  | inr (r, h) ↦
      let number = attempt_count q db.attempts + 1 in
      let fence = or_zero (max_fence q db.attempts) + 1 in
      let i = inserted-IsBalanced a q route number fence (now + lease) r db b h in
      record {
        reserved = λ z. ground (arith, b.reserved z, i.reserved z);
        accrued = λ z. ground (arith, b.accrued z, i.accrued z);
      }
]

-- The calls that only change the state of a request.
pub hibernates-IsBalanced :
    (now : ℕ) (q reason : String) (db : Store)
    → IsBalanced db
    → IsBalanced (hibernate now q reason db)
unfolding hibernate append_event
hibernates-IsBalanced now q reason db b = record {
  reserved = λ z. grind (arith, b.reserved z, row_of-update, string_eq.same_iff);
  accrued = λ z. grind (arith, b.accrued z, row_of-update, string_eq.same_iff);
}

pub revives-IsBalanced :
    (now : ℕ) (q reason : String) (db : Store)
    → IsBalanced db
    → IsBalanced (revive now q reason db).1
unfolding revive append_event
revives-IsBalanced now q reason db b = record {
  reserved = λ z. grind (arith, b.reserved z, row_of-update, string_eq.same_iff);
  accrued = λ z. grind (arith, b.accrued z, row_of-update, string_eq.same_iff);
}

pub reconciles-IsBalanced :
    (show : ℤ → String) (now : ℕ) (q a : String) (cost : ℤ) (db : Store)
    → IsStore db
    → IsBalanced db
    → IsBalanced (kept db (reconcile_attempt_cost show now q a cost db))
unfolding reconcile_attempt_cost append_event attempt_of held spent
reconciles-IsBalanced show now q a cost db k b = elim (Option-cases (row_of a db.attempts)) [
  | inl missing ↦ record {
    reserved = λ z. ground (arith, b.reserved z);
    accrued = λ z. ground (arith, b.accrued z);
  }
  | inr (r, h) ↦
      let s = record r { attempt = record r.attempt { provider_reported_cost_usd = some cost } } in
      record {
        reserved = λ z.
            ground
              (arith, b.reserved z, total_same (held z) a r s db.attempts k.attempt_keys h refl);
        accrued = λ z.
            ground
              (arith, b.accrued z, total_same (spent z) a r s db.attempts k.attempt_keys h refl);
      }
]

useful_held :
    (z : String) (r : AttemptRow)
    → is_created r.attempt.status ≡ false
    → held z (record r { attempt = record r.attempt { status = decision_useful } }) ≡ held z r
unfolding held
useful_held z r h = ground arith

useful_spent :
    (z : String) (r : AttemptRow)
    → is_created r.attempt.status ≡ false
    → spent z (record r { attempt = record r.attempt { status = decision_useful } }) ≡ spent z r
unfolding spent
useful_spent z r h = ground arith

useful-IsBalanced :
    (now : ℕ) (q a reason : String) (r : RequestRow) (row : AttemptRow) (db : Store)
    → IsStore db
    → IsBalanced db
    → row_of q db.requests ≡ some r
    → row_of a db.attempts ≡ some row
    → is_created row.attempt.status ≡ false
    → IsBalanced (useful now q a reason r row db)
unfolding useful append_event
useful-IsBalanced now q a reason r row db k b f g h = record {
  reserved = λ z.
      update_reserved q z r (record r { status = settled decision_useful }) db.requests f refl
      ∙ b.reserved z
      ∙ sym (total_same (held z) a row _ db.attempts k.attempt_keys g (useful_held z row h));
  accrued = λ z.
      update_accrued q z r (record r { status = settled decision_useful }) db.requests f refl
      ∙ b.accrued z
      ∙ sym (total_same (spent z) a row _ db.attempts k.attempt_keys g (useful_spent z row h));
}

pub marks-IsBalanced :
    (now : ℕ) (q a reason : String) (db : Store)
    → IsStore db
    → IsBalanced db
    → IsBalanced (mark_decision_useful now q a reason db).1
unfolding mark_decision_useful mark_rows attempt_of is_created
marks-IsBalanced now q a reason db k b = elim (Option-cases (row_of q db.requests)) [
  | inl missing ↦ record {
    reserved = λ z. ground (arith, b.reserved z);
    accrued = λ z. ground (arith, b.accrued z);
  }
  | inr (r, f) ↦ elim (Option-cases (row_of a db.attempts)) [
    | inl missing ↦ record {
      reserved = λ z. ground (arith, b.reserved z);
      accrued = λ z. ground (arith, b.accrued z);
    }
    | inr (row, g) ↦ elim (Bool-cases (is_created row.attempt.status)) [
      | inl fresh ↦ record {
        reserved = λ z. ground (arith, b.reserved z);
        accrued = λ z. ground (arith, b.accrued z);
      }
      | inr old ↦
          let i = useful-IsBalanced now q a reason r row db k b f g old in
          record {
            reserved = λ z. ground (arith, b.reserved z, i.reserved z);
            accrued = λ z. ground (arith, b.accrued z, i.accrued z);
          }
    ]
  ]
]
