-- ===== src/Inference/Backend/Ledger.antt =====
-- The costs along calls that come in order.
use liki.Common.{
  String, string_eq, Option, none, some, Bool, true, false, not, ◌&&◌, ◌≡◌, refl, ◌∙◌, arith, inl,
  inr, Bool-cases, Option-cases,
}
use liki.Common.Int.{ℤ, pos, ◌+ℤ◌, ◌-ℤ◌, +ℤ_parts, -ℤ_parts, eq_of_parts}
use liki.Common.Table.{Table, row_of, update}
use liki.Inference.Records.{InferenceAttempt, RequestRow, AttemptRow, Store, empty_store, kept}
use liki.Inference.Backend.Claim.{attempt_of, reserve_rows, reserve_cost}
use liki.Inference.Backend.Finish.{settle, complete, is_created, deduplicated, is_accepted}
use liki.Inference.Backend.Outcomes.{
  Outcome, ignored, late, finished, finish_attempt-Outcome, complete_attempts,
}
use liki.Inference.Backend.Calls.{
  Call, creates, claims, reserves, finishes, hibernates, revives, reconciles, marks, Reached,
  at_start, called, IsStore, Reached-IsStore, after,
}
use liki.Inference.Backend.Costs.{held, spent, total, IsBalanced, replaced-IsBalanced, still_ℤ}
use liki.Inference.Backend.Quiet.{
  creates-IsBalanced, claims-IsBalanced, hibernates-IsBalanced, revives-IsBalanced,
  reconciles-IsBalanced, marks-IsBalanced, zero_ℤ,
}

-- The attempt is listed for its request and has no outcome yet.
abbrev pub is_open : Option AttemptRow → Bool
unfolding is_created
is_open none = false
is_open (some r) = is_created r.attempt.status

-- The broker reserves for an attempt that is open, and finishes it once, with an outcome.
unfoldable pub is_orderly : Call → Store → Bool
unfolding is_open is_created attempt_of
is_orderly (reserves q a amount) db = is_open (attempt_of a q db.attempts)
is_orderly (finishes now logged_at attempt) db =
    is_open (attempt_of attempt.inference_attempt_id attempt.inference_request_id db.attempts)
    && not (is_created attempt.status)
is_orderly _ db = true

pub data Orderly (show : ℤ → String) : Store → Type 0 where
  at_first : Orderly show empty_store
  then_called :
      {db : Store} (c : Call)
      → Orderly show db
      → is_orderly c db ≡ true
      → Orderly show (after show c db)

Orderly-Reached : (show : ℤ → String) {db : Store} → Orderly show db → Reached show db
Orderly-Reached show at_first = at_start
Orderly-Reached show (then_called c o h) = called c (Orderly-Reached show o)

reserved-IsBalanced :
    (q a : String) (amount : ℤ) (r : RequestRow) (row : AttemptRow) (db : Store)
    → IsStore db
    → IsBalanced db
    → row_of q db.requests ≡ some r
    → row_of a db.attempts ≡ some row
    → row.request_id ≡ q
    → is_created row.attempt.status ≡ true
    → IsBalanced (record db {
      requests =
          update q
            (record r { reserved_cost = r.reserved_cost -ℤ row.reservation +ℤ amount })
            db.requests;
      attempts = update a (record row { reservation = amount }) db.attempts;
    })
unfolding held spent
reserved-IsBalanced q a amount r row db k b f g h fresh =
    replaced-IsBalanced db _ q a r
      (record r { reserved_cost = r.reserved_cost -ℤ row.reservation +ℤ amount }) row
      (record row { reservation = amount }) k b f g h h refl refl
      (ground (arith, string_eq.same_iff q q))
      (ground (arith, string_eq.same_iff q q, still_ℤ r.accrued_cost))

attempt_of_lem :
    (a q : String) (rows : Table AttemptRow)
    → is_open (attempt_of a q rows) ≡ true
    → (row : AttemptRow) × (row_of a rows ≡ some row)
      × (row.request_id ≡ q)
      × (is_created row.attempt.status ≡ true)
unfolding attempt_of is_open
attempt_of_lem a q rows h = elim (Option-cases (row_of a rows)) [
  | inl missing ↦ absurd (ground arith)
  | inr (row, e) ↦ (row, e, ground (arith, string_eq.same_iff row.request_id q), ground arith)
]

reserves-IsBalanced :
    (q a : String) (amount : ℤ) (db : Store)
    → IsStore db
    → IsBalanced db
    → is_open (attempt_of a q db.attempts) ≡ true
    → IsBalanced (kept db (reserve_cost q a amount db))
unfolding reserve_cost reserve_rows attempt_of
reserves-IsBalanced q a amount db k b h =
    let o = attempt_of_lem a q db.attempts h in
    elim (Option-cases (row_of q db.requests)) [
      | inl missing ↦ record {
        reserved = λ z. ground (arith, b.reserved z);
        accrued = λ z. ground (arith, b.accrued z);
      }
      | inr (r, f) ↦
          let i = reserved-IsBalanced q a amount r o.0 db k b f o.1 o.2 o.3 in
          record {
            reserved = λ z. ground (arith, b.reserved z, i.reserved z, o.1);
            accrued = λ z. ground (arith, b.accrued z, i.accrued z, o.1);
          }
    ]

complete_costs :
    (attempt : InferenceAttempt) (r : RequestRow) (row : AttemptRow) (db : Store)
    → (p : RequestRow) × ((complete attempt r row db).requests
        ≡ update attempt.inference_request_id p db.requests)
      × (p.reserved_cost ≡ r.reserved_cost -ℤ row.reservation)
      × (p.accrued_cost ≡ r.accrued_cost +ℤ attempt.total_cost_usd)
unfolding complete settle
complete_costs attempt r row db = elim (Bool-cases (is_accepted attempt.status)) [
  | inl good ↦ rw good (_, refl, refl, refl)
  | inr bad ↦ rw bad (_, refl, refl, refl)
]

less_zero_ℤ : (x y : ℤ) → x +ℤ y ≡ x -ℤ pos 0 +ℤ y
less_zero_ℤ x y =
    eq_of_parts (x +ℤ y) (x -ℤ pos 0 +ℤ y)
      (omega (arith, +ℤ_parts x y, +ℤ_parts (x -ℤ pos 0) y, -ℤ_parts x (pos 0)))

held_open :
    (q : String) (r : AttemptRow)
    → r.request_id ≡ q
    → is_created r.attempt.status ≡ true
    → held q r ≡ r.reservation
unfolding held
held_open q r e h = ground (arith, string_eq.same_iff r.request_id q)

held_done : (q : String) (r : AttemptRow) → is_created r.attempt.status ≡ false → held q r ≡ pos 0
unfolding held
held_done q r h = ground arith

spent_open : (q : String) (r : AttemptRow) → is_created r.attempt.status ≡ true → spent q r ≡ pos 0
unfolding spent
spent_open q r h = ground arith

spent_done :
    (q : String) (r : AttemptRow)
    → r.request_id ≡ q
    → is_created r.attempt.status ≡ false
    → spent q r ≡ r.attempt.total_cost_usd
unfolding spent
spent_done q r e h = ground (arith, string_eq.same_iff r.request_id q)

settled-IsBalanced :
    (attempt : InferenceAttempt) (r p : RequestRow) (row : AttemptRow) (db d : Store)
    → IsStore db
    → IsBalanced db
    → row_of attempt.inference_request_id db.requests ≡ some r
    → row_of attempt.inference_attempt_id db.attempts ≡ some row
    → row.request_id ≡ attempt.inference_request_id
    → is_created row.attempt.status ≡ true
    → is_created attempt.status ≡ false
    → d.requests ≡ update attempt.inference_request_id p db.requests
    → d.attempts
      ≡ update attempt.inference_attempt_id (record row { attempt = attempt }) db.attempts
    → p.reserved_cost ≡ r.reserved_cost -ℤ row.reservation
    → p.accrued_cost ≡ r.accrued_cost +ℤ attempt.total_cost_usd
    → IsBalanced d
settled-IsBalanced attempt r p row db d k b f g h fresh old e e' x y =
    replaced-IsBalanced db d attempt.inference_request_id attempt.inference_attempt_id r p row
      (record row { attempt = attempt }) k b f g h h e e' (x ∙ held_lem) (y ∙ spent_lem)
  where
    q : String
    q = attempt.inference_request_id

    new : AttemptRow
    new = record row { attempt = attempt }

    held_lem : r.reserved_cost -ℤ row.reservation ≡ r.reserved_cost -ℤ held q row +ℤ held q new
    held_lem = rw (held_open q row h fresh, held_done q new old) (zero_ℤ _)

    spent_lem :
        r.accrued_cost +ℤ attempt.total_cost_usd ≡ r.accrued_cost -ℤ spent q row +ℤ spent q new
    spent_lem = rw (spent_open q row fresh, spent_done q new h old) (less_zero_ℤ _ _)

finishes-IsBalanced :
    (attempt : InferenceAttempt) (db d : Store)
    → IsStore db
    → IsBalanced db
    → is_open (attempt_of attempt.inference_attempt_id attempt.inference_request_id db.attempts)
      ≡ true
    → is_created attempt.status ≡ false
    → Outcome attempt db d
    → IsBalanced d
unfolding settle deduplicated is_created
finishes-IsBalanced attempt db d k b o n ignored = b
finishes-IsBalanced attempt db d k b o n (late r row e f g fresh) =
    let i =
      attempt_of_lem attempt.inference_attempt_id attempt.inference_request_id db.attempts o in
    settled-IsBalanced (deduplicated attempt) r _ row db _ k b g f (ground (arith, i.1, i.2)) fresh
      refl refl refl refl refl
finishes-IsBalanced attempt db d k b o n (finished r row f g h m) =
    let i =
      attempt_of_lem attempt.inference_attempt_id attempt.inference_request_id db.attempts o in
    let c = complete_costs attempt r row db in
    settled-IsBalanced attempt r c.0 row db _ k b g f (ground (arith, i.1, i.2))
      (ground (arith, i.1, i.3)) n c.1 (complete_attempts attempt r row db) c.2 c.3

after-IsBalanced :
    (show : ℤ → String) (c : Call) (db : Store)
    → IsStore db
    → IsBalanced db
    → is_orderly c db ≡ true
    → IsBalanced (after show c db)
unfolding after is_orderly
after-IsBalanced show (creates now request manifest) db k b o =
    creates-IsBalanced now request manifest db b
after-IsBalanced show (claims a now q route lease) db k b o =
    claims-IsBalanced a now q route lease db b
after-IsBalanced show (reserves q a amount) db k b o = reserves-IsBalanced q a amount db k b o
after-IsBalanced show (finishes now logged_at attempt) db k b o =
    finishes-IsBalanced attempt db _ k b (ground arith) (ground arith)
      (finish_attempt-Outcome now logged_at attempt db)
after-IsBalanced show (hibernates now q reason) db k b o = hibernates-IsBalanced now q reason db b
after-IsBalanced show (revives now q reason) db k b o = revives-IsBalanced now q reason db b
after-IsBalanced show (reconciles now q a cost) db k b o =
    reconciles-IsBalanced show now q a cost db k b
after-IsBalanced show (marks now q a reason) db k b o = marks-IsBalanced now q a reason db k b

-- Along calls in which an attempt is reserved for while it is open and finished once, the reserved
-- cost of every request is the sum of the reservations of its open attempts, and its accrued cost is
-- the sum of the costs of its finished ones.
pub Orderly-IsBalanced : (show : ℤ → String) {db : Store} → Orderly show db → IsBalanced db
unfolding empty_store total
Orderly-IsBalanced show at_first = record { reserved = λ q. refl; accrued = λ q. refl }
Orderly-IsBalanced show (then_called {db} c o h) =
    after-IsBalanced show c db (Reached-IsStore show db (Orderly-Reached show o))
      (Orderly-IsBalanced show o) h
