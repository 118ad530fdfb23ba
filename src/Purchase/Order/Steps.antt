-- ===== src/Purchase/Order/Steps.antt =====
-- Every method of purchase-order.service.ts that changes an order is one step of its state machine.
use inventory_pos.Common.{
  ℕ, ◌≡◌, refl, ◌≢◌, ◌⊎◌, Bool, true, false, Option, none, some, ◌∷◌, ◌==◌, every, arith, inl, inr,
  if◌then◌else◌, Bool-cases,
}
use inventory_pos.Common.Effects.{Result, ok, err, Error, missing, Action, ◌>>=◌, ◌>>◌}
use inventory_pos.Common.Does.{Does, throw_if-Does, or_throw-Does, gets-Does}
use inventory_pos.Common.Table.{find_unique, update, find_unique-update_self, update-const}
use inventory_pos.Common.Text.{Text, codes, trim}
use inventory_pos.Purchase.Store.{
  draft, pending_approval, approved, rejected, partially_received, fully_received, cancelled,
  closed, PurchaseOrder, AuditAction, PurchaseStore, annotate,
}
use inventory_pos.Purchase.Order.{
  validate_transition, get_approval_threshold, approval_notes, live, existing_order, save, submit,
  approve, reject, revise, cancel, is_received, update_receipt_status, close,
}
use inventory_pos.Purchase.Order.Transitions.{
  before_submit, before_decision, before_reject, before_revise, before_cancel, before_partial,
  before_full, before_close,
}

-- The state machine of one order.
pub data Step (p q : PurchaseOrder) : Type 0 where
  submitted :
      p.status ≡ draft
      → q ≡ record p {
        status = pending_approval;
        approval_level = get_approval_threshold p.total_amount;
      }
      → Step p q
  approved_by_another :
      (approver now : ℕ) (text : Option Text)
      → p.status ≡ pending_approval
      → approver ≢ p.created_by
      → q ≡ record p {
        status = approved;
        approved_by = some approver;
        approved_at = some now;
        notes = text;
      }
      → Step p q
  turned_down :
      (text : Text)
      → p.status ≡ pending_approval
      → q ≡ record p { status = rejected; notes = some text }
      → Step p q
  revised : p.status ≡ rejected → q ≡ record p { status = draft } → Step p q
  called_off :
      (text : Text)
      → p.status ≡ approved
      → q ≡ record p { status = cancelled; notes = some text }
      → Step p q
  partly_received :
      p.status ≡ approved
      → every is_received p.lines ≡ false
      → q ≡ record p { status = partially_received }
      → Step p q
  all_received :
      (p.status ≡ approved) ⊎ (p.status ≡ partially_received)
      → every is_received p.lines ≡ true
      → q ≡ record p { status = fully_received }
      → Step p q
  finished : p.status ≡ fully_received → q ≡ record p { status = closed } → Step p q

-- What a call did: it threw and changed nothing; or it made one step with the row that it found, left
-- the receipts and the counters alone, and wrote one audit entry about the order.
abbrev pub Changes : PurchaseStore → Result PurchaseOrder × PurchaseStore → Type 0
Changes s (err e, s') = s' ≡ s
Changes s (ok q, s') =
    (id : ℕ) × (p : PurchaseOrder) × (user : ℕ) × (action : AuditAction) × (find_unique id s.orders
      ≡ some p)
    × Step p q
    × (s' ≡ record s {
      orders = update id (λ _. q) s.orders;
      audit = record { user_id = user; action = action; entity_id = id } ∷ s.audit;
    })

abbrev throws_nothing : (s : PurchaseStore) (e : Error) → Changes s (err e, s)
throws_nothing s e = refl

save-Does :
    (id : ℕ) (change : PurchaseOrder → PurchaseOrder) (user : ℕ) (action : AuditAction)
    (s : PurchaseStore) (p : PurchaseOrder)
    → find_unique id s.orders ≡ some p
    → Step p (change p)
    → Does Changes s (save id change user action)
save-Does id change user action s p found step = record {
  at =
      rw (find_unique-update_self id change s.orders found, Changes)
        (id, p, user, action, found, step, rw (update-const id change p s.orders found));
}

live-eq : (o : Option PurchaseOrder) (p : PurchaseOrder) → live o ≡ some p → o ≡ some p
live-eq none p e = cc
live-eq (some q) p e = elim (Bool-cases q.deleted) [
  | inl dead ↦ cc (rw dead at e)
  | inr alive ↦ simp alive at e
]

existing_order-Does :
    (id : ℕ) (k : PurchaseOrder → Action PurchaseStore PurchaseOrder) (s : PurchaseStore)
    → ((p : PurchaseOrder) → find_unique id s.orders ≡ some p → Does Changes s (k p))
    → Does Changes s (existing_order id >>= k)
existing_order-Does id k s h = record {
  at =
      (or_throw-Does Changes throws_nothing missing (live (find_unique id s.orders)) k s
        λ p e. h p (live-eq (find_unique id s.orders) p e)).at;
}

another : (creator approver : ℕ) → (creator == approver) ≡ false → approver ≢ creator
another creator approver h = ground arith

approve-Step :
    (p : PurchaseOrder) (approver now : ℕ) (notes : Option Text)
    → p.status ≡ pending_approval
    → approver ≢ p.created_by
    → Step p (record p {
      status = approved;
      approved_by = some approver;
      approved_at = some now;
      notes = approval_notes p.notes notes;
    })
approve-Step p approver now notes e ne =
    approved_by_another approver now (approval_notes p.notes notes) e ne refl

reject-Step :
    (p : PurchaseOrder) (reason : Text)
    → p.status ≡ pending_approval
    → Step p (record p {
      status = rejected;
      notes = some (trim (annotate p.notes (codes "\nRejected: ") reason));
    })
reject-Step p reason e = turned_down (trim (annotate p.notes (codes "\nRejected: ") reason)) e refl

cancel-Step :
    (p : PurchaseOrder) (reason : Text)
    → p.status ≡ approved
    → Step p (record p {
      status = cancelled;
      notes = some (trim (annotate p.notes (codes "\nCancelled: ") reason));
    })
cancel-Step p reason e = called_off (trim (annotate p.notes (codes "\nCancelled: ") reason)) e refl

ruleset order_rules = (
  existing_order-Does, throw_if-Does, save-Does, or_throw-Does, gets-Does, throws_nothing,
  before_submit, before_decision, before_reject, before_revise, before_cancel, before_partial,
  before_full, before_close, another,
)

pub submit-Does : (id user : ℕ) (s : PurchaseStore) → Does Changes s (submit id user)
unfolding submit
submit-Does id user s = search (order_rules, submitted) depth 8

pub approve-Does :
    (may_approve : ℕ → Bool) (now id approver : ℕ) (notes : Option Text) (s : PurchaseStore)
    → Does Changes s (approve may_approve now id approver notes)
unfolding approve
approve-Does may_approve now id approver notes s = search (order_rules, approve-Step) depth 8

pub reject-Does :
    (may_approve : ℕ → Bool) (id approver : ℕ) (reason : Text) (s : PurchaseStore)
    → Does Changes s (reject may_approve id approver reason)
unfolding reject
reject-Does may_approve id approver reason s = search (order_rules, reject-Step) depth 8

pub revise-Does : (id user : ℕ) (s : PurchaseStore) → Does Changes s (revise id user)
unfolding revise
revise-Does id user s = search (order_rules, revised) depth 8

pub cancel-Does :
    (id user : ℕ) (reason : Text) (s : PurchaseStore) → Does Changes s (cancel id user reason)
unfolding cancel
cancel-Does id user reason s = search (order_rules, cancel-Step) depth 8

receipt-Does :
    (complete : Bool) (id user : ℕ) (s : PurchaseStore) (p : PurchaseOrder)
    → find_unique id s.orders ≡ some p
    → every is_received p.lines ≡ complete
    → let new_status = if complete then fully_received else partially_received in
      Does Changes s (
        validate_transition p.status new_status
        >> save id (λ row. record row { status = new_status }) user AuditAction.update)
receipt-Does true id user s p found e = search (order_rules, all_received) depth 8
receipt-Does false id user s p found e = search (order_rules, partly_received) depth 8

pub update_receipt_status-Does :
    (id user : ℕ) (s : PurchaseStore) → Does Changes s (update_receipt_status id user)
unfolding update_receipt_status
update_receipt_status-Does id user s = record {
  at =
      (or_throw-Does Changes throws_nothing missing (find_unique id s.orders) _ s
        λ p found. receipt-Does (every is_received p.lines) id user s p found refl).at;
}

pub close-Does : (id user : ℕ) (s : PurchaseStore) → Does Changes s (close id user)
unfolding close
close-Does id user s = search (order_rules, finished) depth 8
