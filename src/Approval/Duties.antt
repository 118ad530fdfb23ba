-- ===== src/Approval/Duties.antt =====
-- Segregation of duties in approval-engine.service.ts, alone and together with the order service.
use inventory_pos.Common.{
  ℕ, ◌≡◌, refl, ◌≢◌, Bool, true, false, some, List, ◌==◌, arith, All, Option-cases, inl, inr,
  if◌then◌else◌, sym, ◌∙◌,
}
use mathlib.Core.Option.{some-injective}
use inventory_pos.Common.Effects.{Result, ok, err}
use inventory_pos.Common.Table.{find_unique, update, All-update, find_unique-update_self}
use inventory_pos.Purchase.Store.{PoStatus, PurchaseOrder}
use inventory_pos.Purchase.Order.Duties.{IsApprovedByAnother, IsSeparated, AllSeparated}
use inventory_pos.Invoicing.Store.{PaymentStatus, Payment}
use inventory_pos.Approval.{
  UserRole, ApprovalStore, DocumentType, ApprovalDecision, approved, rejected, decide_order,
  decide_payment, submit_for_approval, process_approval, escalate, separation,
}

-- SOD-002: an approved payment has an approver who is not its creator.
abbrev pub IsPaymentSeparated : Payment → Type 0
IsPaymentSeparated p =
    p.status ≡ PaymentStatus.approved → IsApprovedByAnother p.approved_by p.created_by

-- Both rules, of every order and every payment.
abbrev pub IsSafe : ApprovalStore → Type 0
IsSafe s = AllSeparated s.purchase × All (λ (x : ℕ × Payment). IsPaymentSeparated x.1) s.payments

orders_with :
    (id : ℕ) (f : PurchaseOrder → PurchaseOrder) (s : ApprovalStore)
    → ((p : PurchaseOrder) → find_unique id s.purchase.orders ≡ some p → IsSeparated (f p))
    → IsSafe s
    → IsSafe
        (record s { purchase = record (s.purchase) { orders = update id f s.purchase.orders } })
orders_with id f s h (orders, payments) =
    (All-update IsSeparated id f s.purchase.orders orders (λ p e _. h p e), payments)

payments_with :
    (id : ℕ) (f : Payment → Payment) (s : ApprovalStore)
    → ((p : Payment) → find_unique id s.payments ≡ some p → IsPaymentSeparated (f p))
    → IsSafe s
    → IsSafe (record s { payments = update id f s.payments })
payments_with id f s h (orders, payments) =
    (orders, All-update IsPaymentSeparated id f s.payments payments (λ p e _. h p e))

pub submit_for_approval-IsSafe :
    (users : List UserRole) (id : ℕ) (t : DocumentType) (s : ApprovalStore)
    → IsSafe s
    → IsSafe (submit_for_approval users id t s).1
unfolding submit_for_approval
submit_for_approval-IsSafe users id DocumentType.purchase_order s h =
    elim (Option-cases (find_unique id s.purchase.orders)) [
      | inl gone ↦ rw gone h
      | inr (p, found) ↦ rw found (orders_with id _ s (λ q e past. cc) h)
    ]
submit_for_approval-IsSafe users id DocumentType.payment s h =
    elim (Option-cases (find_unique id s.payments)) [
      | inl gone ↦ rw gone h
      | inr (p, found) ↦ rw found (payments_with id _ s (λ q e past. cc) h)
    ]
submit_for_approval-IsSafe users id DocumentType.other s h = h

another : (creator approver : ℕ) → (creator == approver) ≡ false → approver ≢ creator
another creator approver h = ground arith

-- How an approval ends, by whether the approver is the creator.
abbrev settled : Bool → ApprovalStore → ApprovalStore → Result (Unit {0}) × ApprovalStore
settled own s t = if own then (err separation, s) else (ok tt, t)

-- The store after an approval.
abbrev order_approved : ℕ → ℕ → ℕ → ApprovalStore → ApprovalStore
order_approved now id approver s = record s {
  purchase = record (s.purchase) {
    orders =
        update id
          (λ (row : PurchaseOrder). record row {
            status = PoStatus.approved;
            approved_by = some approver;
            approved_at = some now;
          })
          s.purchase.orders;
  };
}

abbrev payment_approved : ℕ → ℕ → ℕ → ApprovalStore → ApprovalStore
payment_approved now id approver s = record s {
  payments =
      update id
        (λ (row : Payment). record row {
          status = PaymentStatus.approved;
          approved_by = some approver;
          approved_at = some now;
        })
        s.payments;
}

pub decide_order_approved :
    (now id approver : ℕ) (s : ApprovalStore) (p : PurchaseOrder)
    → find_unique id s.purchase.orders ≡ some p
    → decide_order now id approver approved s
      ≡ settled (p.created_by == approver) s (order_approved now id approver s)
unfolding decide_order
decide_order_approved now id approver s p found = ground arith

pub decide_payment_approved :
    (now id approver : ℕ) (s : ApprovalStore) (p : Payment)
    → find_unique id s.payments ≡ some p
    → decide_payment now id approver approved s
      ≡ settled (p.created_by == approver) s (payment_approved now id approver s)
unfolding decide_payment
decide_payment_approved now id approver s p found = ground arith

decide_order-IsSafe :
    (now id approver : ℕ) (d : ApprovalDecision) (s : ApprovalStore) (p : PurchaseOrder)
    → find_unique id s.purchase.orders ≡ some p
    → IsSafe s
    → IsSafe (decide_order now id approver d s).1
decide_order-IsSafe now id approver approved s p found h =
    rw (decide_order_approved now id approver s p found) (by_test (p.created_by == approver) refl)
  where
    by_test :
        (b : Bool)
        → (p.created_by == approver) ≡ b
        → IsSafe (settled b s (order_approved now id approver s)).1
    by_test true e = h
    by_test false e =
        orders_with id _ s
          (λ q there past.
            let same : q ≡ p = some-injective _ _ (sym there ∙ found) in
            rw same (another p.created_by approver e))
          h
decide_order-IsSafe now id approver rejected s p found h =
    unfold decide_order in orders_with id _ s (λ q e past. cc) h

decide_payment-IsSafe :
    (now id approver : ℕ) (d : ApprovalDecision) (s : ApprovalStore) (p : Payment)
    → find_unique id s.payments ≡ some p
    → IsSafe s
    → IsSafe (decide_payment now id approver d s).1
decide_payment-IsSafe now id approver approved s p found h =
    rw (decide_payment_approved now id approver s p found) (by_test (p.created_by == approver) refl)
  where
    by_test :
        (b : Bool)
        → (p.created_by == approver) ≡ b
        → IsSafe (settled b s (payment_approved now id approver s)).1
    by_test true e = h
    by_test false e =
        payments_with id _ s
          (λ q there past.
            let same : q ≡ p = some-injective _ _ (sym there ∙ found) in
            rw same (another p.created_by approver e))
          h
decide_payment-IsSafe now id approver rejected s p found h =
    unfold decide_payment in payments_with id _ s (λ q e past. cc) h

-- A decision keeps the rules SOD-001 and SOD-002 for all orders and payments.
pub process_approval-IsSafe :
    (now id approver : ℕ) (d : ApprovalDecision) (s : ApprovalStore)
    → IsSafe s
    → IsSafe (process_approval now id approver d s).1
unfolding process_approval
process_approval-IsSafe now id approver d s h =
    elim (Option-cases (find_unique id s.purchase.orders)) [
      | inr (p, found) ↦ rw found (decide_order-IsSafe now id approver d s p found h)
      | inl no_order ↦ elim (Option-cases (find_unique id s.payments)) [
        | inl nothing ↦ rw (no_order, nothing) h
        | inr (p, found) ↦
            rw (no_order, found) (decide_payment-IsSafe now id approver d s p found h)
      ]
    ]

pub escalate-IsSafe : (id : ℕ) (s : ApprovalStore) → IsSafe s → IsSafe (escalate id s).1
unfolding escalate
escalate-IsSafe id s h = orders_with id _ s (λ p e past. cc) h

-- The engine approves an order in any status, a cancelled or closed one too: it asks only that the
-- approver is not the creator.
pub process_approval_any_status :
    (now id approver : ℕ) (s : ApprovalStore) (p : PurchaseOrder)
    → find_unique id s.purchase.orders ≡ some p
    → p.created_by ≢ approver
    → (find_unique id (process_approval now id approver approved s).1.purchase.orders
        ≡ some (record p {
          status = PoStatus.approved;
          approved_by = some approver;
          approved_at = some now;
        }))
unfolding process_approval
process_approval_any_status now id approver s p found other =
    rw (found, decide_order_approved now id approver s p found, ne_test p.created_by approver other)
      (find_unique-update_self id _ s.purchase.orders found)
  where
    ne_test : (a b : ℕ) → a ≢ b → (a == b) ≡ false
    ne_test a b h = ground arith
