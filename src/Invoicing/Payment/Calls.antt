-- ===== src/Invoicing/Payment/Calls.antt =====
-- Any mixture of calls of payment.service.ts and invoice.service.ts, one after the other.
use inventory_pos.Common.{ℕ, Bool, Option, List, [], ◌∷◌}
use inventory_pos.Common.Text.{Text}
use inventory_pos.Accounting.Journal.{Env}
use inventory_pos.Invoicing.Store.{PaymentStore}
use inventory_pos.Invoicing.Invoice.Calls.{perform-AllAccounted}
use inventory_pos.Invoicing.Invoice.Calls
use inventory_pos.Invoicing.Payment
use inventory_pos.Invoicing.Payment.{CreatePayment, set_books}
use inventory_pos.Invoicing.Allocations.{Allocation}
use inventory_pos.Invoicing.Payment.Duties.{
  IsRight, create_payment-Does, approve-Does, post-Does, allocate_to_invoices-Does, reverse-Does,
  reconcile-Does,
}

pub data Call : Type 0 where
  create_payment : Env → (has_method : Bool) → CreatePayment → Option ℕ → Call
  approve : (now id approver : ℕ) → Call
  post : Env → (id user : ℕ) → Call
  allocate_to_invoices : (now id : ℕ) → List Allocation → Call
  reverse : Env → (id user : ℕ) → Text → Call
  reconcile : ℕ → Call
  on_invoices : Calls.Call → Call

pub perform : Call → PaymentStore → PaymentStore
perform (create_payment env has_method p user) s =
    (Payment.create_payment env has_method p user s).1
perform (approve now id approver) s = (Payment.approve now id approver s).1
perform (post env id user) s = (Payment.post env id user s).1
perform (allocate_to_invoices now id list) s = (Payment.allocate_to_invoices now id list s).1
perform (reverse env id user reason) s = (Payment.reverse env id user reason s).1
perform (reconcile id) s = (Payment.reconcile id s).1
perform (on_invoices c) s = set_books (Calls.perform c s.books) s

pub run : List Call → PaymentStore → PaymentStore
unfolding perform
run [] s = s
run (c ∷ cs) s = run cs (perform c s)

perform-IsRight : (c : Call) (s : PaymentStore) → IsRight s → IsRight (perform c s)
unfolding perform
perform-IsRight (create_payment env has_method p user) s h =
    (create_payment-Does env has_method p user s).at h
perform-IsRight (approve now id approver) s h = (approve-Does now id approver s).at h
perform-IsRight (post env id user) s h = (post-Does env id user s).at h
perform-IsRight (allocate_to_invoices now id list) s h =
    (allocate_to_invoices-Does now id list s).at h
perform-IsRight (reverse env id user reason) s h = (reverse-Does env id user reason s).at h
perform-IsRight (reconcile id) s h = (reconcile-Does id s).at h
perform-IsRight (on_invoices c) s h = record {
  payments = h.payments;
  books = perform-AllAccounted c s.books h.books;
}

-- Whatever calls are made of the two services, in whatever order and with whatever arguments, and
-- whether they return or throw: every payment that is approved or posted was approved by a user who did
-- not create it, and the amounts of every invoice agree with its allocations.
pub run-IsRight : (cs : List Call) (s : PaymentStore) → IsRight s → IsRight (run cs s)
unfolding run
run-IsRight [] s h = h
run-IsRight (c ∷ cs) s h = run-IsRight cs (perform c s) (perform-IsRight c s h)
