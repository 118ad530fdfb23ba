-- ===== src/Invoicing/Payment.antt =====
-- src/modules/invoicing/services/payment.service.ts. The document numbers are given out by the counters
-- of the ledger, outside of the service's transactions.
pub mod Allocate
pub mod Duties
pub mod Calls
pub mod Reverse
pub mod Mirror
mod Tests
use inventory_pos.Common.{
  ℕ, ◌+◌, Bool, true, false, not, ◌&&◌, ◌||◌, Option, none, some, List, [], ◌∷◌, ◌++◌, ◌==◌, map,
  if◌then◌else◌,
}
use inventory_pos.Common.Effects.{
  ErrorCode, not_found, validation_error, business_rule_violation, Error, business, internal,
  Action, Result, ok, err, pure, gets, or_throw, throw_if, modify, on_part, ◌>>=◌, ◌>>◌,
}
use inventory_pos.Common.Int.{ℤ, pos, ◌+ℤ◌, ◌-ℤ◌, ltb_ℤ}
use inventory_pos.Common.Table.{Table, find_unique, update, find_first}
use inventory_pos.Common.Text.{Text, codes, text_eq}
use inventory_pos.Numbering
use inventory_pos.Numbering.{Sequences, generate}
use inventory_pos.Accounting.Store.{
  FiscalPeriod, JournalLine, JournalStatus, is_posted, JournalEntry, Ledger,
}
use inventory_pos.Accounting.Period.{is_open}
use inventory_pos.Accounting.Journal.{
  BusinessEvent, Env, ManualEntry, next_number, process_event, create_manual_entry,
}
use inventory_pos.Invoicing.Store.{
  PaymentStatus, draft, pending_approval, approved, posted, reversed, reconciled, PaymentType,
  receipt, disbursement, Payment, Invoice, InvoiceAllocation, InvoiceStatus, paid, partial,
  InvoiceStore, PaymentStore,
}
use inventory_pos.Invoicing.Invoice.{set_ledger}
use inventory_pos.Invoicing.Allocations.{
  Allocation, allocated_by, asked_for, status_after, settle, new_row, allocate_one, allocate_all,
}
use inventory_pos.Invoicing.Reversal.{
  mirror_line, is_of_payment, reversal_of, reverse_entry, reverse_books,
}

pub record CreatePayment : Type 0 where
  pub payment_type : PaymentType
  pub customer_id : Option ℕ
  pub supplier_id : Option ℕ
  pub branch_id : ℕ
  pub payment_date : ℕ
  pub amount : ℕ

abbrev pub set_books : InvoiceStore → PaymentStore → PaymentStore
set_books b s = record s { books = b }

abbrev pub set_sequences : Sequences → PaymentStore → PaymentStore
set_sequences q s = set_books (set_ledger (record s.books.ledger { sequences = q }) s.books) s

-- A throw gives back everything but the counters.
abbrev pub keep_numbers :
    {A : Type 0} → PaymentStore → Result A × PaymentStore → Result A × PaymentStore
keep_numbers s (ok a, s') = (ok a, s')
keep_numbers s (err e, s') = (err e, set_sequences s'.books.ledger.sequences s)

abbrev pub payment_transaction : {A : Type 0} → Action PaymentStore A → Action PaymentStore A
payment_transaction m s = keep_numbers s (m s)

abbrev pub unknown : Error
unknown = business not_found

abbrev pub existing_payment : ℕ → Action PaymentStore Payment
existing_payment id s = or_throw unknown (find_unique id s.payments) s

abbrev pub change_payment : ℕ → (Payment → Payment) → Action PaymentStore Payment
change_payment id f = do
  modify λ (s : PaymentStore). record s { payments = update id f s.payments }
  existing_payment id

abbrev pub status_eq : PaymentStatus → PaymentStatus → Bool
status_eq draft draft = true
status_eq pending_approval pending_approval = true
status_eq approved approved = true
status_eq posted posted = true
status_eq _ _ = false

abbrev pub number_type : PaymentType → Numbering.DocumentType
number_type receipt = Numbering.DocumentType.rcv
number_type disbursement = Numbering.DocumentType.pv

-- userId || customer_id || supplier_id || branch_id
abbrev pub creator : Option ℕ → CreatePayment → ℕ
creator (some user) p = user
creator none p = elim p.customer_id [
  | some c ↦ c
  | none ↦ elim p.supplier_id [ some v ↦ v | none ↦ p.branch_id ]
]

abbrev pub new_payment : CreatePayment → Option ℕ → Text → Payment
new_payment p user number = record {
  payment_number = number;
  payment_type = p.payment_type;
  payment_date = p.payment_date;
  amount = p.amount;
  status = draft;
  created_by = creator user p;
  approved_by = none;
  approved_at = none;
  posted_by = none;
  posted_at = none;
  reversed_by = none;
  reversed_at = none;
  reversal_reason = none;
}

abbrev pub insert_payment : ℕ → Payment → Action PaymentStore Payment
insert_payment id p s = elim (find_unique id s.payments) [
  | some q ↦ (err internal, s)
  | none ↦ (ok p, record s { payments = (id, p) ∷ s.payments })
]

-- `has_method` says whether there is an active payment method.
unfoldable pub create_payment : Env → Bool → CreatePayment → Option ℕ → Action PaymentStore Payment
unfolding generate
create_payment env has_method p user = payment_transaction do
  number ←
      on_part (λ (s : PaymentStore). s.books.ledger.sequences) set_sequences
        (generate env.db (number_type p.payment_type) (env.local_day env.now))
  throw_if (not has_method) unknown
  insert_payment env.new_id (new_payment p user number)

abbrev pub violation : Error
violation = business business_rule_violation

unfoldable pub approve : (now id approver : ℕ) → Action PaymentStore Payment
approve now id approver = payment_transaction do
  payment ← existing_payment id
  throw_if (payment.created_by == approver) violation
  throw_if (not (status_eq payment.status draft) && not (status_eq payment.status pending_approval))
      violation
  change_payment id
      λ p. record p { status = approved; approved_by = some approver; approved_at = some now }

abbrev pub event_type : PaymentType → Text
event_type receipt = codes "PAYMENT_RECEIPT"
event_type disbursement = codes "PURCHASE_PAYMENT"

abbrev pub payment_event : ℕ → Payment → ℕ → ℕ → BusinessEvent
payment_event id p user period = record {
  event_type = event_type p.payment_type;
  reference_type = codes "PAYMENT";
  reference_id = id;
  reference_number = p.payment_number;
  entry_date = p.payment_date;
  period_id = period;
  amount = pos p.amount;
  lines = [];
  created_by = user;
}

abbrev pub in_ledger : {A : Type 0} → Action Ledger A → Action PaymentStore A
in_ledger m =
    on_part (λ (s : PaymentStore). s.books.ledger) (λ l s. set_books (set_ledger l s.books) s) m

abbrev pub current_period : PaymentStore → Option (ℕ × FiscalPeriod)
current_period s = find_first is_open s.books.ledger.periods

unfoldable pub post : Env → (id user : ℕ) → Action PaymentStore Payment
unfolding process_event
post env id user = payment_transaction do
  payment ← existing_payment id
  throw_if (not (status_eq payment.status approved)) (business validation_error)
  open_one ← gets current_period
  period ← or_throw (business validation_error) open_one
  updated ←
      change_payment id
        λ p. record p { status = posted; posted_by = some user; posted_at = some env.now }
  in_ledger (process_event env (payment_event id payment user period.0))
  pure updated

unfoldable pub allocate_to_invoices :
    (now id : ℕ) → List Allocation → Action PaymentStore (Unit {0})
unfolding allocated_by asked_for allocate_all ◌+ℤ◌
allocate_to_invoices now id list = payment_transaction do
  payment ← existing_payment id
  already ← gets λ (s : PaymentStore). allocated_by id s.books.allocations
  throw_if (ltb_ℤ (pos payment.amount) (already +ℤ asked_for list)) (business validation_error)
  on_part (λ (s : PaymentStore). s.books) set_books (allocate_all now id payment.created_by list)

abbrev pub when : Bool → Action PaymentStore (Unit {0}) → Action PaymentStore (Unit {0})
when false m = pure tt
when true m = m

unfoldable pub reverse : Env → (id user : ℕ) → Text → Action PaymentStore Payment
unfolding create_manual_entry
reverse env id user reason = payment_transaction do
  payment ← existing_payment id
  when (status_eq payment.status posted) (in_ledger (reverse_books env id payment user reason))
  change_payment id λ p. record p {
    status = reversed;
    reversed_by = some user;
    reversed_at = some env.now;
    reversal_reason = some reason;
  }

unfoldable pub reconcile : ℕ → Action PaymentStore Payment
reconcile id =
    payment_transaction
      do payment ← existing_payment id; change_payment id λ p. record p { status = reconciled }
