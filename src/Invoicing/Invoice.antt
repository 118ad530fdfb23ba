-- ===== src/Invoicing/Invoice.antt =====
-- src/modules/invoicing/services/invoice.service.ts, from the posting of an invoice on. Creating an
-- invoice and searching are left out.
pub mod Accounts
pub mod Calls
pub mod WriteOff
use inventory_pos.Common.{
  ℕ, Bool, true, false, not, ◌&&◌, ◌||◌, Option, none, some, List, [], ◌∷◌, ◌++◌, ◌==◌, ltb, length,
  any, if◌then◌else◌,
}
use inventory_pos.Common.Effects.{
  ErrorCode, not_found, validation_error, business_rule_violation, Error, business, missing, Action,
  Result, ok, err, pure, gets, or_throw, throw_if, modify, on_part, transaction, ◌>>=◌, ◌>>◌,
}
use inventory_pos.Common.Int.{ℤ, pos, ◌+ℤ◌, ◌-ℤ◌, ltb_ℤ}
use inventory_pos.Common.Table.{Table, find_unique, update, find_first}
use inventory_pos.Common.Text.{Text, codes, text_eq, trim}
use inventory_pos.Numbering.{Sequences}
use inventory_pos.Purchase.Store.{PurchaseStore, is_blank, annotate}
use inventory_pos.Purchase.Matching.{
  InvoiceLine, MatchingResult, three_way_matching_tolerance, validate_and_throw,
}
use inventory_pos.Accounting.Store.{FiscalPeriod, JournalEntry, Ledger}
use inventory_pos.Accounting.Period.{is_open}
use inventory_pos.Accounting.Journal
use inventory_pos.Accounting.Journal.{BusinessEvent, Env, process_event}
use inventory_pos.Invoicing.Store.{
  InvoiceStatus, draft, open_, partial, paid, overdue, disputed, written_off, cancelled, status_eq,
  InvoiceType, sales, purchase, Invoice, InvoiceAllocation, AuditAction, AuditEntry, InvoiceStore,
}

-- `findById` of the service's own calls, which pass no user.
abbrev pub live : Option Invoice → Option Invoice
live none = none
live (some i) = if i.deleted then none else some i

abbrev pub existing_invoice : ℕ → Action InvoiceStore Invoice
existing_invoice id s = or_throw missing (live (find_unique id s.invoices)) s

abbrev pub violation : Error
violation = business business_rule_violation

abbrev pub log : ℕ → AuditAction → ℕ → InvoiceStore → InvoiceStore
log user action id s = record s {
  audit = record { user_id = user; action = action; entity_id = id } ∷ s.audit;
}

abbrev pub change_invoice : ℕ → (Invoice → Invoice) → Action InvoiceStore (Unit {0})
change_invoice id f = modify λ (s : InvoiceStore). record s { invoices = update id f s.invoices }

-- OPEN, PARTIAL or OVERDUE
abbrev pub is_due : InvoiceStatus → Bool
is_due c = status_eq c open_ || status_eq c partial || status_eq c overdue

-- `prisma.$transaction` around a journal entry: its number is taken outside of the transaction, so a
-- throw gives back everything but the counters.
abbrev pub set_ledger : Ledger → InvoiceStore → InvoiceStore
set_ledger l s = record s { ledger = l }

abbrev pub keep_numbers :
    {A : Type 0} → InvoiceStore → Result A × InvoiceStore → Result A × InvoiceStore
keep_numbers s (ok a, s') = (ok a, s')
keep_numbers s (err e, s') =
    (err e, set_ledger (record s.ledger { sequences = s'.ledger.sequences }) s)

abbrev pub journal_transaction : {A : Type 0} → Action InvoiceStore A → Action InvoiceStore A
journal_transaction m s = keep_numbers s (m s)

-- The open fiscal period's id.
abbrev pub current_period : Action InvoiceStore (ℕ × FiscalPeriod)
current_period s = or_throw (business validation_error) (find_first is_open s.ledger.periods) s

abbrev pub event_of : Env → Text → ℕ → Invoice → ℕ → ℕ → ℤ → BusinessEvent
event_of env type id invoice user period amount = record {
  event_type = type;
  reference_type = codes "INVOICE";
  reference_id = id;
  reference_number = invoice.invoice_number;
  entry_date = env.now;
  period_id = period;
  amount = amount;
  lines = [];
  created_by = user;
}

abbrev pub journal : Env → BusinessEvent → Action InvoiceStore JournalEntry
journal env event = on_part (λ (s : InvoiceStore). s.ledger) set_ledger (process_event env event)

-- The lines of a purchase invoice for an order are matched before it is posted, when there are any.
abbrev pub po_of : Invoice → Option ℕ
po_of i = elim i.invoice_type [
  | sales ↦ none
  | purchase ↦ if text_eq i.reference_type (codes "PO") then some i.reference_id else none
]

abbrev pub match_order : Option ℕ → List InvoiceLine → PurchaseStore → Result (Unit {0})
match_order none lines p = ok tt
match_order (some po) [] p = ok tt
match_order (some po) (l ∷ ls) p = validate_and_throw three_way_matching_tolerance po (l ∷ ls) p

abbrev pub match_lines : Invoice → Action InvoiceStore (Unit {0})
match_lines i s = (match_order (po_of i) i.lines s.purchase, s)

abbrev pub invoice_event_type : InvoiceType → Text
invoice_event_type sales = codes "SALES_INVOICE"
invoice_event_type purchase = codes "SUPPLIER_INVOICE"

-- The writes of `post` and `writeOff`: the row, its journal entry, the audit entry.
abbrev pub write :
    Env
    → ℕ
    → Invoice
    → (Invoice → Invoice)
    → Text
    → ℤ
    → ℕ
    → AuditAction
    → Action InvoiceStore Invoice
write env id existing f type amount user action = journal_transaction do
  change_invoice id f
  period ← current_period
  journal env (event_of env type id existing user period.0 amount)
  modify (log user action id)
  existing_invoice id

unfoldable pub post : Env → ℕ → ℕ → Action InvoiceStore Invoice
unfolding process_event validate_and_throw
post env id user = do
  existing ← existing_invoice id
  throw_if (not (status_eq existing.status draft)) violation
  match_lines existing
  write env id existing
      (λ i. record i { status = open_; posted_by = some user; posted_at = some env.now })
      (invoice_event_type existing.invoice_type) existing.total_amount user AuditAction.post

-- A balance of a cent at most counts as paid.
abbrev pub status_after : ℤ → InvoiceStatus
status_after outstanding = if ltb_ℤ (pos 1) outstanding then partial else paid

abbrev pub pay : Invoice → ℤ → Invoice → Invoice
pay existing amount i =
    let new_paid = existing.paid_amount +ℤ amount in
    record i {
      paid_amount = new_paid;
      outstanding_amount = existing.total_amount -ℤ new_paid;
      status = status_after (existing.total_amount -ℤ new_paid);
    }

abbrev pub new_allocation : (now id payment : ℕ) → ℤ → ℕ → InvoiceAllocation
new_allocation now id payment amount user = record {
  invoice_id = id;
  payment_id = payment;
  allocated_amount = amount;
  allocated_at = now;
  created_by = user;
}

-- The transaction of `applyPayment`.
abbrev pub write_allocation :
    Invoice → InvoiceAllocation → ℕ → Action InvoiceStore InvoiceAllocation
write_allocation existing a user = transaction do
  modify λ (s : InvoiceStore). record s { allocations = a ∷ s.allocations }
  change_invoice a.invoice_id (pay existing a.allocated_amount)
  modify (log user AuditAction.update a.invoice_id)
  pure a

unfoldable pub apply_payment : (now id payment : ℕ) → ℤ → ℕ → Action InvoiceStore InvoiceAllocation
unfolding ◌+ℤ◌ ◌-ℤ◌
apply_payment now id payment amount user = do
  throw_if (not (ltb_ℤ (pos 0) amount)) (business validation_error)
  existing ← existing_invoice id
  throw_if (not (is_due existing.status)) violation
  throw_if (ltb_ℤ existing.outstanding_amount amount) (business validation_error)
  write_allocation existing (new_allocation now id payment amount user) user

abbrev pub save : ℕ → (Invoice → Invoice) → ℕ → AuditAction → Action InvoiceStore Invoice
save id f user action =
    transaction do change_invoice id f; modify (log user action id); existing_invoice id

unfoldable pub dispute : ℕ → Text → ℕ → Action InvoiceStore Invoice
unfolding is_blank trim
dispute id reason user = do
  throw_if (is_blank reason) (business validation_error)
  existing ← existing_invoice id
  throw_if (not (is_due existing.status)) violation
  save id
      (λ i. record i {
        status = disputed;
        notes = some (trim (annotate existing.notes (codes "\nDisputed: ") reason));
      })
      user AuditAction.update

unfoldable pub write_off : Env → ℕ → ℕ → Text → Action InvoiceStore Invoice
unfolding is_blank trim process_event
write_off env id user reason = do
  throw_if (is_blank reason) (business validation_error)
  existing ← existing_invoice id
  throw_if (not (status_eq existing.status overdue)) violation
  write env id existing
      (λ i. record i {
        status = written_off;
        notes = some (trim (annotate existing.notes (codes "\nWritten Off: ") reason));
      })
      (codes "WRITE_OFF_AR") existing.outstanding_amount user AuditAction.write_off

abbrev pub has_allocation : ℕ → List InvoiceAllocation → Bool
has_allocation id allocations = any (λ (a : InvoiceAllocation). a.invoice_id == id) allocations

-- `cancel` asks for the row itself, with a business error.
unfoldable pub cancel : ℕ → ℕ → Action InvoiceStore Invoice
cancel id user = do
  row ← gets λ (s : InvoiceStore). live (find_unique id s.invoices)
  existing ← or_throw (business not_found) row
  throw_if (not (status_eq existing.status draft) && not (status_eq existing.status open_))
      violation
  allocated ← gets λ (s : InvoiceStore). has_allocation id s.allocations
  throw_if (allocated || ltb_ℤ (pos 0) existing.paid_amount) violation
  save id (λ i. record i { status = cancelled }) user AuditAction.cancel
