-- ===== src/Invoicing/Allocations.antt =====
-- The rows of `allocateToInvoices` in src/modules/invoicing/services/payment.service.ts.
use inventory_pos.Common.{ℕ, List, [], ◌∷◌, ◌==◌, if◌then◌else◌}
use inventory_pos.Common.Effects.{
  not_found, validation_error, business, Action, pure, gets, or_throw, throw_if, modify, ◌>>=◌,
  ◌>>◌,
}
use inventory_pos.Common.Int.{ℤ, pos, ◌+ℤ◌, ◌-ℤ◌, ltb_ℤ}
use inventory_pos.Common.Table.{find_unique, update}
use inventory_pos.Invoicing.Store.{
  Invoice, InvoiceAllocation, InvoiceStatus, paid, partial, InvoiceStore,
}

pub record Allocation : Type 0 where
  pub invoice_id : ℕ
  pub amount : ℤ

-- What the allocations of a payment, and those of a request, come to.
unfoldable pub allocated_by : ℕ → List InvoiceAllocation → ℤ
unfolding ◌+ℤ◌
allocated_by id [] = pos 0
allocated_by id (a ∷ rest) =
    let more = allocated_by id rest in
    if id == a.payment_id then a.allocated_amount +ℤ more else more

unfoldable pub asked_for : List Allocation → ℤ
asked_for [] = pos 0
asked_for (a ∷ rest) = a.amount +ℤ asked_for rest

abbrev pub status_after : ℤ → Invoice → InvoiceStatus
status_after left i =
    if ltb_ℤ (pos 1) left then if ltb_ℤ left i.total_amount then partial else i.status else paid

-- The paid amount is incremented, the balance is set to what was computed from the row that was read.
abbrev pub settle : ℤ → Invoice → Invoice → Invoice
settle amount existing i =
    let left = existing.outstanding_amount -ℤ amount in
    record i {
      paid_amount = i.paid_amount +ℤ amount;
      outstanding_amount = left;
      status = status_after left existing;
    }

abbrev pub new_row : (now id user : ℕ) → Allocation → InvoiceAllocation
new_row now id user a = record {
  invoice_id = a.invoice_id;
  payment_id = id;
  allocated_amount = a.amount;
  allocated_at = now;
  created_by = user;
}

abbrev pub allocate_one : (now id user : ℕ) → Allocation → Action InvoiceStore (Unit {0})
allocate_one now id user a = do
  row ← gets λ (s : InvoiceStore). find_unique a.invoice_id s.invoices
  invoice ← or_throw (business not_found) row
  throw_if (ltb_ℤ invoice.outstanding_amount a.amount) (business validation_error)
  modify λ (s : InvoiceStore). record s {
    allocations = new_row now id user a ∷ s.allocations;
    invoices = update a.invoice_id (settle a.amount invoice) s.invoices;
  }

-- The loop over the allocations.
unfoldable pub allocate_all : (now id user : ℕ) → List Allocation → Action InvoiceStore (Unit {0})
allocate_all now id user [] = pure tt
allocate_all now id user (a ∷ rest) = do allocate_one now id user a; allocate_all now id user rest
