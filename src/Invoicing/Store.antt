-- ===== src/Invoicing/Store.antt =====
-- The tables of src/modules/invoicing. Money is in hundredths (`@db.Decimal(18, 2)`).
use inventory_pos.Common.{ℕ, Bool, true, false, Option, List}
use inventory_pos.Common.Int.{ℤ}
use inventory_pos.Common.Table.{Table}
use inventory_pos.Common.Text.{Text}
use inventory_pos.Purchase.Store.{PurchaseStore}
use inventory_pos.Purchase.Matching.{InvoiceLine}
use inventory_pos.Accounting.Store.{Ledger}

-- The statuses that the payment service and the approval engine write.
pub data PaymentStatus : Type 0 where
  draft pending pending_approval approved posted reversed reconciled cancelled : PaymentStatus

pub data PaymentType : Type 0 where
  receipt disbursement : PaymentType

pub record Payment : Type 0 where
  pub payment_number : Text
  pub payment_type : PaymentType
  pub payment_date : ℕ
  pub amount : ℕ
  pub status : PaymentStatus
  pub created_by : ℕ
  pub approved_by : Option ℕ
  pub approved_at : Option ℕ
  pub posted_by : Option ℕ
  pub posted_at : Option ℕ
  pub reversed_by : Option ℕ
  pub reversed_at : Option ℕ
  pub reversal_reason : Option Text

pub data InvoiceStatus : Type 0 where
  draft open_ partial paid overdue disputed written_off cancelled : InvoiceStatus

abbrev pub status_eq : InvoiceStatus → InvoiceStatus → Bool
status_eq draft draft = true
status_eq open_ open_ = true
status_eq partial partial = true
status_eq paid paid = true
status_eq overdue overdue = true
status_eq disputed disputed = true
status_eq written_off written_off = true
status_eq cancelled cancelled = true
status_eq _ _ = false

pub data InvoiceType : Type 0 where
  sales purchase : InvoiceType

pub record Invoice : Type 0 where
  pub invoice_number : Text
  pub invoice_type : InvoiceType
  pub reference_type : Text
  pub reference_id : ℕ
  pub branch_id : ℕ
  pub status : InvoiceStatus
  pub total_amount : ℤ
  pub paid_amount : ℤ
  pub outstanding_amount : ℤ
  pub notes : Option Text
  pub posted_by : Option ℕ
  pub posted_at : Option ℕ
  pub deleted : Bool
  pub lines : List InvoiceLine

pub record InvoiceAllocation : Type 0 where
  pub invoice_id : ℕ
  pub payment_id : ℕ
  pub allocated_amount : ℤ
  pub allocated_at : ℕ
  pub created_by : ℕ

pub data AuditAction : Type 0 where
  post update write_off cancel : AuditAction

pub record AuditEntry : Type 0 where
  pub user_id : ℕ
  pub action : AuditAction
  pub entity_id : ℕ

pub record InvoiceStore : Type 0 where
  pub invoices : Table Invoice
  pub allocations : List InvoiceAllocation
  pub purchase : PurchaseStore
  pub ledger : Ledger
  pub audit : List AuditEntry

pub record PaymentStore : Type 0 where
  pub payments : Table Payment
  pub books : InvoiceStore
