-- ===== src/Accounting/Store.antt =====
-- The tables of the accounting services. Amounts are in hundredths (`@db.Decimal(18, 2)`) and signed;
-- a point in time is a number of milliseconds.
use inventory_pos.Common.{ℕ, Bool, true, false, Option, List}
use inventory_pos.Common.Int.{ℤ}
use inventory_pos.Common.Table.{Table}
use inventory_pos.Common.Text.{Text}
use inventory_pos.Numbering.{Sequences}

pub data PeriodStatus : Type 0 where
  draft open_ closed : PeriodStatus

pub record FiscalPeriod : Type 0 where
  pub period_name : Text
  pub year : ℕ
  pub month : ℕ
  pub start_date : ℕ
  pub end_date : ℕ
  pub status : PeriodStatus
  pub closed_by : Option ℕ
  pub closed_at : Option ℕ

pub record JournalLine : Type 0 where
  pub account_id : ℕ
  pub cost_center_id : Option ℕ
  pub description : Option Text
  pub debit : ℤ
  pub credit : ℤ

-- The engine writes entries with the status POSTED only; other services set the others.
pub data JournalStatus : Type 0 where
  draft posted reversed : JournalStatus

-- The lines stand in the order of their `line_number`, from 1.
pub record JournalEntry : Type 0 where
  pub je_number : Text
  pub entry_date : ℕ
  pub period_id : ℕ
  pub reference_type : Text
  pub reference_id : ℕ
  pub reference_number : Text
  pub description : Text
  pub total_debit : ℤ
  pub total_credit : ℤ
  pub status : JournalStatus
  pub is_auto_generated : Bool
  pub posted_by : Option ℕ
  pub posted_at : Option ℕ
  pub reversed_by : Option ℕ
  pub reversed_at : Option ℕ
  pub created_by : ℕ
  pub lines : List JournalLine

pub record JournalTemplate : Type 0 where
  pub event_type : Text
  pub debit_account_id : ℕ
  pub credit_account_id : ℕ
  pub is_active : Bool

-- What the closing checklist reads of an invoice and of a payment.
pub record Dated : Type 0 where
  pub status : Text
  pub date : ℕ

pub record BankReconciliation : Type 0 where
  pub period_id : ℕ
  pub status : Text

pub record Ledger : Type 0 where
  pub periods : Table FiscalPeriod
  pub journals : Table JournalEntry
  pub templates : List JournalTemplate
  pub sequences : Sequences
  pub invoices : List Dated
  pub payments : List Dated
  pub reconciliations : List BankReconciliation
  pub opnames : List Text

abbrev pub status_eq : PeriodStatus → PeriodStatus → Bool
status_eq draft draft = true
status_eq open_ open_ = true
status_eq closed closed = true
status_eq _ _ = false

abbrev pub is_posted : JournalStatus → Bool
is_posted posted = true
is_posted _ = false
