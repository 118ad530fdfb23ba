-- ===== src/Invoicing/Tests.antt =====
-- The invoice service at concrete inputs.
use mathlib.Core.Path.{subst}
use inventory_pos.Common.{ℕ, ◌≡◌, refl, true, false, none, some, List, [], ◌∷◌, arith}
use inventory_pos.Common.Effects.{ok}
use inventory_pos.Common.Int.{ℤ, pos, ◌+ℤ◌, ◌-ℤ◌}
use inventory_pos.Common.Table.{find_unique}
use inventory_pos.Common.Text.{codes, trim}
use inventory_pos.Numbering.{Outcome}
use inventory_pos.Purchase.Store.{is_blank}
use inventory_pos.Accounting.Store.{
  PeriodStatus, FiscalPeriod, JournalLine, JournalEntry, JournalStatus, Ledger,
}
use inventory_pos.Accounting.Journal.{Env, total_debit, total_credit, process_event}
use inventory_pos.Invoicing.Store.{InvoiceStatus, InvoiceType, Invoice, InvoiceStore}
use inventory_pos.Invoicing.Invoice
use inventory_pos.Invoicing.Invoice.{post, write_off}
use inventory_pos.Invoicing.Invoice.Accounts.{allocated_to, IsAccounted, AllAccounted}
use inventory_pos.Invoicing.Invoice.Calls
use inventory_pos.Invoicing.Invoice.Calls.{Call, run, run-AllAccounted}
use inventory_pos.Invoicing.Invoice.WriteOff.{written, write_off-journals}

abbrev period : FiscalPeriod
period = record {
  period_name = codes "January";
  year = 2026;
  month = 1;
  start_date = 0;
  end_date = 99;
  status = PeriodStatus.open_;
  closed_by = none;
  closed_at = none;
}

abbrev ledger : Ledger
ledger = record {
  periods = (1, period) ∷ [];
  journals = [];
  templates =
      record {
        event_type = codes "SALES_INVOICE";
        debit_account_id = 1;
        credit_account_id = 2;
        is_active = true;
      }
      ∷ record {
        event_type = codes "WRITE_OFF_AR";
        debit_account_id = 3;
        credit_account_id = 1;
        is_active = true;
      }
      ∷ [];
  sequences = [];
  invoices = [];
  payments = [];
  reconciliations = [];
  opnames = [];
}

abbrev invoice : Invoice
invoice = record {
  invoice_number = codes "INV-202601-00001";
  invoice_type = InvoiceType.sales;
  reference_type = codes "MANUAL";
  reference_id = 9;
  branch_id = 1;
  status = InvoiceStatus.draft;
  total_amount = pos 90_000;
  paid_amount = pos 0;
  outstanding_amount = pos 90_000;
  notes = none;
  posted_by = none;
  posted_at = none;
  deleted = false;
  lines = [];
}

abbrev store : InvoiceStore
store = record {
  invoices = (5, invoice) ∷ [];
  allocations = [];
  purchase = record { orders = []; receipts = []; sequences = []; audit = [] };
  ledger = ledger;
  audit = [];
}

abbrev env : ℕ → Env
env id = record {
  db = λ n. Outcome.row;
  local_day = λ date. record { year = 2026; month = 0; day = 3 };
  new_id = id;
  now = 50;
}

only_invoice : (id : ℕ) (i : Invoice) → find_unique id store.invoices ≡ some i → invoice ≡ i
only_invoice id i e = ground arith

invoice-IsAccounted : (id : ℕ) → IsAccounted [] id invoice
unfolding allocated_to ◌-ℤ◌
invoice-IsAccounted id = record { paid_sum = refl; left = refl; nonneg = omega arith }

store-AllAccounted : AllAccounted store
store-AllAccounted = record {
  at = λ id i e. subst (IsAccounted [] id) (only_invoice id i e) (invoice-IsAccounted id);
}

abbrev calls : List Call
calls =
    Calls.post (env 20) 5 7
    ∷ Calls.apply_payment 60 5 3 (pos 50_000) 7
    ∷ Calls.apply_payment 61 5 4 (pos 50_000) 7
    ∷ Calls.apply_payment 62 5 4 (pos 39_999) 7
    ∷ Calls.cancel 5 7
    ∷ []

run-AllAccounted_example : AllAccounted (run calls store)
run-AllAccounted_example = run-AllAccounted calls store store-AllAccounted

-- The two payments that fit leave one hundredth, which counts as paid.
abbrev final : Invoice
final = record invoice {
  status = InvoiceStatus.paid;
  paid_amount = pos 89_999;
  outstanding_amount = pos 1;
  posted_by = some 7;
  posted_at = some 50;
}

calls-run : find_unique 5 (run calls store).invoices ≡ some final
unfolding run Calls.perform post Invoice.apply_payment Invoice.cancel process_event total_debit
    total_credit ◌+ℤ◌ ◌-ℤ◌
calls-run = refl

abbrev line : ℕ → ℤ → ℤ → JournalLine
line account debit credit = record {
  account_id = account;
  cost_center_id = none;
  description = none;
  debit = debit;
  credit = credit;
}

abbrev booked : JournalEntry
booked = record {
  je_number = codes "JE-202601-00001";
  entry_date = 50;
  period_id = 1;
  reference_type = codes "INVOICE";
  reference_id = 5;
  reference_number = codes "INV-202601-00001";
  description = codes "Auto journal: SALES_INVOICE - INV-202601-00001";
  total_debit = pos 90_000;
  total_credit = pos 90_000;
  status = JournalStatus.posted;
  is_auto_generated = true;
  posted_by = some 7;
  posted_at = some 50;
  reversed_by = none;
  reversed_at = none;
  created_by = 7;
  lines = line 1 (pos 90_000) (pos 0) ∷ line 2 (pos 0) (pos 90_000) ∷ [];
}

post-journals : (post (env 20) 5 7 store).1.ledger.journals ≡ (20, booked) ∷ []
unfolding post process_event total_debit total_credit ◌+ℤ◌
post-journals = refl

abbrev late : Invoice
late = record invoice { status = InvoiceStatus.overdue }

abbrev late_store : InvoiceStore
late_store = record store {
  invoices = (5, late) ∷ [];
  ledger = record ledger { journals = (20, booked) ∷ [] };
}

reason-is_blank : is_blank (codes "bankrupt") ≡ false
unfolding is_blank trim
reason-is_blank = refl

write_off-journals_example :
    let (r, s') = write_off (env 21) 5 7 (codes "bankrupt") late_store in
    (r ≡ ok (written (codes "bankrupt") late)) × (s'.ledger.journals ≡ late_store.ledger.journals)
write_off-journals_example =
    write_off-journals (env 21) 5 7 1 (codes "bankrupt") late_store late period booked
      reason-is_blank refl refl refl refl refl
