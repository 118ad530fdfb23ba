-- ===== src/Invoicing/Payment/Tests.antt =====
-- The payment service at concrete inputs.
use mathlib.Core.Path.{subst}
use inventory_pos.Common.{ℕ, ◌≡◌, ◌≢◌, refl, true, false, none, some, List, [], ◌∷◌, arith, map}
use inventory_pos.Common.Effects.{ok, err, business, business_rule_violation}
use inventory_pos.Common.Int.{ℤ, pos, ◌+ℤ◌, ◌-ℤ◌, ◌≤ℤ◌}
use inventory_pos.Common.Table.{find_unique}
use inventory_pos.Common.Text.{codes}
use inventory_pos.Numbering.{Outcome}
use inventory_pos.Accounting.Store.{PeriodStatus, JournalLine, JournalStatus, JournalEntry, Ledger}
use inventory_pos.Accounting.Journal.{Env, total_debit, total_credit}
use inventory_pos.Invoicing.Store.{
  PaymentStatus, PaymentType, Payment, InvoiceStatus, InvoiceType, Invoice, PaymentStore,
}
use inventory_pos.Invoicing.Invoice.Accounts.{allocated_to, IsAccounted}
use inventory_pos.Invoicing.Invoice.Calls as InvoiceCalls
use inventory_pos.Invoicing.Payment.{allocate_to_invoices, reverse}
use inventory_pos.Invoicing.Allocations.{Allocation, allocated_by, asked_for, allocate_all}
use inventory_pos.Invoicing.Payment.Allocate.{allocate_to_invoices-limit}
use inventory_pos.Invoicing.Payment.Duties.{IsRight}
use inventory_pos.Invoicing.Payment.Calls
use inventory_pos.Invoicing.Payment.Calls.{Call, run, run-IsRight}
use inventory_pos.Invoicing.Payment.Reverse.{reverse-invoices}
use inventory_pos.Invoicing.Payment.Mirror.{reverse-violation}
use inventory_pos.Accounting.Journal.Posting.{IsBalanced}

abbrev ledger : Ledger
ledger = record {
  periods =
      (
        1,
        record {
          period_name = codes "January";
          year = 2026;
          month = 1;
          start_date = 0;
          end_date = 99;
          status = PeriodStatus.open_;
          closed_by = none;
          closed_at = none;
        },
      )
      ∷ [];
  journals = [];
  templates =
      record {
        event_type = codes "PAYMENT_RECEIPT";
        debit_account_id = 1;
        credit_account_id = 2;
        is_active = true;
      }
      ∷ [];
  sequences = [];
  invoices = [];
  payments = [];
  reconciliations = [];
  opnames = [];
}

abbrev invoice : Invoice
invoice = record {
  invoice_number = codes "INV-202601-00001";
  invoice_type = InvoiceType.sales;
  reference_type = codes "MANUAL";
  reference_id = 9;
  branch_id = 1;
  status = InvoiceStatus.open_;
  total_amount = pos 90_000;
  paid_amount = pos 0;
  outstanding_amount = pos 90_000;
  notes = none;
  posted_by = some 7;
  posted_at = some 50;
  deleted = false;
  lines = [];
}

abbrev payment : Payment
payment = record {
  payment_number = codes "RCV-202601-00001";
  payment_type = PaymentType.receipt;
  payment_date = 60;
  amount = 50_000;
  status = PaymentStatus.draft;
  created_by = 7;
  approved_by = none;
  approved_at = none;
  posted_by = none;
  posted_at = none;
  reversed_by = none;
  reversed_at = none;
  reversal_reason = none;
}

abbrev store : PaymentStore
store = record {
  payments = (3, payment) ∷ [];
  books = record {
    invoices = (5, invoice) ∷ [];
    allocations = [];
    purchase = record { orders = []; receipts = []; sequences = []; audit = [] };
    ledger = ledger;
    audit = [];
  };
}

abbrev env : ℕ → Env
env id = record {
  db = λ n. Outcome.row;
  local_day = λ date. record { year = 2026; month = 0; day = 3 };
  new_id = id;
  now = 70;
}

only_invoice : (id : ℕ) (i : Invoice) → find_unique id store.books.invoices ≡ some i → invoice ≡ i
only_invoice id i e = ground arith

invoice-IsAccounted : (id : ℕ) → IsAccounted [] id invoice
unfolding allocated_to ◌-ℤ◌
invoice-IsAccounted id = record { paid_sum = refl; left = refl; nonneg = omega arith }

store-IsRight : IsRight store
store-IsRight = record {
  payments = (λ released. cc, tt);
  books = record {
    at = λ id i e. subst (IsAccounted [] id) (only_invoice id i e) (invoice-IsAccounted id);
  };
}

abbrev pays : ℕ → Allocation
pays amount = record { invoice_id = 5; amount = pos amount }

abbrev calls : List Call
calls =
    Calls.approve 65 3 7
    ∷ Calls.approve 66 3 8
    ∷ Calls.post (env 20) 3 7
    ∷ Calls.allocate_to_invoices 67 3 (pays 30_000 ∷ pays 20_000 ∷ [])
    ∷ Calls.on_invoices (InvoiceCalls.apply_payment 68 5 4 (pos 10_000) 7)
    ∷ Calls.reverse (env 21) 3 8 (codes "bounced")
    ∷ []

run-IsRight_example : IsRight (run calls store)
run-IsRight_example = run-IsRight calls store store-IsRight

allocated-ok : (allocate_to_invoices 67 3 (pays 30_000 ∷ pays 20_000 ∷ []) store).0 ≡ ok tt
unfolding allocate_to_invoices allocated_by asked_for allocate_all ◌+ℤ◌ ◌-ℤ◌
allocated-ok = refl

allocate_to_invoices-limit_example :
    allocated_by 3
      (allocate_to_invoices 67 3 (pays 30_000 ∷ pays 20_000 ∷ []) store).1.books.allocations
    ≤ℤ pos 50_000
allocate_to_invoices-limit_example =
    allocate_to_invoices-limit 67 3 (pays 30_000 ∷ pays 20_000 ∷ []) store payment refl allocated-ok

abbrev bounced : Payment
bounced = record payment {
  status = PaymentStatus.reversed;
  reversed_by = some 8;
  reversed_at = some 70;
  reversal_reason = some (codes "bounced");
}

bounced-ok : (reverse (env 21) 3 8 (codes "bounced") store).0 ≡ ok bounced
unfolding reverse
bounced-ok = refl

reverse-invoices_example :
    let s' = (reverse (env 21) 3 8 (codes "bounced") store).1 in
    (bounced.status ≡ PaymentStatus.reversed)
    × (s'.books.invoices ≡ store.books.invoices)
    × (s'.books.allocations ≡ store.books.allocations)
reverse-invoices_example = reverse-invoices (env 21) 3 8 (codes "bounced") store bounced bounced-ok

abbrev line : ℕ → ℤ → ℤ → JournalLine
line account debit credit = record {
  account_id = account;
  cost_center_id = none;
  description = none;
  debit = debit;
  credit = credit;
}

abbrev entry : JournalEntry
entry = record {
  je_number = codes "JE-202601-00009";
  entry_date = 60;
  period_id = 1;
  reference_type = codes "PAYMENT";
  reference_id = 3;
  reference_number = payment.payment_number;
  description = codes "Auto journal: PAYMENT_RECEIPT - RCV-202601-00001";
  total_debit = pos 50_001;
  total_credit = pos 50_000;
  status = JournalStatus.posted;
  is_auto_generated = true;
  posted_by = some 7;
  posted_at = some 65;
  reversed_by = none;
  reversed_at = none;
  created_by = 7;
  lines = line 1 (pos 50_001) (pos 0) ∷ line 2 (pos 0) (pos 50_000) ∷ [];
}

abbrev posted_store : PaymentStore
posted_store = record store {
  payments =
      (3, record payment { status = PaymentStatus.posted; posted_by = some 7; posted_at = some 65 })
      ∷ [];
  books = record store.books { ledger = record ledger { journals = (20, entry) ∷ [] } };
}

entry-IsBalanced : IsBalanced entry
unfolding total_debit total_credit ◌+ℤ◌ ◌-ℤ◌
entry-IsBalanced = record { debit = refl; credit = refl; near = omega arith }

reverse-violation_example :
    (reverse (env 21) 3 8 (codes "bounced") posted_store).0 ≢ err (business business_rule_violation)
reverse-violation_example =
    reverse-violation (env 21) 3 8 (codes "bounced") posted_store (entry-IsBalanced, tt)

-- The columns of the entries afterwards: the reversing one, and the one that it reverses.
abbrev columns : JournalEntry → ℤ × ℤ
columns je = (je.total_debit, je.total_credit)

reversed_totals :
    map
      (λ (x : ℕ × JournalEntry). columns x.1)
      (reverse (env 21) 3 8 (codes "bounced") posted_store).1.books.ledger.journals
    ≡ (pos 50_000, pos 50_001) ∷ (pos 50_001, pos 50_000) ∷ []
unfolding reverse total_debit total_credit ◌+ℤ◌ ◌-ℤ◌
reversed_totals = refl
