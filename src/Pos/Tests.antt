-- ===== src/Pos/Tests.antt =====
-- The point of sale at concrete inputs.
use inventory_pos.Common.Table.{find_unique}
use inventory_pos.Common.{Option, ◌==◌, ℕ, ◌+◌, ◌≡◌, refl, true, false, none, some, List, [], ◌∷◌}
use inventory_pos.Common.Int.{pos, ◌+ℤ◌}
use inventory_pos.Common.Effects.{Result, Returned}
use inventory_pos.Common.Text.{codes}
use inventory_pos.Numbering.{Outcome, Day}
use inventory_pos.Inventory.{InventoryEntry}
use inventory_pos.Accounting.Store.{PeriodStatus, Ledger}
use inventory_pos.Accounting.Journal
use inventory_pos.Accounting.Journal.{total_debit, total_credit}
use inventory_pos.Pos.Store.{Method, PosTransaction, PosStore}
use inventory_pos.Pos.{PosEnv, open_shift, create_transaction}
use inventory_pos.Pos.Item.{LineItem, add_item}
use inventory_pos.Pos.Payment.{Tender, total_cogs, apply_payment}
use inventory_pos.Pos.Settled.{AllSettled}
use inventory_pos.Pos.Calls.{Call, run, run-AllSettled}
use inventory_pos.Pos.Closing.{ShiftReport, close_shift}
use inventory_pos.Pos.Report.{AddsUp, edc_sales, close_shift-AddsUp}
use inventory_pos.Pos.Uncosted.{run-total_cogs}

abbrev day : Day
day = record { year = 2026; month = 3; day = 3 }

abbrev journal_env : ℕ → Journal.Env
journal_env id = record { db = λ n. Outcome.row; local_day = λ n. day; new_id = id; now = 150 }

abbrev env : ℕ → PosEnv
env id = record {
  stock = record {
    db = λ a n. Outcome.row;
    local_day = λ n. day;
    is_refused = λ a. a == 1;
    names_lock = λ a. true;
    new_id = id;
    now = 150;
    columns = record { cost = λ n d. n; unit = λ n d. n };
  };
  sale = journal_env (100 + id);
  cogs = journal_env (200 + id);
}

abbrev stock : InventoryEntry
stock = record {
  product_id = 5;
  warehouse_id = 2;
  transaction_type = codes "GR";
  reference_type = codes "GR";
  reference_id = 1;
  reference_number = codes "GR-1";
  movement_date = 10;
  qty_in = 50_000;
  qty_out = 0;
  unit_cost = 1000;
  total_cost = 500;
  running_qty = pos 50_000;
  running_cost = 500;
  batch_number = none;
  serial_number = none;
  notes = none;
  created_by = 7;
}

abbrev ledger : Ledger
ledger = record {
  periods =
      (
        1,
        record {
          period_name = codes "P";
          year = 2026;
          month = 3;
          start_date = 100;
          end_date = 199;
          status = PeriodStatus.open_;
          closed_by = none;
          closed_at = none;
        },
      )
      ∷ [];
  journals = [];
  templates =
      record {
        event_type = codes "POS_SALE";
        debit_account_id = 1;
        credit_account_id = 2;
        is_active = true;
      }
      ∷ [];
  sequences = [];
  invoices = [];
  payments = [];
  reconciliations = [];
  opnames = [];
}

abbrev store : PosStore
store = record {
  shifts = [];
  sales = [];
  customers = [];
  user_branches = [];
  branches = [];
  warehouses = [];
  methods = Method.cash ∷ [];
  accounts = record { cash = some 1; revenue = some 2; tax = some 3 };
  inventory = stock ∷ [];
  ledger = ledger;
  sequences = [];
  audit = [];
}

-- Two pieces at 1.00, less 10 %, and 11 % tax on top.
abbrev item : LineItem
item = record {
  product_id = 5;
  qty = 20_000;
  uom_id = 1;
  unit_price = 10_000;
  discount_pct = 1_000;
  tax_pct = 1_100;
  price_override = false;
  price_override_by = none;
  version = 1;
}

abbrev tender : Tender
tender = record { method = Method.cash; amount = 250; reference = none; version = 2 }

abbrev calls : List Call
calls =
    Call.shift_opened (env 3)
      (record { cashier_id = 7; branch_id = some 1; warehouse_id = some 2; opening_balance = 1000 })
    ∷ Call.sale_created (env 4) 3 none
    ∷ Call.item_added (env 5) 4 item
    ∷ Call.sale_paid (env 6) 4 (tender ∷ [])
    ∷ []

run-AllSettled_example : AllSettled (run calls store)
run-AllSettled_example = run-AllSettled calls store tt

abbrev amounts : Option PosTransaction → List ℕ
amounts none = []
amounts (some t) = t.subtotal ∷ t.tax_amount ∷ t.total_amount ∷ t.paid_amount ∷ t.change_amount ∷ []

-- The first attempt to add the item is refused a lock; the second succeeds.
calls-run : amounts (find_unique 4 (run calls store).sales) ≡ 180 ∷ 20 ∷ 200 ∷ 250 ∷ 50 ∷ []
unfolding run add_item apply_payment create_transaction open_shift total_debit total_credit ◌+ℤ◌
calls-run = refl

run-total_cogs_example : total_cogs 4 (run calls store).inventory ≡ 0
unfolding total_cogs
run-total_cogs_example = run-total_cogs 4 calls store refl

abbrev closing : Result ShiftReport × PosStore
closing = close_shift 160 3 (pos 1190) none (run calls store)

closing-ok : Returned closing
unfolding run add_item apply_payment create_transaction open_shift total_debit total_credit ◌+ℤ◌
    close_shift
closing-ok = (_, refl)

close_shift-AddsUp_example : AddsUp (edc_sales 3 (run calls store)) closing-ok.0
close_shift-AddsUp_example =
    close_shift-AddsUp 160 3 (pos 1190) none (run calls store) closing-ok.0
      (run-AllSettled calls store tt) closing-ok.1
