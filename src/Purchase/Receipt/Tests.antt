-- ===== src/Purchase/Receipt/Tests.antt =====
-- The receipt service at concrete inputs.
use inventory_pos.Common.{ℕ, ◌+◌, ◌*◌, ◌≤◌, ◌≡◌, refl, true, false, none, some, [], ◌∷◌, arith}
use inventory_pos.Common.Effects.{err, missing, Result, Returned}
use inventory_pos.Common.Int.{◌+ℤ◌}
use inventory_pos.Common.Text.{codes}
use inventory_pos.Numbering.{Outcome, Day}
use inventory_pos.Master.{Party, MasterData}
use inventory_pos.Master.Counts.{IsKeyed}
use inventory_pos.Purchase.Store.{
  PoStatus, LineStatus, PoLine, PurchaseOrder, ReceiptLine, GoodsReceipt,
}
use inventory_pos.Purchase.Order.Receive.{Env, ReceiptRequest, receive_goods}
use inventory_pos.Purchase.Order.Receive.Quantities.{received_on, ordered_on, brought_for}
use inventory_pos.Accounting.Store.{PeriodStatus, Ledger}
use inventory_pos.Accounting.Journal.{total_debit, total_credit}
use inventory_pos.Purchase.Receipt.{ReceiptStore, in_purchase, create, cancel}
use inventory_pos.Purchase.Receipt.Confirm.{ConfirmEnv, order_rows, confirm}
use inventory_pos.Purchase.Receipt.Confirm.Totals
use inventory_pos.Purchase.Receipt.Confirm.Totals.{confirm-Post}
use inventory_pos.Purchase.Receipt.Created
use inventory_pos.Purchase.Receipt.Created.{create-Post}
use inventory_pos.Purchase.Receipt.Bounds.{create-confirm-IsBounded}
use inventory_pos.Purchase.Receipt.Twice.{receive_goods-confirm}

abbrev po_line : ℕ → ℕ → ℕ → PoLine
po_line id product unit = record {
  id = id;
  product_id = product;
  uom_id = unit;
  qty_ordered = 100;
  qty_received = 0;
  line_status = LineStatus.open_line;
}

abbrev order : PurchaseOrder
order = record {
  po_number = codes "PO-202603-00001";
  supplier_id = 3;
  branch_id = 1;
  warehouse_id = 2;
  status = PoStatus.approved;
  total_amount = 1000;
  approval_level = 1;
  approved_by = some 8;
  approved_at = some 5;
  notes = none;
  created_by = 7;
  deleted = false;
  lines = po_line 11 5 1 ∷ po_line 12 6 2 ∷ [];
}

abbrev brings : ℕ → ℕ → ℕ → ℕ → ReceiptLine
brings id product unit qty = record {
  po_line_id = id;
  product_id = product;
  qty_received = qty;
  uom_id = unit;
  unit_cost = 300;
  batch_number = none;
  serial_number = none;
  notes = none;
}

abbrev request : ReceiptRequest
request = record {
  receipt_date = 120;
  notes = none;
  lines = brings 11 5 1 60 ∷ brings 12 6 2 100 ∷ [];
}

abbrev party : Party
party = record { deleted = false; is_active = true; home = 1 }

abbrev master : MasterData
master = record {
  suppliers = [];
  branches = [];
  warehouses = [];
  products = (5, party) ∷ (6, party) ∷ [];
  units = (1, party) ∷ (2, party) ∷ [];
}

abbrev ledger : Ledger
ledger = record {
  periods =
      (
        1,
        record {
          period_name = codes "P";
          year = 2026;
          month = 3;
          start_date = 100;
          end_date = 199;
          status = PeriodStatus.open_;
          closed_by = none;
          closed_at = none;
        },
      )
      ∷ [];
  journals = [];
  templates =
      record {
        event_type = codes "GOODS_RECEIPT";
        debit_account_id = 1;
        credit_account_id = 2;
        is_active = true;
      }
      ∷ [];
  sequences = [];
  invoices = [];
  payments = [];
  reconciliations = [];
  opnames = [];
}

abbrev store : ReceiptStore
store = record {
  purchase = record { orders = (1, order) ∷ []; receipts = []; sequences = []; audit = [] };
  warehouses = [];
  inventory = [];
  ledger = ledger;
}

abbrev day : Day
day = record { year = 2026; month = 3; day = 3 }

abbrev env : ℕ → Env
env id = record { db = λ n. Outcome.row; today = day; new_id = id }

abbrev books_env : ℕ → ConfirmEnv
books_env id = record {
  columns = record { cost = λ n d. n; unit = λ n d. n };
  journal = record { db = λ n. Outcome.row; local_day = λ n. day; new_id = id; now = 150 };
}

abbrev drafted : Result GoodsReceipt × ReceiptStore
drafted = create master (env 21) 1 request 7 store

-- Two drafts that each take all that is left: both are confirmed, and the line has received double.
abbrev confirmed_both : ReceiptStore
confirmed_both =
    (confirm (books_env 32) 22 7
      (confirm (books_env 31) 21 7 (create master (env 22) 1 request 7 drafted.1).1).1).1

over_received : received_on 12 (order_rows 1 confirmed_both.purchase) ≡ 200
unfolding create confirm total_debit ◌+ℤ◌ total_credit
over_received = refl

-- A draft that is cancelled cannot be confirmed.
cancelled_is_gone :
    (confirm (books_env 31) 21 7 (in_purchase (cancel 21 7 (codes "wrong")) drafted.1).1).0
    ≡ err missing
unfolding create cancel confirm
cancelled_is_gone = refl

abbrev products_keyed : IsKeyed master.products
products_keyed = ((omega arith, tt), (tt, tt))

abbrev units_keyed : IsKeyed master.units
units_keyed = ((omega arith, tt), (tt, tt))

create-Post_example :
    Created.Post master products_keyed units_keyed (env 21) 1 7 request store drafted
create-Post_example = create-Post master products_keyed units_keyed (env 21) 1 7 request store

drafted-ok : Returned drafted
unfolding create
drafted-ok = (_, refl)

abbrev confirmed : Result GoodsReceipt × ReceiptStore
confirmed = confirm (books_env 31) 21 7 drafted.1

confirm-Post_example : Totals.Post (books_env 31) 21 7 drafted.1 confirmed
confirm-Post_example = confirm-Post (books_env 31) 21 7 drafted.1

confirmed-ok : Returned confirmed
unfolding create confirm total_debit ◌+ℤ◌ total_credit
confirmed-ok = (_, refl)

create-confirm-IsBounded_example :
    received_on 12 (order_rows 1 confirmed.1.purchase) ≤ ordered_on 12 (order_rows 1 store.purchase)
create-confirm-IsBounded_example =
    create-confirm-IsBounded master products_keyed units_keyed (env 21) 1 7 request (books_env 31) 7
      12 store drafted-ok.0 confirmed-ok.0 (omega arith) drafted-ok.1 confirmed-ok.1

abbrev received : Result GoodsReceipt × ReceiptStore
received = in_purchase (receive_goods (env 21) 1 request 7) store

received-ok : Returned received
unfolding receive_goods
received-ok = (_, refl)

abbrev received_twice : Result GoodsReceipt × ReceiptStore
received_twice = confirm (books_env 31) 21 7 received.1

received_twice-ok : Returned received_twice
unfolding receive_goods confirm total_debit ◌+ℤ◌ total_credit
received_twice-ok = (_, refl)

receive_goods-confirm_example :
    received_on 12 (order_rows 1 received_twice.1.purchase)
    ≡ received_on 12 (order_rows 1 store.purchase) + 2 * brought_for 12 request.lines
receive_goods-confirm_example =
    receive_goods-confirm (env 21) 1 7 request (books_env 31) 7 12 store received-ok.0
      received_twice-ok.0 ((omega arith, tt), (tt, tt)) received-ok.1 received_twice-ok.1
