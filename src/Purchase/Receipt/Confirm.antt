-- ===== src/Purchase/Receipt/Confirm.antt =====
-- `confirm` of src/modules/purchase/services/goods-receipt.service.ts: the order's quantities and status,
-- the stock, the journal entry and the receipt, in one transaction.
pub mod Lines
pub mod Totals
use inventory_pos.Common.{
  ℕ, ◌+◌, ◌*◌, Bool, true, false, not, ◌&&◌, ◌||◌, Option, none, some, List, [], ◌∷◌, ltb, leb,
  every, any, sum_of, if◌then◌else◌,
}
use inventory_pos.Common.Effects.{
  ErrorCode, not_found, Error, business, missing, internal, Action, Result, ok, err, pure, gets,
  or_throw, throw_if, modify, on_part, ◌>>=◌, ◌>>◌,
}
use inventory_pos.Common.Int.{ℤ, pos, pos_part, ◌+ℤ◌}
use inventory_pos.Common.Table.{Table, find_unique, update}
use inventory_pos.Common.Text.{codes}
use inventory_pos.Purchase.Store.{
  PoStatus, fully_received, partially_received, PoLine, PurchaseOrder, ReceiptStatus, ReceiptLine,
  GoodsReceipt, AuditAction, PurchaseStore, log,
}
use inventory_pos.Purchase.Order.{violation}
use inventory_pos.Purchase.Order.Receive.{find_line, set_received}
use inventory_pos.Inventory.{
  InventoryEntry, InventoryLedger, Columns, latest, running_qty_of, running_cost_of,
}
use inventory_pos.Inventory.Stock.{is_locked}
use inventory_pos.Accounting.Store.{FiscalPeriod, JournalEntry, Ledger}
use inventory_pos.Accounting.Period.{get_period_for_date, validate_period_open}
use inventory_pos.Accounting.Journal
use inventory_pos.Accounting.Journal.{BusinessEvent, process_event}
use inventory_pos.Purchase.Receipt.{
  ReceiptStore, set_purchase, set_ledger, in_purchase, existing_receipt, is_draft, change_receipt,
}

-- The machine's clock and the new ids are those of the journal engine's environment.
pub record ConfirmEnv : Type 0 where
  pub columns : Columns
  pub journal : Journal.Env

-- Step 1, row by row as it stands; none when a row is missing.
unfoldable pub add_lines : List ReceiptLine → List PoLine → Option (List PoLine)
add_lines [] rows = some rows
add_lines (l ∷ ls) rows = elim (find_line l.po_line_id rows) [
  | none ↦ none
  | some row ↦ add_lines ls (set_received l.po_line_id (row.qty_received + l.qty_received) rows)
]

abbrev pub is_complete : PoLine → Bool
is_complete row = leb row.qty_ordered row.qty_received

abbrev pub is_begun : PoLine → Bool
is_begun row = ltb 0 row.qty_received

-- Step 2: the status that the lines' quantities call for.
unfoldable pub status_after : List PoLine → PoStatus → PoStatus
status_after rows status =
    if every is_complete rows
    then fully_received
    else if any (λ (row : PoLine). is_begun row && not (is_complete row)) rows || any is_begun rows
    then partially_received
    else status

-- The value that a line brings, in hundred-millionths.
abbrev pub value_of : ReceiptLine → ℕ
value_of l = l.qty_received * l.unit_cost

-- Step 3. The unit cost is the new average, over the new quantity when there is one.
abbrev pub average : Columns → ℕ → ℕ → ℕ
average columns value qty = if ltb 0 qty then columns.unit value qty else columns.unit 0 1

abbrev pub receipt_entry :
    Columns → ℕ → GoodsReceipt → ℕ → ReceiptLine → Option InventoryEntry → InventoryEntry
receipt_entry columns id gr user l last =
    let qty = running_qty_of last +ℤ pos l.qty_received in
    let value = running_cost_of last * 1_000_000 + value_of l in
    record {
      product_id = l.product_id;
      warehouse_id = gr.warehouse_id;
      transaction_type = codes "GR";
      reference_type = codes "GR";
      reference_id = id;
      reference_number = gr.gr_number;
      movement_date = gr.receipt_date;
      qty_in = l.qty_received;
      qty_out = 0;
      unit_cost = average columns value (pos_part qty);
      total_cost = columns.cost (value_of l) 1;
      running_qty = qty;
      running_cost = columns.cost value 1;
      batch_number = l.batch_number;
      serial_number = l.serial_number;
      notes = l.notes;
      created_by = user;
    }

unfoldable pub stock_lines :
    Columns → ℕ → GoodsReceipt → ℕ → List ReceiptLine → InventoryLedger → InventoryLedger
unfolding latest
stock_lines columns id gr user [] es = es
stock_lines columns id gr user (l ∷ ls) es =
    stock_lines columns id gr user ls
      (receipt_entry columns id gr user l (latest l.product_id gr.warehouse_id es) ∷ es)

-- Step 4.
abbrev pub receipt_event : Columns → ℕ → GoodsReceipt → ℕ → ℕ → BusinessEvent
receipt_event columns id gr period user = record {
  event_type = codes "GOODS_RECEIPT";
  reference_type = codes "GR";
  reference_id = id;
  reference_number = gr.gr_number;
  entry_date = gr.receipt_date;
  period_id = period;
  amount = pos (columns.cost (sum_of value_of gr.lines) 1);
  lines = [];
  created_by = user;
}

abbrev pub confirmed_row : ℕ → ℕ → GoodsReceipt → GoodsReceipt
confirmed_row user now gr = record gr {
  status = ReceiptStatus.confirmed;
  confirmed_by = some user;
  confirmed_at = some now;
}

-- `findMany({ where: { po_id } })` on the lines.
abbrev pub rows_of : Option PurchaseOrder → List PoLine
rows_of none = []
rows_of (some po) = po.lines

abbrev pub order_rows : ℕ → PurchaseStore → List PoLine
order_rows id s = rows_of (find_unique id s.orders)

-- The updates of the rows and of the status.
abbrev pub received_order : List PoLine → PoStatus → PurchaseOrder → PurchaseOrder
received_order rows status po = record po { lines = rows; status = status_after rows status }

abbrev pub change_order : ℕ → (PurchaseOrder → PurchaseOrder) → PurchaseStore → PurchaseStore
change_order id f s = record s { orders = update id f s.orders }

-- The entry's number is taken outside of the transaction, so a throw gives back everything but the
-- counters.
abbrev pub keep_numbers :
    {A : Type 0} → ReceiptStore → Result A × ReceiptStore → Result A × ReceiptStore
keep_numbers s (ok a, s') = (ok a, s')
keep_numbers s (err e, s') =
    (err e, set_ledger (record s.ledger { sequences = s'.ledger.sequences }) s)

abbrev pub receipt_transaction : {A : Type 0} → Action ReceiptStore A → Action ReceiptStore A
receipt_transaction m s = keep_numbers s (m s)

abbrev pub in_ledger : {A : Type 0} → Action Ledger A → Action ReceiptStore A
in_ledger = on_part (λ (s : ReceiptStore). s.ledger) set_ledger

abbrev pub add_stock : ConfirmEnv → ℕ → GoodsReceipt → ℕ → ReceiptStore → ReceiptStore
add_stock env id gr user s = record s {
  inventory = stock_lines env.columns id gr user gr.lines s.inventory;
}

-- Steps 5 and 6.
abbrev pub mark_confirmed : ConfirmEnv → ℕ → GoodsReceipt → ℕ → Action ReceiptStore GoodsReceipt
mark_confirmed env id gr user = do
  in_purchase (modify (change_receipt id (confirmed_row user env.journal.now)))
  in_purchase (modify (log user AuditAction.approve id))
  pure (confirmed_row user env.journal.now gr)

abbrev pub write_confirmation :
    ConfirmEnv → ℕ → GoodsReceipt → PoStatus → ℕ → ℕ → Action ReceiptStore GoodsReceipt
write_confirmation env id gr status period user = receipt_transaction do
  added ← gets λ (s : ReceiptStore). add_lines gr.lines (order_rows gr.po_id s.purchase)
  rows ← or_throw (business not_found) added
  in_purchase (modify (change_order gr.po_id (received_order rows status)))
  modify (add_stock env id gr user)
  in_ledger (process_event env.journal (receipt_event env.columns id gr period user))
  mark_confirmed env id gr user

unfoldable pub confirm : ConfirmEnv → ℕ → ℕ → Action ReceiptStore GoodsReceipt
unfolding get_period_for_date validate_period_open add_lines status_after stock_lines process_event
confirm env id user = do
  gr ← in_purchase (existing_receipt id)
  order ← gets λ (s : ReceiptStore). find_unique gr.po_id s.purchase.orders
  po ← or_throw internal order
  throw_if (not (is_draft gr.status)) violation
  warehouse ← gets λ (s : ReceiptStore). find_unique gr.warehouse_id s.warehouses
  throw_if (is_locked warehouse) violation
  period ← in_ledger (get_period_for_date gr.receipt_date)
  in_ledger (validate_period_open period.0)
  write_confirmation env id gr po.status period.0 user
