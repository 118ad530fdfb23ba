-- ===== src/Inventory/StockTests.antt =====
-- Transfers, adjustments and counts at concrete inputs.
use inventory_pos.Common.{◌≡◌, refl, true, false, none, some, List, [], ◌∷◌, any, map, ◌==◌}
use inventory_pos.Common.Effects.{ok}
use inventory_pos.Common.Int.{pos}
use inventory_pos.Common.Text.{codes}
use inventory_pos.Numbering.{Outcome, generate}
use inventory_pos.Inventory.{InventoryEntry, qty_available}
use inventory_pos.Inventory.Stock.{
  Warehouse, StockStore, StockEnv, StockOpname, OpnameLine, pending, OpnameStatus, whole,
}
use inventory_pos.Inventory.Transfer.{TransferRequest, transfer_stock}
use inventory_pos.Inventory.Transfer.Totals
use inventory_pos.Inventory.Transfer.Totals.{transfer_stock-Post}
use inventory_pos.Inventory.Adjust.{AdjustmentRequest, adjust_stock}
use inventory_pos.Inventory.Adjust.Totals as AdjustTotals
use inventory_pos.Inventory.Adjust.Totals.{adjust_stock-Post}
use inventory_pos.Inventory.Refines
use inventory_pos.Inventory.Refines.{StockCall, levels, specified_all, returned, run-levels}
use inventory_pos.Inventory.Opname.{initiate, record_count, finalize}
use inventory_pos.Inventory.CountLines.{CountItem, recount_line, differs, count_items}
use inventory_pos.Inventory.Opname.Locked.{Refused, finalize-Refused}
use inventory_pos.Inventory.Opname.Stuck
use inventory_pos.Inventory.Opname.Stuck.{CountCall, initiate-run-finalize}
use inventory_pos.Common.Table.{find_unique}

abbrev stock : InventoryEntry
stock = record {
  product_id = 5;
  warehouse_id = 1;
  transaction_type = codes "GR";
  reference_type = codes "GR";
  reference_id = 1;
  reference_number = codes "GR-1";
  movement_date = 10;
  qty_in = 50;
  qty_out = 0;
  unit_cost = 100;
  total_cost = 0;
  running_qty = pos 50;
  running_cost = 0;
  batch_number = none;
  serial_number = none;
  notes = none;
  created_by = 7;
}

abbrev open_warehouse : Warehouse
open_warehouse = record {
  is_locked = false;
  lock_reason = none;
  locked_at = none;
  locked_by = none;
}

abbrev store : StockStore
store = record {
  ledger = stock ∷ [];
  warehouses = (1, open_warehouse) ∷ (2, open_warehouse) ∷ [];
  products = (5, record { uom_id = 3; standard_cost = 100 }) ∷ [];
  transfers = [];
  adjustments = [];
  opnames = [];
  sequences = [];
}

-- The first attempt loses its row locks, and its message says so.
abbrev env : StockEnv
env = record {
  db = λ attempt query. Outcome.row;
  local_day = λ date. record { year = 2026; month = 3; day = 1 };
  is_refused = λ attempt. attempt == 1;
  names_lock = λ attempt. true;
  new_id = 9;
  now = 100;
  columns = record { cost = λ n d. 0; unit = λ n d. 0 };
}

abbrev transfer : TransferRequest
transfer = record {
  from_warehouse_id = 1;
  to_warehouse_id = 2;
  transfer_date = 20;
  lines = record { product_id = 5; uom_id = 3; qty = 30; unit_cost = 100 } ∷ [];
  created_by = 7;
}

transfer_stock-Post_example : Totals.Post transfer store (transfer_stock env transfer store)
transfer_stock-Post_example = transfer_stock-Post env transfer store

-- The second attempt moves the stock.
transfer-run :
    (qty_available 5 1 (transfer_stock env transfer store).1.ledger ≡ pos 20)
    × (qty_available 5 2 (transfer_stock env transfer store).1.ledger ≡ pos 30)
unfolding transfer_stock
transfer-run = (refl, refl)

abbrev adjustment : AdjustmentRequest
adjustment = record {
  warehouse_id = 1;
  adjustment_date = 20;
  reason = codes "damaged";
  lines =
      record { product_id = 5; uom_id = 3; qty_system = 50; qty_actual = 42; unit_cost = whole 100 }
      ∷ [];
}

adjust_stock-Post_example : AdjustTotals.Post adjustment store (adjust_stock env adjustment 7 store)
adjust_stock-Post_example = adjust_stock-Post env adjustment 7 store

adjustment-run : qty_available 5 1 (adjust_stock env adjustment 7 store).1.ledger ≡ pos 42
unfolding adjust_stock
adjustment-run = refl

abbrev items : List CountItem
items = record { product_id = 5; qty_counted = 48 } ∷ []

abbrev opname : StockOpname
opname = record {
  opname_number = codes "SOP-202604-00001";
  warehouse_id = 1;
  status = OpnameStatus.initiated;
  initiated_by = 7;
  initiated_at = 100;
  finalized_by = none;
  finalized_at = none;
  lines =
      record {
        product_id = 5;
        qty_system = 50;
        qty_counted = none;
        qty_difference = none;
        status = pending;
        recount_reason = none;
      }
      ∷ [];
}

abbrev begun : StockStore
begun = record store {
  warehouses =
      (
        1,
        record {
          is_locked = true;
          lock_reason = some (codes "STOCK_OPNAME");
          locked_at = some 100;
          locked_by = some 7;
        },
      )
      ∷ (2, open_warehouse)
      ∷ [];
  opnames = (9, opname) ∷ [];
  sequences = record { prefix = codes "SOP"; period = codes "202604"; last_value = 1 } ∷ [];
}

begun-ok : initiate env 1 7 store ≡ (ok opname, begun)
unfolding initiate generate
begun-ok = refl

abbrev counted_store : StockStore
counted_store = record begun {
  opnames =
      (
        9,
        record opname {
          status = OpnameStatus.in_progress;
          lines = count_items opname.lines items opname.lines;
        },
      )
      ∷ [];
}

counted-ok : record_count 9 items begun ≡ (ok tt, counted_store)
unfolding record_count
counted-ok = refl

one_differs : any differs (count_items opname.lines items opname.lines) ≡ true
unfolding count_items
one_differs = refl

finalize-Refused_example : Refused counted_store (finalize env 9 8 counted_store)
finalize-Refused_example =
    finalize-Refused env 9 8 counted_store
      (record opname {
        status = OpnameStatus.in_progress;
        lines = count_items opname.lines items opname.lines;
      })
      refl refl one_differs

abbrev counts : List CountCall
counts =
    CountCall.record_count 9 items
    ∷ CountCall.request_recount 9 (5 ∷ [])
    ∷ CountCall.record_count 4 items
    ∷ CountCall.record_count 9 items
    ∷ []

abbrev again : List OpnameLine
again = map (recount_line (5 ∷ [])) (count_items opname.lines items opname.lines)

-- The count after a recount; the call for an opname that is not there throws.
abbrev recounted : StockOpname
recounted = record opname {
  status = OpnameStatus.in_progress;
  lines = count_items again items again;
}

still_differs : any differs recounted.lines ≡ true
unfolding count_items
still_differs = refl

counts-run : find_unique 9 (Stuck.run counts begun).opnames ≡ some recounted
unfolding Stuck.run count_items
counts-run = refl

initiate-run-finalize_example :
    Refused (Stuck.run counts begun) (finalize env 9 8 (Stuck.run counts begun))
initiate-run-finalize_example =
    initiate-run-finalize env env 1 7 8 counts store begun opname recounted begun-ok counts-run
      still_differs

abbrev calls : List (StockEnv × StockCall)
calls = (env, StockCall.transfer transfer) ∷ (env, StockCall.adjust adjustment 7) ∷ []

-- The adjustment finds 20 left, and takes 8.
run-levels_example :
    levels (Refines.run calls store).ledger
    ≡ specified_all (returned calls store) (levels store.ledger)
run-levels_example = run-levels calls store

calls-run : levels (Refines.run calls store).ledger 5 1 ≡ pos 12
unfolding Refines.run qty_available adjust_stock transfer_stock
calls-run = refl
