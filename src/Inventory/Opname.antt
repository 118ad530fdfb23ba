-- ===== src/Inventory/Opname.antt =====
-- src/modules/inventory/services/stock-opname.service.ts.
pub mod Locked
pub mod Stuck
use inventory_pos.Common.{
  ℕ, ◌+◌, Bool, true, false, not, ◌&&◌, ◌||◌, Option, none, some, List, [], ◌∷◌, ◌++◌, ◌==◌, ltb,
  map, any, keep, length, if◌then◌else◌,
}
use inventory_pos.Common.Effects.{
  ErrorCode, not_found, validation_error, business_rule_violation, Error, business, internal,
  Action, Result, ok, err, pure, gets, or_throw, throw_if, modify, transaction, on_part, ◌>>=◌,
  ◌>>◌,
}
use inventory_pos.Common.Int.{ℤ, pos, negsuc, pos_part, sub_ℕ, ltb_ℤ, eqb_ℤ}
use inventory_pos.Common.Table.{Table, find_unique, update}
use inventory_pos.Common.Text.{Text, codes}
use inventory_pos.Numbering
use inventory_pos.Numbering.{generate}
use inventory_pos.Inventory.{InventoryEntry, InventoryLedger, qty_available}
use inventory_pos.Inventory.Stock.{
  Warehouse, Product, UnitCost, whole, AdjustmentLine, StockAdjustment, OpnameStatus, initiated,
  in_progress, completed, CountStatus, pending, counted, OpnameLine, StockOpname, StockStore,
  StockEnv, set_sequences, next_number, newest, qty_of, unit_cost_of,
}
use inventory_pos.Inventory.Adjust.{AdjustmentRequest, adjust_stock}
use inventory_pos.Inventory.CountLines.{
  products_in, pending_line, initial_lines, CountItem, counted_line, found_line, has_line,
  count_line, count_items, recount_line, is_pending, differs, counted_qty, counting_cost,
  adjusting_line,
}

abbrev pub status_eq : OpnameStatus → OpnameStatus → Bool
status_eq initiated initiated = true
status_eq in_progress in_progress = true
status_eq completed completed = true
status_eq _ _ = false

-- A throw gives back everything but the counters.
abbrev pub keep_numbers : {A : Type 0} → StockStore → Result A × StockStore → Result A × StockStore
keep_numbers s (ok a, s') = (ok a, s')
keep_numbers s (err e, s') = (err e, set_sequences s'.sequences s)

abbrev pub opname_transaction : {A : Type 0} → Action StockStore A → Action StockStore A
opname_transaction m s = keep_numbers s (m s)

abbrev pub set_warehouse : ℕ → (Warehouse → Warehouse) → Action StockStore (Unit {0})
set_warehouse id f = modify λ (s : StockStore). record s { warehouses = update id f s.warehouses }

abbrev pub set_opname : ℕ → (StockOpname → StockOpname) → Action StockStore (Unit {0})
set_opname id f = modify λ (s : StockStore). record s { opnames = update id f s.opnames }

abbrev pub violation : Error
violation = business business_rule_violation

abbrev pub new_opname : StockEnv → ℕ → ℕ → InventoryLedger → Text → StockOpname
new_opname env warehouse user es number = record {
  opname_number = number;
  warehouse_id = warehouse;
  status = initiated;
  initiated_by = user;
  initiated_at = env.now;
  finalized_by = none;
  finalized_at = none;
  lines = initial_lines warehouse es;
}

abbrev pub insert_opname : ℕ → StockOpname → Action StockStore StockOpname
insert_opname id o s = elim (find_unique id s.opnames) [
  | some other ↦ (err internal, s)
  | none ↦ (ok o, record s { opnames = (id, o) ∷ s.opnames })
]

abbrev pub lock_for : StockEnv → ℕ → Warehouse → Warehouse
lock_for env user w = record w {
  is_locked = true;
  lock_reason = some (codes "STOCK_OPNAME");
  locked_at = some env.now;
  locked_by = some user;
}

unfoldable pub initiate : StockEnv → (warehouse user : ℕ) → Action StockStore StockOpname
unfolding qty_available products_in
initiate env warehouse user = opname_transaction do
  row ← gets λ (s : StockStore). find_unique warehouse s.warehouses
  w ← or_throw (business not_found) row
  throw_if w.is_locked violation
  set_warehouse warehouse (lock_for env user)
  number ← next_number env 1 Numbering.DocumentType.sop env.now
  es ← gets λ (s : StockStore). s.ledger
  insert_opname env.new_id (new_opname env warehouse user es number)

abbrev pub existing_opname : ℕ → Action StockStore StockOpname
existing_opname id s = or_throw (business not_found) (find_unique id s.opnames) s

abbrev pub status_counting : OpnameStatus → OpnameStatus
status_counting initiated = in_progress
status_counting in_progress = in_progress
status_counting completed = completed

abbrev pub count_opname : StockOpname → List CountItem → StockOpname → StockOpname
count_opname seen items o = record o {
  status = status_counting o.status;
  lines = count_items seen.lines items o.lines;
}

unfoldable pub record_count : ℕ → List CountItem → Action StockStore (Unit {0})
unfolding count_items
record_count id items = transaction do
  opname ← existing_opname id
  throw_if (status_eq opname.status completed) violation
  set_opname id (count_opname opname items)

-- `updateMany`, whatever the status of the opname.
unfoldable pub request_recount : ℕ → List ℕ → Action StockStore (Unit {0})
request_recount id products =
    set_opname id λ (o : StockOpname). record o { lines = map (recount_line products) o.lines }

-- `product!`: a product that is gone is a TypeError.
unfoldable pub adjusting_lines : ℕ → List OpnameLine → Action StockStore (List AdjustmentLine)
unfolding newest
adjusting_lines warehouse [] = pure []
adjusting_lines warehouse (l ∷ ls) = do
  row ← gets λ (s : StockStore). find_unique l.product_id s.products
  product ← or_throw internal row
  es ← gets λ (s : StockStore). s.ledger
  rest ← adjusting_lines warehouse ls
  pure (adjusting_line warehouse l product es ∷ rest)

abbrev pub counting_request : StockEnv → StockOpname → List AdjustmentLine → AdjustmentRequest
counting_request env o lines = record {
  warehouse_id = o.warehouse_id;
  adjustment_date = env.now;
  reason = codes "Stock Opname " ++ o.opname_number;
  lines = lines;
}

abbrev pub adjust_differences :
    StockEnv → ℕ → StockOpname → List OpnameLine → Action StockStore (Option StockAdjustment)
adjust_differences env user o [] = pure none
adjust_differences env user o (l ∷ ls) = do
  lines ← adjusting_lines o.warehouse_id (l ∷ ls)
  adjustment ← adjust_stock env (counting_request env o lines) user
  pure (some adjustment)

-- The last transaction: the opname is completed, and the warehouse unlocked.
abbrev pub complete :
    StockEnv
    → ℕ
    → ℕ
    → StockOpname
    → Option StockAdjustment
    → Action StockStore (Option StockAdjustment)
complete env id user opname adjustment = do
  set_opname id λ (o : StockOpname). record o {
    status = completed;
    finalized_by = some user;
    finalized_at = some env.now;
  }
  set_warehouse opname.warehouse_id (λ (w : Warehouse). record w {
    is_locked = false;
    lock_reason = none;
    locked_at = none;
    locked_by = none;
  })
  pure adjustment

abbrev pub finalize_opname :
    StockEnv → ℕ → ℕ → StockOpname → Action StockStore (Option StockAdjustment)
finalize_opname env id user opname = do
  throw_if (status_eq opname.status completed) violation
  throw_if (any is_pending opname.lines) (business validation_error)
  adjustment ← adjust_differences env user opname (keep differs opname.lines)
  complete env id user opname adjustment

unfoldable pub finalize : StockEnv → ℕ → ℕ → Action StockStore (Option StockAdjustment)
unfolding adjusting_lines adjust_stock
finalize env id user = do opname ← existing_opname id; finalize_opname env id user opname
