-- ===== src/Inventory/Adjust.antt =====
-- `adjustStock` and `lockWarehouse` of src/modules/inventory/services/inventory.service.ts.
pub mod Totals
use inventory_pos.Common.{
  ℕ, ◌+◌, ◌-◌, ◌*◌, Bool, true, false, not, ◌&&◌, Option, none, some, List, [], ◌∷◌, ◌==◌, ltb, map,
  length, if◌then◌else◌,
}
use inventory_pos.Common.Effects.{
  ErrorCode, validation_error, business_rule_violation, insufficient_stock, Error, business,
  internal, Action, Result, ok, err, pure, gets, throw_if, modify, transaction, on_part, ◌>>=◌,
  ◌>>◌,
}
use inventory_pos.Common.Int.{ℤ, pos, ◌+ℤ◌, ltb_ℤ, sub_ℕ}
use inventory_pos.Common.Table.{Table, find_unique, update}
use inventory_pos.Common.Text.{Text, codes}
use inventory_pos.Numbering
use inventory_pos.Numbering.{generate}
use inventory_pos.Inventory.{InventoryEntry, InventoryLedger, Columns, qty_available}
use inventory_pos.Inventory.Stock.{
  Warehouse, UnitCost, AdjustmentLine, AdjustmentRow, StockAdjustment, StockStore, StockEnv,
  set_ledger, next_number, is_locked, lock_refused, newest, cost_of, unit_cost_of, cost_less,
  cost_more, with_retries, retry_from,
}

-- StockAdjustmentDTO
pub record AdjustmentRequest : Type 0 where
  pub warehouse_id : ℕ
  pub adjustment_date : ℕ
  pub reason : Text
  pub lines : List AdjustmentLine

abbrev pub row_of : Columns → AdjustmentLine → AdjustmentRow
row_of columns l = record {
  product_id = l.product_id;
  uom_id = l.uom_id;
  qty_system = l.qty_system;
  qty_actual = l.qty_actual;
  qty_difference = sub_ℕ l.qty_actual l.qty_system;
  unit_cost = columns.unit l.unit_cost.amount l.unit_cost.per;
}

abbrev pub adjustment_of : Columns → AdjustmentRequest → ℕ → Text → StockAdjustment
adjustment_of columns request user number = record {
  adjustment_number = number;
  warehouse_id = request.warehouse_id;
  adjustment_date = request.adjustment_date;
  reason = request.reason;
  created_by = user;
  lines = map (row_of columns) request.lines;
}

-- The two sides of `qty_actual - qty_system`, one of which is 0.
abbrev pub gain : AdjustmentLine → ℕ
gain l = l.qty_actual - l.qty_system

abbrev pub loss : AdjustmentLine → ℕ
loss l = l.qty_system - l.qty_actual

-- A gain comes in at the cost of the line, a loss goes out at the cost of the stock.
abbrev pub adjusting_cost : AdjustmentLine → Option InventoryEntry → UnitCost
adjusting_cost l last = if ltb 0 (gain l) then l.unit_cost else unit_cost_of last

abbrev pub cost_after : Columns → AdjustmentLine → Option InventoryEntry → ℕ
cost_after columns l last =
    if ltb 0 (gain l)
    then cost_more columns (cost_of last) (gain l) l.unit_cost
    else cost_less columns (cost_of last) (loss l) (unit_cost_of last)

abbrev pub adjustment_entry :
    Columns → ℕ → StockAdjustment → AdjustmentLine → InventoryLedger → InventoryEntry
adjustment_entry columns id a l es =
    let last = newest l.product_id a.warehouse_id es in
    let u = adjusting_cost l last in
    record {
      product_id = l.product_id;
      warehouse_id = a.warehouse_id;
      transaction_type = codes "ADJUSTMENT";
      reference_type = codes "SA";
      reference_id = id;
      reference_number = a.adjustment_number;
      movement_date = a.adjustment_date;
      qty_in = gain l;
      qty_out = loss l;
      unit_cost = columns.unit u.amount u.per;
      total_cost = columns.cost ((gain l + loss l) * u.amount) u.per;
      running_qty = qty_available l.product_id a.warehouse_id es +ℤ sub_ℕ l.qty_actual l.qty_system;
      running_cost = cost_after columns l last;
      batch_number = none;
      serial_number = none;
      notes = none;
      created_by = a.created_by;
    }

-- A loss of more than there is.
abbrev pub is_too_much : ℕ → AdjustmentLine → InventoryLedger → Bool
is_too_much warehouse l es =
    not (ltb 0 (gain l)) && ltb_ℤ (qty_available l.product_id warehouse es) (pos (loss l))

-- One round of the loop; a line without a difference is passed over.
unfoldable pub adjust_line :
    Columns → ℕ → StockAdjustment → AdjustmentLine → Action InventoryLedger (Unit {0})
unfolding qty_available newest ◌+ℤ◌
adjust_line columns id a l es =
    let write : Action InventoryLedger (Unit {0}) = (do
      throw_if (is_too_much a.warehouse_id l es) (business insufficient_stock)
      modify λ (old : InventoryLedger). adjustment_entry columns id a l old ∷ old) in
    if l.qty_actual == l.qty_system then (ok tt, es) else write es

unfoldable pub adjust_lines :
    Columns → ℕ → StockAdjustment → List AdjustmentLine → Action InventoryLedger (Unit {0})
adjust_lines columns id a [] = pure tt
adjust_lines columns id a (l ∷ ls) = do adjust_line columns id a l; adjust_lines columns id a ls

abbrev pub insert_adjustment : ℕ → StockAdjustment → Action StockStore (Unit {0})
insert_adjustment id a s = elim (find_unique id s.adjustments) [
  | some other ↦ (err internal, s)
  | none ↦ (ok tt, record s { adjustments = (id, a) ∷ s.adjustments })
]

abbrev pub write_adjustment :
    StockEnv → AdjustmentRequest → ℕ → ℕ → Text → Action StockStore StockAdjustment
write_adjustment env request user attempt number = transaction do
  warehouse ← gets λ (s : StockStore). find_unique request.warehouse_id s.warehouses
  throw_if (is_locked warehouse) (business business_rule_violation)
  throw_if (lock_refused env attempt request.lines) internal
  insert_adjustment env.new_id (adjustment_of env.columns request user number)
  on_part (λ (s : StockStore). s.ledger) set_ledger
      (adjust_lines env.columns env.new_id (adjustment_of env.columns request user number)
        request.lines)
  pure (adjustment_of env.columns request user number)

abbrev pub adjustment_attempt :
    StockEnv → AdjustmentRequest → ℕ → ℕ → Action StockStore StockAdjustment
adjustment_attempt env request user attempt = do
  number ← next_number env attempt Numbering.DocumentType.sa request.adjustment_date
  write_adjustment env request user attempt number

-- `!data.reason`
abbrev pub is_empty : Text → Bool
is_empty [] = true
is_empty (c ∷ s) = false

unfoldable pub adjust_stock : StockEnv → AdjustmentRequest → ℕ → Action StockStore StockAdjustment
unfolding generate adjust_line adjust_lines retry_from
adjust_stock env request user = do
  throw_if (is_empty request.reason) (business validation_error)
  with_retries env (adjustment_attempt env request user)

-- The warehouse must be there; who locks it is not recorded.
unfoldable pub lock_warehouse : StockEnv → ℕ → Text → Action StockStore (Unit {0})
lock_warehouse env id reason s = elim (find_unique id s.warehouses) [
  | none ↦ (err internal, s)
  | some w ↦ (
    ok tt,
    record s {
      warehouses =
          update id
            (λ (w : Warehouse). record w {
              is_locked = true;
              lock_reason = some reason;
              locked_at = some env.now;
            })
            s.warehouses;
    },
  )
]
