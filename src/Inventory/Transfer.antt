-- ===== src/Inventory/Transfer.antt =====
-- `transferStock` of src/modules/inventory/services/inventory.service.ts.
pub mod Totals
use inventory_pos.Common.{
  ℕ, ◌+◌, ◌*◌, Bool, true, false, not, Option, none, some, List, [], ◌∷◌, ◌==◌, if◌then◌else◌,
}
use inventory_pos.Common.Effects.{
  ErrorCode, validation_error, business_rule_violation, insufficient_stock, Error, business,
  internal, Action, Result, ok, err, pure, gets, throw_if, modify, transaction, on_part, ◌>>=◌,
  ◌>>◌,
}
use inventory_pos.Common.Int.{ℤ, pos, ◌+ℤ◌, ◌-ℤ◌, ltb_ℤ, eqb_ℤ}
use inventory_pos.Common.Table.{Table, find_unique}
use inventory_pos.Common.Text.{Text, codes}
use inventory_pos.Numbering
use inventory_pos.Numbering.{generate}
use inventory_pos.Inventory.{InventoryEntry, InventoryLedger, Columns, qty_available}
use inventory_pos.Inventory.Stock.{
  UnitCost, TransferLine, StockTransfer, StockStore, StockEnv, set_ledger, next_number, is_locked,
  lock_refused, newest, cost_of, unit_cost_of, cost_less, cost_more, with_retries, retry_from,
}

-- StockTransferDTO
pub record TransferRequest : Type 0 where
  pub from_warehouse_id : ℕ
  pub to_warehouse_id : ℕ
  pub transfer_date : ℕ
  pub lines : List TransferLine
  pub created_by : ℕ

abbrev pub transfer_of : TransferRequest → Text → StockTransfer
transfer_of request number = record {
  transfer_number = number;
  from_warehouse_id = request.from_warehouse_id;
  to_warehouse_id = request.to_warehouse_id;
  transfer_date = request.transfer_date;
  created_by = request.created_by;
  lines = request.lines;
}

-- One of the two entries of a line.
abbrev pub transfer_entry :
    Columns
    → ℕ
    → StockTransfer
    → TransferLine
    → UnitCost
    → ℕ
    → Text
    → (qty_in qty_out : ℕ) → ℤ
    → ℕ
    → InventoryEntry
transfer_entry columns id t line u warehouse type qty_in qty_out running_qty running_cost = record {
  product_id = line.product_id;
  warehouse_id = warehouse;
  transaction_type = type;
  reference_type = codes "TO";
  reference_id = id;
  reference_number = t.transfer_number;
  movement_date = t.transfer_date;
  qty_in = qty_in;
  qty_out = qty_out;
  unit_cost = columns.unit u.amount u.per;
  total_cost = columns.cost (line.qty * u.amount) u.per;
  running_qty = running_qty;
  running_cost = running_cost;
  batch_number = none;
  serial_number = none;
  notes = none;
  created_by = t.created_by;
}

abbrev pub out_entry : Columns → ℕ → StockTransfer → TransferLine → InventoryLedger → InventoryEntry
out_entry columns id t line es =
    let last = newest line.product_id t.from_warehouse_id es in
    let u = unit_cost_of last in
    transfer_entry columns id t line u t.from_warehouse_id (codes "TRANSFER_OUT") 0 line.qty
      (qty_available line.product_id t.from_warehouse_id es -ℤ pos line.qty)
      (cost_less columns (cost_of last) line.qty u)

abbrev pub in_entry : Columns → ℕ → StockTransfer → TransferLine → InventoryLedger → InventoryEntry
in_entry columns id t line es =
    let last = newest line.product_id t.to_warehouse_id es in
    let u = unit_cost_of (newest line.product_id t.from_warehouse_id es) in
    transfer_entry columns id t line u t.to_warehouse_id (codes "TRANSFER_IN") line.qty 0
      (qty_available line.product_id t.to_warehouse_id es +ℤ pos line.qty)
      (cost_more columns (cost_of last) line.qty u)

-- One round of the loop over the lines: both entries are made from the ledger before the round.
unfoldable pub transfer_line :
    Columns → ℕ → StockTransfer → TransferLine → Action InventoryLedger (Unit {0})
unfolding qty_available newest ◌+ℤ◌ ◌-ℤ◌
transfer_line columns id t line = do
  source ← gets (qty_available line.product_id t.from_warehouse_id)
  throw_if (ltb_ℤ source (pos line.qty)) (business insufficient_stock)
  target ← gets (qty_available line.product_id t.to_warehouse_id)
  throw_if (not (eqb_ℤ (source -ℤ pos line.qty +ℤ (target +ℤ pos line.qty)) (source +ℤ target)))
      internal
  modify λ (es : InventoryLedger).
      in_entry columns id t line es ∷ (out_entry columns id t line es ∷ es)

unfoldable pub transfer_lines :
    Columns → ℕ → StockTransfer → List TransferLine → Action InventoryLedger (Unit {0})
transfer_lines columns id t [] = pure tt
transfer_lines columns id t (line ∷ lines) = do
  transfer_line columns id t line
  transfer_lines columns id t lines

abbrev pub insert_transfer : ℕ → StockTransfer → Action StockStore (Unit {0})
insert_transfer id t s = elim (find_unique id s.transfers) [
  | some other ↦ (err internal, s)
  | none ↦ (ok tt, record s { transfers = (id, t) ∷ s.transfers })
]

abbrev pub write_transfer : StockEnv → TransferRequest → ℕ → Text → Action StockStore StockTransfer
write_transfer env request attempt number = transaction do
  source ← gets λ (s : StockStore). find_unique request.from_warehouse_id s.warehouses
  target ← gets λ (s : StockStore). find_unique request.to_warehouse_id s.warehouses
  throw_if (is_locked source) (business business_rule_violation)
  throw_if (is_locked target) (business business_rule_violation)
  throw_if (lock_refused env attempt request.lines) internal
  insert_transfer env.new_id (transfer_of request number)
  on_part (λ (s : StockStore). s.ledger) set_ledger
      (transfer_lines env.columns env.new_id (transfer_of request number) request.lines)
  pure (transfer_of request number)

abbrev pub transfer_attempt : StockEnv → TransferRequest → ℕ → Action StockStore StockTransfer
transfer_attempt env request attempt = do
  number ← next_number env attempt Numbering.DocumentType.to request.transfer_date
  write_transfer env request attempt number

unfoldable pub transfer_stock : StockEnv → TransferRequest → Action StockStore StockTransfer
unfolding generate transfer_line transfer_lines retry_from
transfer_stock env request = do
  throw_if (request.from_warehouse_id == request.to_warehouse_id) (business validation_error)
  with_retries env (transfer_attempt env request)
