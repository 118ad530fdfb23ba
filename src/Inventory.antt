-- ===== src/Inventory.antt =====
-- `recordMovement` and `getStockBalance` of src/modules/inventory/services/inventory.service.ts. Quantities
-- and unit costs are in ten-thousandths, running costs in hundredths. Conversion rates are whole numbers.
-- How a column rounds a quotient is an argument, as it is the database's affair.
pub mod Latest
pub mod Balance
pub mod Stock
pub mod Transfer
pub mod Adjust
pub mod CountLines
pub mod Opname
pub mod Refines
mod Tests
mod StockTests
use inventory_pos.Common.{
  ℕ, ◌+◌, ◌-◌, ◌*◌, Bool, true, false, not, ◌&&◌, ◌||◌, Option, none, some, List, [], ◌∷◌, ◌==◌,
  ltb, leb, sum_of, if◌then◌else◌,
}
use inventory_pos.Common.Effects.{
  ErrorCode, validation_error, insufficient_stock, Error, business, Action, Result, ok, err, pure,
  gets, throw_if, modify, transaction, ◌>>=◌, ◌>>◌,
}
use inventory_pos.Common.Int.{ℤ, pos, ltb_ℤ, eqb_ℤ, sub_ℕ, pos_part, ◌+ℤ◌, ◌-ℤ◌}
use inventory_pos.Common.Text.{Text}

-- StockMovementDTO
pub record StockMovement : Type 0 where
  pub product_id : ℕ
  pub warehouse_id : ℕ
  pub transaction_type : Text
  pub reference_type : Text
  pub reference_id : ℕ
  pub reference_number : Text
  pub movement_date : ℕ
  pub qty_in : ℤ
  pub qty_out : ℤ
  pub unit_cost : ℤ
  pub conversion_rate : Option ℕ
  pub notes : Option Text
  pub created_by : ℕ

pub record InventoryEntry : Type 0 where
  pub product_id : ℕ
  pub warehouse_id : ℕ
  pub transaction_type : Text
  pub reference_type : Text
  pub reference_id : ℕ
  pub reference_number : Text
  pub movement_date : ℕ
  pub qty_in : ℕ
  pub qty_out : ℕ
  pub unit_cost : ℕ
  pub total_cost : ℕ
  pub running_qty : ℤ
  pub running_cost : ℕ
  pub batch_number : Option Text
  pub serial_number : Option Text
  pub notes : Option Text
  pub created_by : ℕ

-- The append-only table `inventory_ledger`, the entry created last first.
abbrev pub InventoryLedger : Type 0
InventoryLedger = List InventoryEntry

abbrev pub is_of : ℕ → ℕ → InventoryEntry → Bool
is_of product warehouse e = (e.product_id == product) && (e.warehouse_id == warehouse)

-- Of two entries the one with the later movement date; of equal dates the one created later, which is
-- the one on the left.
abbrev pub later : InventoryEntry → Option InventoryEntry → InventoryEntry
later e none = e
later e (some f) = if ltb e.movement_date f.movement_date then f else e

-- `orderBy: [{ movement_date: 'desc' }, { created_at: 'desc' }]`, and the first one.
unfoldable pub latest : ℕ → ℕ → InventoryLedger → Option InventoryEntry
latest product warehouse [] = none
latest product warehouse (e ∷ es) =
    let rest = latest product warehouse es in
    if is_of product warehouse e then some (later e rest) else rest

abbrev pub running_qty_of : Option InventoryEntry → ℤ
running_qty_of none = pos 0
running_qty_of (some e) = e.running_qty

abbrev pub running_cost_of : Option InventoryEntry → ℕ
running_cost_of none = 0
running_cost_of (some e) = e.running_cost

-- A missing rate and a rate of 0 count as 1.
abbrev pub rate_of : Option ℕ → ℕ
rate_of none = 1
rate_of (some r) = if ltb 0 r then r else 1

-- The conditions under which `validateMovementData` throws.
abbrev pub is_invalid : ℕ → StockMovement → Bool
is_invalid now m =
    ltb_ℤ m.qty_in (pos 0)
    || ltb_ℤ m.qty_out (pos 0)
    || ltb_ℤ (pos 0) m.qty_in && ltb_ℤ (pos 0) m.qty_out
    || eqb_ℤ m.qty_in (pos 0) && eqb_ℤ m.qty_out (pos 0)
    || ltb_ℤ m.unit_cost (pos 0)
    || ltb now m.movement_date

-- How the columns store a quotient: two decimals for costs, four for unit costs. The costs come in
-- hundred-millionths.
pub record Columns : Type 0 where
  pub cost : (numerator denominator : ℕ) → ℕ
  pub unit : (numerator denominator : ℕ) → ℕ

-- max(0, cost + added - cost / qty * out), over the old quantity when there is one.
abbrev pub new_cost : Columns → (cost qty added out : ℕ) → ℕ
new_cost columns cost qty added out =
    if ltb 0 qty
    then columns.cost ((cost * 1_000_000 + added) * qty - cost * 1_000_000 * out) qty
    else columns.cost (cost * 1_000_000 + added) 1

abbrev pub new_entry : Columns → StockMovement → Option InventoryEntry → InventoryEntry
new_entry columns m last =
    let rate = rate_of m.conversion_rate in
    let qty_in = pos_part m.qty_in * rate in
    let qty_out = pos_part m.qty_out * rate in
    let added = pos_part m.qty_in * pos_part m.unit_cost in
    record {
      product_id = m.product_id;
      warehouse_id = m.warehouse_id;
      transaction_type = m.transaction_type;
      reference_type = m.reference_type;
      reference_id = m.reference_id;
      reference_number = m.reference_number;
      movement_date = m.movement_date;
      qty_in = qty_in;
      qty_out = qty_out;
      unit_cost = columns.unit (pos_part m.unit_cost) rate;
      total_cost = columns.cost added 1;
      running_qty = running_qty_of last +ℤ pos qty_in -ℤ pos qty_out;
      running_cost =
          new_cost columns (running_cost_of last) (pos_part (running_qty_of last)) added qty_out;
      batch_number = none;
      serial_number = none;
      notes = m.notes;
      created_by = m.created_by;
    }

-- BR-INV-001: the balance would be negative.
abbrev pub is_short : StockMovement → Option InventoryEntry → Bool
is_short m last =
    let rate = rate_of m.conversion_rate in
    ltb_ℤ (running_qty_of last +ℤ pos (pos_part m.qty_in * rate) -ℤ pos (pos_part m.qty_out * rate))
      (pos 0)

unfoldable pub record_movement : Columns → ℕ → StockMovement → Action InventoryLedger InventoryEntry
unfolding latest ◌+ℤ◌ ◌-ℤ◌
record_movement columns now m = do
  throw_if (is_invalid now m) (business validation_error)
  last ← gets (latest m.product_id m.warehouse_id)
  throw_if (is_short m last) (business insufficient_stock)
  modify λ (s : InventoryLedger). new_entry columns m last ∷ s
  pure (new_entry columns m last)

abbrev pub total_in : ℕ → ℕ → InventoryLedger → ℕ
total_in product warehouse es =
    sum_of (λ (e : InventoryEntry). if is_of product warehouse e then e.qty_in else 0) es

abbrev pub total_out : ℕ → ℕ → InventoryLedger → ℕ
total_out product warehouse es =
    sum_of (λ (e : InventoryEntry). if is_of product warehouse e then e.qty_out else 0) es

-- `qty_available` of `getStockBalance`.
unfoldable pub qty_available : ℕ → ℕ → InventoryLedger → ℤ
qty_available product warehouse es =
    sub_ℕ (total_in product warehouse es) (total_out product warehouse es)
