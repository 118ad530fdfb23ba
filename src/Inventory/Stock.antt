-- ===== src/Inventory/Stock.antt =====
-- The tables of src/modules/inventory, and what transferStock and adjustStock of inventory.service.ts
-- share: the newest entry, the unit cost of the stock, the retry loop. Quantities and unit costs of a
-- request are natural numbers, as its DTO demands (`@Min`).
pub mod Retry
use inventory_pos.Common.{
  ℕ, suc, zero, ◌+◌, ◌-◌, ◌*◌, Bool, true, false, ◌&&◌, Option, none, some, List, [], ◌∷◌, ltb,
  length, if◌then◌else◌,
}
use inventory_pos.Common.Effects.{
  Error, business, internal, Result, Action, ok, err, pure, transaction, on_part, ◌>>=◌,
}
use inventory_pos.Common.Int.{ℤ, pos, pos_part}
use inventory_pos.Common.Table.{Table, find_unique}
use inventory_pos.Common.Text.{Text}
use inventory_pos.Numbering.{DocumentType, Day, Outcome, Sequences, generate}
use inventory_pos.Inventory.{InventoryEntry, InventoryLedger, is_of, Columns}

pub record Warehouse : Type 0 where
  pub is_locked : Bool
  pub lock_reason : Option Text
  pub locked_at : Option ℕ
  pub locked_by : Option ℕ

pub record Product : Type 0 where
  pub uom_id : ℕ
  pub standard_cost : ℕ

-- A cost per unit before a column rounds it, in ten-thousandths: StockTransferLineDTO and
-- StockAdjustmentLineDTO bring whole ones, the code computes others by a division.
pub record UnitCost : Type 0 where
  pub amount : ℕ
  pub per : ℕ

abbrev pub whole : ℕ → UnitCost
whole n = record { amount = n; per = 1 }

pub record TransferLine : Type 0 where
  pub product_id : ℕ
  pub uom_id : ℕ
  pub qty : ℕ
  pub unit_cost : ℕ

-- The status is COMPLETED from the start.
pub record StockTransfer : Type 0 where
  pub transfer_number : Text
  pub from_warehouse_id : ℕ
  pub to_warehouse_id : ℕ
  pub transfer_date : ℕ
  pub created_by : ℕ
  pub lines : List TransferLine

pub record AdjustmentLine : Type 0 where
  pub product_id : ℕ
  pub uom_id : ℕ
  pub qty_system : ℕ
  pub qty_actual : ℕ
  pub unit_cost : UnitCost

-- A stored line.
pub record AdjustmentRow : Type 0 where
  pub product_id : ℕ
  pub uom_id : ℕ
  pub qty_system : ℕ
  pub qty_actual : ℕ
  pub qty_difference : ℤ
  pub unit_cost : ℕ

-- The status is POSTED from the start.
pub record StockAdjustment : Type 0 where
  pub adjustment_number : Text
  pub warehouse_id : ℕ
  pub adjustment_date : ℕ
  pub reason : Text
  pub created_by : ℕ
  pub lines : List AdjustmentRow

pub data OpnameStatus : Type 0 where
  initiated in_progress completed : OpnameStatus

pub data CountStatus : Type 0 where
  pending counted : CountStatus

pub record OpnameLine : Type 0 where
  pub product_id : ℕ
  pub qty_system : ℕ
  pub qty_counted : Option ℕ
  pub qty_difference : Option ℤ
  pub status : CountStatus
  pub recount_reason : Option Text

pub record StockOpname : Type 0 where
  pub opname_number : Text
  pub warehouse_id : ℕ
  pub status : OpnameStatus
  pub initiated_by : ℕ
  pub initiated_at : ℕ
  pub finalized_by : Option ℕ
  pub finalized_at : Option ℕ
  pub lines : List OpnameLine

pub record StockStore : Type 0 where
  pub ledger : InventoryLedger
  pub warehouses : Table Warehouse
  pub products : Table Product
  pub transfers : Table StockTransfer
  pub adjustments : Table StockAdjustment
  pub opnames : Table StockOpname
  pub sequences : Sequences

-- The machine and the database: how a numbering query of an attempt ends, whether the row locks of an
-- attempt are refused, whether the message of an attempt's error speaks of a lock, the id of a new row.
pub record StockEnv : Type 0 where
  pub db : (attempt query : ℕ) → Outcome
  pub local_day : ℕ → Day
  pub is_refused : ℕ → Bool
  pub names_lock : ℕ → Bool
  pub new_id : ℕ
  pub now : ℕ
  pub columns : Columns

abbrev pub set_sequences : Sequences → StockStore → StockStore
set_sequences q s = record s { sequences = q }

abbrev pub set_ledger : InventoryLedger → StockStore → StockStore
set_ledger l s = record s { ledger = l }

-- `numberingService.generate`, outside of the transaction.
abbrev pub next_number : StockEnv → ℕ → DocumentType → ℕ → Action StockStore Text
next_number env attempt type date =
    on_part (λ (s : StockStore). s.sequences) set_sequences
      (generate (env.db attempt) type (env.local_day date))

-- `warehouse?.is_locked`
abbrev pub is_locked : Option Warehouse → Bool
is_locked none = false
is_locked (some w) = w.is_locked

-- `FOR UPDATE NOWAIT` on the products of the lines, when there are lines.
abbrev pub lock_refused : {L : Type 0} → StockEnv → ℕ → List L → Bool
lock_refused env attempt lines = ltb 0 (length lines) && env.is_refused attempt

-- `findFirst` by `created_at: 'desc'` alone.
unfoldable pub newest : ℕ → ℕ → InventoryLedger → Option InventoryEntry
newest product warehouse [] = none
newest product warehouse (e ∷ es) =
    if is_of product warehouse e then some e else newest product warehouse es

abbrev pub cost_of : Option InventoryEntry → ℕ
cost_of none = 0
cost_of (some e) = e.running_cost

abbrev pub qty_of : Option InventoryEntry → ℕ
qty_of none = 0
qty_of (some e) = pos_part e.running_qty

-- The running cost over the running quantity, 0 when there is none.
abbrev pub unit_cost_of : Option InventoryEntry → UnitCost
unit_cost_of last =
    if ltb 0 (qty_of last)
    then record { amount = cost_of last * 1_000_000; per = qty_of last }
    else whole 0

-- max(0, cost - qty * unit cost), and cost + qty * unit cost.
abbrev pub cost_less : Columns → (cost qty : ℕ) → UnitCost → ℕ
cost_less columns cost qty u = columns.cost (cost * 1_000_000 * u.per - qty * u.amount) u.per

abbrev pub cost_more : Columns → (cost qty : ℕ) → UnitCost → ℕ
cost_more columns cost qty u = columns.cost (cost * 1_000_000 * u.per + qty * u.amount) u.per

-- `err.message.includes(...)`: the service's own messages speak of no lock.
abbrev pub is_retried : StockEnv → ℕ → Error → Bool
is_retried env attempt (business code) = false
is_retried env attempt e = env.names_lock attempt

-- The `catch` of an attempt that is not the last one.
abbrev pub retry_after : {S A : Type 0} → (Error → Bool) → Result A × S → Action S A → Result A × S
retry_after again (ok a, s) more = (ok a, s)
retry_after again (err e, s) more = if again e then more s else (err e, s)

-- The attempts from `attempt` on, with `left` more after it; the delays are left out.
unfoldable pub retry_from : {S A : Type 0} → StockEnv → (ℕ → Action S A) → ℕ → ℕ → Action S A
retry_from env m zero attempt s = m attempt s
retry_from env m (suc left) attempt s =
    retry_after (is_retried env attempt) (m attempt s) (retry_from env m left (attempt + 1))

-- `for (let attempt = 1; attempt <= 3; attempt++)`
abbrev pub with_retries : {S A : Type 0} → StockEnv → (ℕ → Action S A) → Action S A
with_retries env m = retry_from env m 2 1
