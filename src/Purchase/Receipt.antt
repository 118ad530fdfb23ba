-- ===== src/Purchase/Receipt.antt =====
-- src/modules/purchase/services/goods-receipt.service.ts. A line's `total_cost` is its quantity times its
-- unit cost and is not kept; a running cost is never negative here, and so no average cost is (BR-INV-003).
pub mod Confirm
pub mod Drafted
pub mod Checks
pub mod Created
pub mod Bounds
pub mod Twice
mod Tests
use inventory_pos.Common.{
  ℕ, ◌+◌, ◌*◌, Bool, true, false, not, ◌&&◌, Option, none, some, List, [], ◌∷◌, ◌==◌, ltb, leb,
  every, any, sum_of, map, if◌then◌else◌,
}
use inventory_pos.Common.Effects.{
  ErrorCode, not_found, validation_error, Error, business, missing, internal, Action, Result, ok,
  err, pure, gets, or_throw, throw_if, modify, transaction, on_part, ◌>>=◌, ◌>>◌,
}
use inventory_pos.Common.Int.{ℤ, pos, pos_part, ◌+ℤ◌}
use inventory_pos.Common.Table.{Table, find_unique, update}
use inventory_pos.Common.Text.{Text, codes}
use inventory_pos.Numbering.{DocumentType, generate}
use inventory_pos.Master.{MasterData, invalid, verify_all}
use inventory_pos.Purchase.Store.{
  PoStatus, LineStatus, PoLine, PurchaseOrder, ReceiptStatus, draft, ReceiptLine, GoodsReceipt,
  AuditAction, PurchaseStore, set_sequences, log, annotate,
}
use inventory_pos.Purchase.Order.{violation, existing_order, is_found}
use inventory_pos.Purchase.Order.Create.{is_active_product, is_active_unit}
use inventory_pos.Purchase.Order.Receive.{
  is_valid_receipt, can_receive, find_line, refers_nowhere, set_received, Env, ReceiptRequest,
  new_receipt, insert_receipt,
}
use inventory_pos.Inventory.{
  InventoryEntry, InventoryLedger, Columns, latest, running_qty_of, running_cost_of,
}
use inventory_pos.Inventory.Stock.{Warehouse, is_locked}
use inventory_pos.Accounting.Store.{FiscalPeriod, JournalEntry, Ledger}
use inventory_pos.Accounting.Period.{get_period_for_date, validate_period_open}
use inventory_pos.Accounting.Journal
use inventory_pos.Accounting.Journal.{BusinessEvent, process_event}

pub data OverReceiptPolicy : Type 0 where
  reject accept_with_tolerance : OverReceiptPolicy

-- In percent.
abbrev pub over_receipt_tolerance : ℕ
over_receipt_tolerance = 5

abbrev pub default_over_receipt_policy : OverReceiptPolicy
default_over_receipt_policy = reject

abbrev pub tolerance_of : OverReceiptPolicy → ℕ
tolerance_of reject = 0
tolerance_of accept_with_tolerance = over_receipt_tolerance

-- BR-PUR-003: more than the ordered quantity and the tolerance.
abbrev pub is_over : OverReceiptPolicy → ℕ → PoLine → Bool
is_over policy qty row =
    ltb (row.qty_ordered * (100 + tolerance_of policy)) ((row.qty_received + qty) * 100)

pub record ReceiptStore : Type 0 where
  pub purchase : PurchaseStore
  pub warehouses : Table Warehouse
  pub inventory : InventoryLedger
  pub ledger : Ledger

abbrev pub set_purchase : PurchaseStore → ReceiptStore → ReceiptStore
set_purchase p s = record s { purchase = p }

abbrev pub set_ledger : Ledger → ReceiptStore → ReceiptStore
set_ledger l s = record s { ledger = l }

-- One round of the loop over the lines of a new receipt.
abbrev pub check_row : ReceiptLine → Option PoLine → Action ReceiptStore (Unit {0})
check_row l none = pure tt
check_row l (some row) = do
  throw_if (is_over default_over_receipt_policy l.qty_received row) violation
  throw_if (not (l.product_id == row.product_id)) invalid
  throw_if (not (l.uom_id == row.uom_id)) invalid

unfoldable pub check_lines : List PoLine → List ReceiptLine → Action ReceiptStore (Unit {0})
check_lines rows [] = pure tt
check_lines rows (l ∷ ls) = check_row l (find_line l.po_line_id rows) >> check_lines rows ls

abbrev pub in_purchase : {A : Type 0} → Action PurchaseStore A → Action ReceiptStore A
in_purchase = on_part (λ (s : ReceiptStore). s.purchase) set_purchase

abbrev pub write_draft :
    Env → ℕ → PurchaseOrder → ℕ → ReceiptRequest → Text → Action PurchaseStore GoodsReceipt
write_draft env id po user request number = transaction do
  insert_receipt env.new_id (new_receipt id po user request number)
  modify (log user AuditAction.create env.new_id)
  pure (new_receipt id po user request number)

abbrev pub next_number : Env → Action PurchaseStore Text
next_number env =
    on_part (λ (s : PurchaseStore). s.sequences) set_sequences
      (generate env.db DocumentType.gr env.today)

unfoldable pub create : MasterData → Env → ℕ → ReceiptRequest → ℕ → Action ReceiptStore GoodsReceipt
unfolding check_lines verify_all generate
create master env id request user = do
  throw_if (not (is_valid_receipt request.lines)) internal
  po ← in_purchase (existing_order id)
  throw_if (not (can_receive po.status)) violation
  warehouse ← gets λ (s : ReceiptStore). find_unique po.warehouse_id s.warehouses
  throw_if (is_locked warehouse) violation
  throw_if (any (refers_nowhere po.lines) request.lines) (business validation_error)
  check_lines po.lines request.lines
  verify_all is_active_product master.products
      (map (λ (l : ReceiptLine). l.product_id) request.lines)
  verify_all is_active_unit master.units (map (λ (l : ReceiptLine). l.uom_id) request.lines)
  number ← in_purchase (next_number env)
  in_purchase (write_draft env id po user request number)

abbrev pub live : Option GoodsReceipt → Option GoodsReceipt
live none = none
live (some gr) = if gr.deleted then none else some gr

abbrev pub existing_receipt : ℕ → Action PurchaseStore GoodsReceipt
existing_receipt id s = or_throw missing (live (find_unique id s.receipts)) s

abbrev pub is_draft : ReceiptStatus → Bool
is_draft draft = true
is_draft _ = false

abbrev pub change_receipt : ℕ → (GoodsReceipt → GoodsReceipt) → PurchaseStore → PurchaseStore
change_receipt id f s = record s { receipts = update id f s.receipts }

-- The row's status stays DRAFT.
abbrev pub cancelled_row : GoodsReceipt → Text → GoodsReceipt → GoodsReceipt
cancelled_row existing reason row = record row {
  notes = some (annotate existing.notes (codes "\nCancellation: ") reason);
  deleted = true;
}

unfoldable pub cancel : ℕ → ℕ → Text → Action PurchaseStore GoodsReceipt
cancel id user reason = do
  existing ← existing_receipt id
  throw_if (not (is_draft existing.status)) violation
  transaction do
    modify (change_receipt id (cancelled_row existing reason))
    modify (log user AuditAction.delete id)
    row ← gets λ (s : PurchaseStore). find_unique id s.receipts
    or_throw internal row
