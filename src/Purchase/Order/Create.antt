-- ===== src/Purchase/Order/Create.antt =====
-- `create` of src/modules/purchase/services/purchase-order.service.ts: the checks, the totals and the
-- new row. Quantities come in ten-thousandths, prices and percentages in hundredths, so that a line's
-- amounts are whole numbers of 10⁻¹⁴, and the arithmetic is exact.

use inventory_pos.Common.{
  ℕ, suc, ◌+◌, ◌-◌, ◌*◌, ◌^◌, Bool, true, false, not, ◌&&◌, Option, none, some, List, [], ◌∷◌, ltb,
  leb, every, map, sum_of, length, if◌then◌else◌,
}
use inventory_pos.Common.Effects.{
  internal, Action, pure, throw_if, modify, transaction, on_part, ◌>>=◌, ◌>>◌, ok, err,
}
use inventory_pos.Common.Table.{find_unique}
use inventory_pos.Common.Text.{Text}
use inventory_pos.Numbering.{DocumentType, Day, Outcome, generate}
use inventory_pos.Master.{MasterData, Party, invalid, verify_party, verify_warehouse, verify_all}
use inventory_pos.Purchase.Store.{
  PoStatus, LineStatus, PoLine, PurchaseOrder, AuditAction, PurchaseStore, set_sequences, log,
}
use inventory_pos.Purchase.Order.{is_found, level_1, level_2}

pub record CreateLine : Type 0 where
  pub product_id : ℕ
  pub uom_id : ℕ
  pub qty_ordered : ℕ
  pub unit_price : ℕ
  pub discount_pct : ℕ
  pub tax_pct : ℕ

pub record CreateOrder : Type 0 where
  pub pr_id : Option ℕ
  pub supplier_id : ℕ
  pub branch_id : ℕ
  pub warehouse_id : ℕ
  pub additional_cost : ℕ
  pub notes : Option Text
  pub lines : List CreateLine

-- What the call finds outside: the master data, the purchase requests that are deleted or not, the
-- answers of the numbering queries, today's date, the new ids, and how a money column stores an
-- amount given in 10⁻¹⁴.
pub record Env : Type 0 where
  pub master : MasterData
  pub request_deleted : ℕ → Option Bool
  pub db : ℕ → Outcome
  pub today : Day
  pub new_id : ℕ
  pub line_id : ℕ → ℕ
  pub column : ℕ → ℕ

-- CreatePOSchema, as far as it tests numbers: `min(1)`, `positive()` and `max(100)`.
abbrev pub is_valid_line : CreateLine → Bool
is_valid_line line =
    ltb 0 line.qty_ordered && leb line.discount_pct 10_000 && leb line.tax_pct 10_000

abbrev pub is_valid_order : CreateOrder → Bool
is_valid_order order = ltb 0 (length order.lines) && every is_valid_line order.lines

-- In 10⁻⁶, 10⁻¹⁰, 10⁻¹⁴ and 10⁻¹⁴.
unfoldable pub line_discount : CreateLine → ℕ
line_discount line = line.unit_price * line.qty_ordered * line.discount_pct

unfoldable pub line_subtotal : CreateLine → ℕ
unfolding line_discount
line_subtotal line = line.unit_price * line.qty_ordered * 10_000 - line_discount line

unfoldable pub line_tax : CreateLine → ℕ
unfolding line_subtotal
line_tax line = line_subtotal line * line.tax_pct

unfoldable pub line_total : CreateLine → ℕ
unfolding line_subtotal line_tax
line_total line = line_subtotal line * 10_000 + line_tax line

-- `subtotal` of the order is the sum of the lines' totals, tax included.
unfoldable pub order_total : CreateOrder → ℕ
unfolding line_total
order_total order = sum_of line_total order.lines + order.additional_cost * 10 ^ 12

-- `getApprovalThreshold` at an amount in 10⁻¹⁴, as `create` calls it.
unfoldable pub exact_threshold : ℕ → ℕ
exact_threshold amount =
    if ltb amount (level_1 * 10 ^ 12) then 1 else if ltb amount (level_2 * 10 ^ 12) then 2 else 3

abbrev pub new_lines : (ℕ → ℕ) → ℕ → List CreateLine → List PoLine
new_lines line_id k [] = []
new_lines line_id k (line ∷ lines) =
    record {
      id = line_id k;
      product_id = line.product_id;
      uom_id = line.uom_id;
      qty_ordered = line.qty_ordered;
      qty_received = 0;
      line_status = LineStatus.open_line;
    }
    ∷ new_lines line_id (suc k) lines

abbrev pub new_order : Env → CreateOrder → ℕ → Text → PurchaseOrder
new_order env order user number = record {
  po_number = number;
  supplier_id = order.supplier_id;
  branch_id = order.branch_id;
  warehouse_id = order.warehouse_id;
  status = PoStatus.draft;
  total_amount = env.column (order_total order);
  approval_level = exact_threshold (order_total order);
  approved_by = none;
  approved_at = none;
  notes = order.notes;
  created_by = user;
  deleted = false;
  lines = new_lines env.line_id 0 order.lines;
}

-- An insert under an id that is taken is refused by the primary key.
abbrev pub insert_order : ℕ → PurchaseOrder → Action PurchaseStore (Unit {0})
insert_order id po s =
    if is_found (find_unique id s.orders)
    then (err internal, s)
    else (ok tt, record s { orders = (id, po) ∷ s.orders })

abbrev pub is_gone : Option Bool → Bool
is_gone none = true
is_gone (some gone) = gone

abbrev pub verify_request : (ℕ → Option Bool) → Option ℕ → Action PurchaseStore (Unit {0})
verify_request deleted none = pure tt
verify_request deleted (some id) = throw_if (is_gone (deleted id)) invalid

abbrev pub is_active_product : Party → Bool
is_active_product p = not p.deleted && p.is_active

abbrev pub is_active_unit : Party → Bool
is_active_unit p = p.is_active

-- The checks before the first write.
abbrev pub verify_order : Env → CreateOrder → Action PurchaseStore (Unit {0})
verify_order env order = do
  throw_if (not (is_valid_order order)) internal
  verify_party env.master.suppliers order.supplier_id
  verify_party env.master.branches order.branch_id
  verify_warehouse env.master.warehouses order.branch_id order.warehouse_id
  verify_request env.request_deleted order.pr_id
  verify_all is_active_product env.master.products
      (map (λ (l : CreateLine). l.product_id) order.lines)
  verify_all is_active_unit env.master.units (map (λ (l : CreateLine). l.uom_id) order.lines)

abbrev pub write_order : Env → CreateOrder → ℕ → Text → Action PurchaseStore PurchaseOrder
write_order env order user number = transaction do
  insert_order env.new_id (new_order env order user number)
  modify (log user AuditAction.create env.new_id)
  pure (new_order env order user number)

unfoldable pub create : Env → CreateOrder → ℕ → Action PurchaseStore PurchaseOrder
unfolding verify_party verify_warehouse verify_all generate order_total exact_threshold
create env order user = do
  verify_order env order
  number ←
      on_part (λ (s : PurchaseStore). s.sequences) set_sequences
        (generate env.db DocumentType.po env.today)
  write_order env order user number
