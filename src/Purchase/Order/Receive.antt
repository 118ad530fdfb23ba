-- ===== src/Purchase/Order/Receive.antt =====
-- `receiveGoods` of src/modules/purchase/services/purchase-order.service.ts: a draft goods receipt, and
-- the received quantities of the order's lines.
pub mod Quantities
pub mod Conserve
use inventory_pos.Common.{
  ℕ, suc, ◌+◌, ◌-◌, Bool, true, false, not, ◌&&◌, ◌||◌, Option, none, some, List, [], ◌∷◌, ◌==◌,
  ltb, leb, every, any, length, if◌then◌else◌,
}
use inventory_pos.Common.Effects.{
  Error, business, validation_error, internal, Action, Result, ok, err, pure, gets, throw_if,
  modify, transaction, on_part, ◌>>=◌, ◌>>◌,
}
use inventory_pos.Common.Table.{Table, find_unique, update}
use inventory_pos.Common.Text.{Text}
use inventory_pos.Numbering.{DocumentType, Day, Outcome, generate}
use inventory_pos.Purchase.Store.{
  PoStatus, approved, partially_received, LineStatus, PoLine, PurchaseOrder, ReceiptStatus,
  ReceiptLine, GoodsReceipt, AuditAction, PurchaseStore, set_sequences, log,
}
use inventory_pos.Purchase.Order.{violation, existing_order, is_found}

-- GoodsReceiptSchema: at least one line, and positive quantities.
abbrev pub is_valid_receipt : List ReceiptLine → Bool
is_valid_receipt lines =
    ltb 0 (length lines) && every (λ (l : ReceiptLine). ltb 0 l.qty_received) lines

abbrev pub can_receive : PoStatus → Bool
can_receive approved = true
can_receive partially_received = true
can_receive _ = false

-- `po.lines.find((l) => l.id === id)`
abbrev pub find_line : ℕ → List PoLine → Option PoLine
find_line id [] = none
find_line id (line ∷ lines) = if line.id == id then some line else find_line id lines

abbrev pub is_too_much : ℕ → Option PoLine → Bool
is_too_much qty none = false
is_too_much qty (some line) = ltb (line.qty_ordered - line.qty_received) qty

abbrev pub exceeds : List PoLine → ReceiptLine → Bool
exceeds lines l = is_too_much l.qty_received (find_line l.po_line_id lines)

abbrev pub refers_nowhere : List PoLine → ReceiptLine → Bool
refers_nowhere lines l = not (is_found (find_line l.po_line_id lines))

abbrev pub line_with : PoLine → ℕ → PoLine
line_with line qty = record line {
  qty_received = qty;
  line_status =
      if leb line.qty_ordered qty then LineStatus.closed_line else LineStatus.partial_line;
}

-- `tx.purchaseOrderLine.update` of one row.
abbrev pub set_received : ℕ → ℕ → List PoLine → List PoLine
set_received id qty [] = []
set_received id qty (line ∷ lines) =
    if line.id == id then line_with line qty ∷ lines else line ∷ set_received id qty lines

abbrev pub receive_line : Option PoLine → ReceiptLine → List PoLine → List PoLine
receive_line none l lines = lines
receive_line (some seen) l lines =
    set_received l.po_line_id (seen.qty_received + l.qty_received) lines

-- The loop over the receipt: the old quantity is the one that was read before the transaction.
unfoldable pub receive_lines : List PoLine → List ReceiptLine → List PoLine → List PoLine
receive_lines seen [] lines = lines
receive_lines seen (l ∷ ls) lines =
    receive_lines seen ls (receive_line (find_line l.po_line_id seen) l lines)

pub record Env : Type 0 where
  pub db : ℕ → Outcome
  pub today : Day
  pub new_id : ℕ

-- GoodsReceiptDTO
pub record ReceiptRequest : Type 0 where
  pub receipt_date : ℕ
  pub notes : Option Text
  pub lines : List ReceiptLine

abbrev pub new_receipt : ℕ → PurchaseOrder → ℕ → ReceiptRequest → Text → GoodsReceipt
new_receipt id po user request number = record {
  gr_number = number;
  po_id = id;
  supplier_id = po.supplier_id;
  warehouse_id = po.warehouse_id;
  status = ReceiptStatus.draft;
  receipt_date = request.receipt_date;
  notes = request.notes;
  confirmed_by = none;
  confirmed_at = none;
  created_by = user;
  deleted = false;
  lines = request.lines;
}

abbrev pub insert_receipt : ℕ → GoodsReceipt → Action PurchaseStore (Unit {0})
insert_receipt id gr s =
    if is_found (find_unique id s.receipts)
    then (err internal, s)
    else (ok tt, record s { receipts = (id, gr) ∷ s.receipts })

-- The lines of the order and the audit entry.
abbrev pub count_goods :
    Env → ℕ → PurchaseOrder → ℕ → ReceiptRequest → Text → Action PurchaseStore GoodsReceipt
count_goods env id po user request number = do
  modify λ (s : PurchaseStore). record s {
    orders =
        update id
          (λ (row : PurchaseOrder). record row {
            lines = receive_lines po.lines request.lines row.lines;
          })
          s.orders;
  }
  modify (log user AuditAction.create env.new_id)
  pure (new_receipt id po user request number)

abbrev pub write_receipt :
    Env → ℕ → PurchaseOrder → ℕ → ReceiptRequest → Text → Action PurchaseStore GoodsReceipt
write_receipt env id po user request number = transaction do
  insert_receipt env.new_id (new_receipt id po user request number)
  count_goods env id po user request number

unfoldable pub receive_goods : Env → ℕ → ReceiptRequest → ℕ → Action PurchaseStore GoodsReceipt
unfolding generate receive_lines
receive_goods env id request user = do
  throw_if (not (is_valid_receipt request.lines)) internal
  po ← existing_order id
  throw_if (not (can_receive po.status)) violation
  throw_if (any (refers_nowhere po.lines) request.lines) (business validation_error)
  throw_if (any (exceeds po.lines) request.lines) violation
  number ←
      on_part (λ (s : PurchaseStore). s.sequences) set_sequences
        (generate env.db DocumentType.gr env.today)
  write_receipt env id po user request number
