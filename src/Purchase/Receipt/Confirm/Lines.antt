-- ===== src/Purchase/Receipt/Confirm/Lines.antt =====
-- What a confirmation of goods-receipt.service.ts adds to the lines of the order and to the stock.
use inventory_pos.Common.{
  ap, ℕ, ◌+◌, ◌≡◌, refl, ◌∙◌, ◌≢◌, some, Option-cases, Bool-cases, inl, inr, List, [], ◌∷◌, ◌==◌,
  arith, sum_of, if◌then◌else◌,
}
use mathlib.Core.Option.{some-injective}
use inventory_pos.Purchase.Store.{PoLine, ReceiptLine, GoodsReceipt}
use inventory_pos.Purchase.Order.Receive.{find_line, set_received}
use inventory_pos.Purchase.Order.Receive.Quantities.{
  received_on, brought_for, received_on-set_received_self, received_on-set_received_ne,
}
use inventory_pos.Inventory.{InventoryLedger, Columns, latest, total_in, total_out}
use inventory_pos.Purchase.Receipt.Confirm.{add_lines, receipt_entry, stock_lines}

-- One row is raised by what a line brings.
raised :
    (j : ℕ) (l : ReceiptLine) (row : PoLine) (rows : List PoLine)
    → find_line l.po_line_id rows ≡ some row
    → received_on j (set_received l.po_line_id (row.qty_received + l.qty_received) rows)
      ≡ received_on j rows + (if l.po_line_id == j then l.qty_received else 0)
raised j l row rows e = elim (Bool-cases (l.po_line_id == j)) [
  | inl here ↦
      let same : j ≡ l.po_line_id = ground arith in
      rw (here, same)
        (received_on-set_received_self l.po_line_id (row.qty_received + l.qty_received) rows
            (rw e refl)
          ∙ rw e refl)
  | inr other ↦
      let apart : j ≢ l.po_line_id = ground arith in
      rw other (
        omega (
          arith,
          received_on-set_received_ne j l.po_line_id (row.qty_received + l.qty_received) rows apart,
        ))
]

pub received_on-add_lines :
    (j : ℕ) (ls : List ReceiptLine) (rows rows' : List PoLine)
    → add_lines ls rows ≡ some rows'
    → received_on j rows' ≡ received_on j rows + brought_for j ls
unfolding add_lines
received_on-add_lines j [] rows rows' e = omega (arith, ap (received_on j) (some-injective _ _ e))
received_on-add_lines j (l ∷ ls) rows rows' e = elim (Option-cases (find_line l.po_line_id rows)) [
  | inl lost ↦ cc (rw (add_lines, lost) at e)
  | inr (row, found) ↦
      let next = set_received l.po_line_id (row.qty_received + l.qty_received) rows in
      omega (
        arith,
        raised j l row rows found,
        received_on-add_lines j ls next rows' (rw (add_lines, found) at e),
      )
]

-- What a receipt brings of a product.
abbrev pub brought : ℕ → List ReceiptLine → ℕ
brought product ls =
    sum_of (λ (l : ReceiptLine). if l.product_id == product then l.qty_received else 0) ls

pub total_in-stock_lines :
    (columns : Columns) (id : ℕ) (gr : GoodsReceipt) (user product warehouse : ℕ)
    (ls : List ReceiptLine) (es : InventoryLedger)
    → total_in product warehouse (stock_lines columns id gr user ls es)
      ≡ (if gr.warehouse_id == warehouse then brought product ls else 0)
        + total_in product warehouse es
unfolding stock_lines
total_in-stock_lines columns id gr user product warehouse [] es = ground arith
total_in-stock_lines columns id gr user product warehouse (l ∷ ls) es =
    let entry = receipt_entry columns id gr user l (latest l.product_id gr.warehouse_id es) in
    ground (arith, total_in-stock_lines columns id gr user product warehouse ls (entry ∷ es))

pub total_out-stock_lines :
    (columns : Columns) (id : ℕ) (gr : GoodsReceipt) (user product warehouse : ℕ)
    (ls : List ReceiptLine) (es : InventoryLedger)
    → total_out product warehouse (stock_lines columns id gr user ls es)
      ≡ total_out product warehouse es
unfolding stock_lines
total_out-stock_lines columns id gr user product warehouse [] es = refl
total_out-stock_lines columns id gr user product warehouse (l ∷ ls) es =
    let entry = receipt_entry columns id gr user l (latest l.product_id gr.warehouse_id es) in
    ground (arith, total_out-stock_lines columns id gr user product warehouse ls (entry ∷ es))
