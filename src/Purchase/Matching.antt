-- ===== src/Purchase/Matching.antt =====
-- src/modules/purchase/services/three-way-matching.service.ts. Quantities are in ten-thousandths, prices
-- and order totals in hundredths, so an amount is in millionths; a tolerance is in hundredths. A product
-- of decimals is exact here. The log lines are left out, the warning on a small invoice among them.
pub mod Rules
mod Tests
use inventory_pos.Common.{
  ℕ, ◌+◌, ◌*◌, Bool, true, false, not, ◌&&◌, Option, none, some, List, [], ◌∷◌, ◌++◌, ◌==◌, ltb,
  length, keep, sum_of, if◌then◌else◌,
}
use inventory_pos.Common.Effects.{
  ErrorCode, not_found, business_rule_violation, Error, business, Result, ok, err,
}
use inventory_pos.Common.Int.{ℤ, sub_ℕ}
use inventory_pos.Common.Table.{Table, find_unique, find_many}
use inventory_pos.Purchase.Store.{
  PoLine, PurchaseOrder, ReceiptStatus, ReceiptLine, GoodsReceipt, PurchaseStore,
}

pub record InvoiceLine : Type 0 where
  pub product_id : ℕ
  pub qty : ℕ
  pub unit_price : ℕ

-- A QTY_MISMATCH for a product that is not ordered, or against the order or the receipts; the
-- AMOUNT_MISMATCH of the totals.
pub data Violation : Type 0 where
  not_ordered over_ordered over_received : ℕ → Violation
  over_amount : Violation

abbrev pub is_qty_mismatch : Violation → Bool
is_qty_mismatch over_amount = false
is_qty_mismatch _ = true

-- The sums of the quantities that the confirmed receipts hold of a product: `grQtyByProduct`.
abbrev pub is_confirmed_for : ℕ → GoodsReceipt → Bool
is_confirmed_for po_id gr = (gr.po_id == po_id) && is_confirmed gr.status
  where
    is_confirmed : ReceiptStatus → Bool
    is_confirmed ReceiptStatus.confirmed = true
    is_confirmed _ = false

abbrev pub received_in : ℕ → GoodsReceipt → ℕ
received_in product gr =
    sum_of (λ (l : ReceiptLine). if l.product_id == product then l.qty_received else 0) gr.lines

abbrev pub gr_qty : ℕ → List GoodsReceipt → ℕ
gr_qty product receipts = sum_of (received_in product) receipts

-- `poQtyByProduct`: a later line of a product replaces an earlier one.
abbrev pub po_qty : ℕ → List PoLine → Option ℕ
po_qty product [] = none
po_qty product (l ∷ ls) = elim (po_qty product ls) [
  | some q ↦ some q
  | none ↦ if l.product_id == product then some l.qty_ordered else none
]

-- qty > limit * (1 + tolerance)
abbrev pub exceeds : ℕ → ℕ → ℕ → Bool
exceeds tolerance qty limit = ltb (limit * (100 + tolerance)) (qty * 100)

abbrev pub found_if : Bool → Violation → List Violation
found_if true v = v ∷ []
found_if false v = []

-- The body of the loop over the invoice's lines.
unfoldable pub line_violations : ℕ → List PoLine → List GoodsReceipt → InvoiceLine → List Violation
line_violations tolerance ordered receipts line = elim (po_qty line.product_id ordered) [
  | none ↦ not_ordered line.product_id ∷ []
  | some q ↦
      found_if (exceeds tolerance line.qty q) (over_ordered line.product_id)
      ++ found_if (exceeds tolerance line.qty (gr_qty line.product_id receipts))
          (over_received line.product_id)
]

unfoldable pub all_violations :
    ℕ → List PoLine → List GoodsReceipt → List InvoiceLine → List Violation
unfolding line_violations
all_violations tolerance ordered receipts [] = []
all_violations tolerance ordered receipts (line ∷ lines) =
    line_violations tolerance ordered receipts line
    ++ all_violations tolerance ordered receipts lines

abbrev pub total_invoice_amount : List InvoiceLine → ℕ
total_invoice_amount lines = sum_of (λ (l : InvoiceLine). l.qty * l.unit_price) lines

-- totalInvoiceAmount > total_amount * 1.05
abbrev pub exceeds_amount : PurchaseOrder → List InvoiceLine → Bool
exceeds_amount po lines = ltb (po.total_amount * 10000 * 105) (total_invoice_amount lines * 100)

-- The result with the line counts of its summary.
pub record MatchingResult : Type 0 where
  pub is_valid : Bool
  pub violations : List Violation
  pub lines_checked : ℕ
  pub lines_matched : ℤ
  pub lines_violated : ℕ

abbrev pub result_of : ℕ → List Violation → MatchingResult
result_of lines violations =
    let violated = length (keep is_qty_mismatch violations) in
    record {
      is_valid = length violations == 0;
      violations = violations;
      lines_checked = lines;
      lines_matched = sub_ℕ lines violated;
      lines_violated = violated;
    }

abbrev pub live_order : Option PurchaseOrder → Option PurchaseOrder
live_order none = none
live_order (some po) = if po.deleted then none else some po

unfoldable pub validate : ℕ → ℕ → List InvoiceLine → PurchaseStore → Result MatchingResult
unfolding all_violations
validate tolerance po_id lines s = elim (live_order (find_unique po_id s.orders)) [
  | none ↦ err (business not_found)
  | some po ↦
      let receipts = find_many (is_confirmed_for po_id) s.receipts in
      ok (
        result_of (length lines) (
          all_violations tolerance po.lines receipts lines
          ++ found_if (exceeds_amount po lines) over_amount))
]

-- THREE_WAY_MATCHING_TOLERANCE
abbrev pub three_way_matching_tolerance : ℕ
three_way_matching_tolerance = 5

abbrev pub throw_unless_valid : Result MatchingResult → Result (Unit {0})
throw_unless_valid (err e) = err e
throw_unless_valid (ok r) = if r.is_valid then ok tt else err (business business_rule_violation)

unfoldable pub validate_and_throw : ℕ → ℕ → List InvoiceLine → PurchaseStore → Result (Unit {0})
unfolding validate
validate_and_throw tolerance po_id lines s = throw_unless_valid (validate tolerance po_id lines s)
