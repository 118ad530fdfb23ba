-- ===== src/Purchase/Matching/Tests.antt =====
-- The three-way matching at concrete inputs.
use inventory_pos.Common.{ℕ, ◌*◌, ◌≤◌, ◌≡◌, refl, ◌↔◌, false, none, some, [], ◌∷◌, All}
use inventory_pos.Common.Effects.{ok, err, business, business_rule_violation}
use inventory_pos.Common.Table.{find_many}
use inventory_pos.Common.Text.{codes}
use inventory_pos.Purchase.Store.{
  PoStatus, LineStatus, PurchaseOrder, ReceiptStatus, GoodsReceipt, PurchaseStore,
}
use inventory_pos.Purchase.Matching.{
  InvoiceLine, three_way_matching_tolerance, is_confirmed_for, total_invoice_amount,
  validate_and_throw,
}
use inventory_pos.Purchase.Matching.Rules.{IsMatched, validate_and_throw-ok_iff}

abbrev order : PurchaseOrder
order = record {
  po_number = codes "PO-202603-00001";
  supplier_id = 4;
  branch_id = 1;
  warehouse_id = 2;
  status = PoStatus.fully_received;
  total_amount = 100_000;
  approval_level = 1;
  approved_by = some 8;
  approved_at = some 50;
  notes = none;
  created_by = 7;
  deleted = false;
  lines =
      record {
        id = 11;
        product_id = 5;
        uom_id = 1;
        qty_ordered = 1_000_000;
        qty_received = 1_000_000;
        line_status = LineStatus.closed_line;
      }
      ∷ [];
}

abbrev receipt : ReceiptStatus → ℕ → GoodsReceipt
receipt status qty = record {
  gr_number = codes "GR-202603-00001";
  po_id = 1;
  supplier_id = 3;
  warehouse_id = 2;
  status = status;
  receipt_date = 0;
  notes = none;
  confirmed_by = none;
  confirmed_at = none;
  created_by = 9;
  deleted = false;
  lines =
      record {
        po_line_id = 11;
        product_id = 5;
        qty_received = qty;
        uom_id = 1;
        unit_cost = 1000;
        batch_number = none;
        serial_number = none;
        notes = none;
      }
      ∷ [];
}

abbrev store : PurchaseStore
store = record {
  orders = (1, order) ∷ [];
  receipts =
      (1, receipt ReceiptStatus.confirmed 600_000)
      ∷ (2, receipt ReceiptStatus.confirmed 400_000)
      ∷ (3, receipt ReceiptStatus.draft 900_000)
      ∷ [];
  sequences = [];
  audit = [];
}

abbrev bills : ℕ → InvoiceLine
bills qty = record { product_id = 5; qty = qty; unit_price = 1000 }

-- Five hundredths more are accepted, and no more than that.
within : validate_and_throw three_way_matching_tolerance 1 (bills 1_050_000 ∷ []) store ≡ ok tt
unfolding validate_and_throw
within = refl

beyond :
    validate_and_throw three_way_matching_tolerance 1 (bills 1_050_001 ∷ []) store
    ≡ err (business business_rule_violation)
unfolding validate_and_throw
beyond = refl

validate_and_throw-ok_iff_example :
    (validate_and_throw 5 1 (bills 1_050_000 ∷ []) store ≡ ok tt) ↔ (
      All
        (IsMatched 5 order.lines (find_many (is_confirmed_for 1) store.receipts))
        (bills 1_050_000 ∷ [])
      × (total_invoice_amount (bills 1_050_000 ∷ []) * 100 ≤ order.total_amount * 10000 * 105))
validate_and_throw-ok_iff_example =
    validate_and_throw-ok_iff 5 1 (bills 1_050_000 ∷ []) store order refl refl
