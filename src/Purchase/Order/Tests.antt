-- ===== src/Purchase/Order/Tests.antt =====
-- The order service at concrete inputs.
use inventory_pos.Common.{ℕ, ◌+◌, ◌≡◌, refl, none, List, [], ◌∷◌, All, arith}
use inventory_pos.Purchase.Store.{PoLine, LineStatus, ReceiptLine}
use inventory_pos.Purchase.Order.Receive.{receive_lines}
use inventory_pos.Purchase.Order.Receive.Quantities.{
  received_on, brought_for, IsBounded, receive_lines-IsBounded,
}
use inventory_pos.Purchase.Order.Receive.Conserve.{receive_lines_conserves, receive_lines_repeated}

abbrev lines : List PoLine
lines =
    record {
      id = 11;
      product_id = 5;
      uom_id = 1;
      qty_ordered = 100;
      qty_received = 40;
      line_status = LineStatus.partial_line;
    }
    ∷ record {
      id = 12;
      product_id = 6;
      uom_id = 1;
      qty_ordered = 50;
      qty_received = 0;
      line_status = LineStatus.open_line;
    }
    ∷ []

abbrev brings : ℕ → ℕ → ReceiptLine
brings id qty = record {
  po_line_id = id;
  product_id = 5;
  qty_received = qty;
  uom_id = 1;
  unit_cost = 300;
  batch_number = none;
  serial_number = none;
  notes = none;
}

abbrev receipt : List ReceiptLine
receipt = brings 12 50 ∷ brings 11 60 ∷ []

receive_lines-IsBounded_example : All IsBounded (receive_lines lines receipt lines)
receive_lines-IsBounded_example =
    receive_lines-IsBounded lines receipt (omega arith, (omega arith, tt)) refl

receive_lines_conserves_example :
    received_on 11 (receive_lines lines receipt lines)
    ≡ received_on 11 lines + brought_for 11 receipt
receive_lines_conserves_example =
    receive_lines_conserves 11 lines receipt ((omega arith, tt), (tt, tt)) refl

receive_lines_repeated_example :
    received_on 11 (receive_lines lines (brings 11 60 ∷ brings 11 10 ∷ []) lines)
    ≡ received_on 11 lines + 10
receive_lines_repeated_example =
    receive_lines_repeated lines (brings 11 60) (brings 11 10) refl refl
