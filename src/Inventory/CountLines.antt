-- ===== src/Inventory/CountLines.antt =====
-- The lines of a count in src/modules/inventory/services/stock-opname.service.ts.
use inventory_pos.Common.{
  ℕ, Bool, true, false, not, ◌&&◌, Option, none, some, List, [], ◌∷◌, ◌++◌, ◌==◌, ltb, map, any,
  keep, if◌then◌else◌,
}
use inventory_pos.Common.Int.{pos, pos_part, sub_ℕ, ltb_ℤ, eqb_ℤ}
use inventory_pos.Common.Text.{codes}
use inventory_pos.Inventory.{InventoryEntry, InventoryLedger, qty_available}
use inventory_pos.Inventory.Stock.{
  Product, UnitCost, whole, AdjustmentLine, pending, counted, OpnameLine, newest, qty_of,
  unit_cost_of,
}

-- The products of a warehouse's entries, each once, as `groupBy` gives them.
unfoldable pub products_in : ℕ → InventoryLedger → List ℕ
products_in warehouse [] = []
products_in warehouse (e ∷ es) =
    let rest = products_in warehouse es in
    if e.warehouse_id == warehouse && not (any (λ p. p == e.product_id) rest)
    then e.product_id ∷ rest
    else rest

abbrev pub pending_line : ℕ → InventoryLedger → ℕ → OpnameLine
pending_line warehouse es product = record {
  product_id = product;
  qty_system = pos_part (qty_available product warehouse es);
  qty_counted = none;
  qty_difference = none;
  status = pending;
  recount_reason = none;
}

-- One line for every product of which there is stock.
abbrev pub initial_lines : ℕ → InventoryLedger → List OpnameLine
initial_lines warehouse es =
    map (pending_line warehouse es)
      (keep (λ p. ltb_ℤ (pos 0) (qty_available p warehouse es)) (products_in warehouse es))

pub record CountItem : Type 0 where
  pub product_id : ℕ
  pub qty_counted : ℕ

abbrev pub counted_line : CountItem → OpnameLine → OpnameLine
counted_line item line = record line {
  qty_counted = some item.qty_counted;
  qty_difference = some (sub_ℕ item.qty_counted line.qty_system);
  status = counted;
}

abbrev pub found_line : CountItem → OpnameLine
found_line item = record {
  product_id = item.product_id;
  qty_system = 0;
  qty_counted = some item.qty_counted;
  qty_difference = some (pos item.qty_counted);
  status = counted;
  recount_reason = none;
}

abbrev pub has_line : ℕ → List OpnameLine → Bool
has_line product lines = any (λ (l : OpnameLine). l.product_id == product) lines

-- The first line of the product, which is the one that `find` gives.
abbrev pub count_line : CountItem → List OpnameLine → List OpnameLine
count_line item [] = []
count_line item (l ∷ ls) =
    if l.product_id == item.product_id then counted_line item l ∷ ls else l ∷ count_line item ls

-- The loop over the items: `known` are the lines that were read before the loop.
unfoldable pub count_items : List OpnameLine → List CountItem → List OpnameLine → List OpnameLine
count_items known [] lines = lines
count_items known (item ∷ items) lines = count_items known items (
    if has_line item.product_id known then count_line item lines else lines ++ found_line item ∷ [])

abbrev pub recount_line : List ℕ → OpnameLine → OpnameLine
recount_line products l =
    if any (λ p. p == l.product_id) products
    then record l { status = pending; recount_reason = some (codes "Recount requested") }
    else l

abbrev pub is_pending : OpnameLine → Bool
is_pending l = elim l.status [ pending ↦ true | counted ↦ false ]

-- `l.qty_difference && Number(l.qty_difference) !== 0`
abbrev pub differs : OpnameLine → Bool
differs l = elim l.qty_difference [ none ↦ false | some d ↦ not (eqb_ℤ d (pos 0)) ]

abbrev pub counted_qty : OpnameLine → ℕ
counted_qty l = elim l.qty_counted [ none ↦ 0 | some n ↦ n ]

-- The cost of the stock, or the standard cost of the product.
abbrev pub counting_cost : Option InventoryEntry → Product → UnitCost
counting_cost last p = if ltb 0 (qty_of last) then unit_cost_of last else whole p.standard_cost

abbrev pub adjusting_line : ℕ → OpnameLine → Product → InventoryLedger → AdjustmentLine
adjusting_line warehouse l p es = record {
  product_id = l.product_id;
  uom_id = p.uom_id;
  qty_system = l.qty_system;
  qty_actual = counted_qty l;
  unit_cost = counting_cost (newest l.product_id warehouse es) p;
}
