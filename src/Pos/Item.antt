-- ===== src/Pos/Item.antt =====
-- `addItem` of src/modules/pos/services/pos.service.ts.
use inventory_pos.Common.{ℕ, ◌+◌, ◌-◌, ◌*◌, ◌/◌, Bool, not, Option, none, ◌∷◌, ◌==◌, if◌then◌else◌}
use inventory_pos.Common.Effects.{
  not_found, insufficient_stock, concurrency_error, business, internal, Action, pure, gets,
  or_throw, throw_if, modify, ◌>>=◌, ◌>>◌,
}
use inventory_pos.Common.Int.{pos, ◌-ℤ◌, ltb_ℤ}
use inventory_pos.Common.Table.{find_unique}
use inventory_pos.Common.Text.{codes}
use inventory_pos.Inventory.{InventoryEntry, InventoryLedger, qty_available}
use inventory_pos.Inventory.Stock.{
  StockEnv, newest, cost_of, unit_cost_of, cost_less, with_retries, retry_from,
}
use inventory_pos.Pos.Store.{SaleStatus, SaleLine, PosTransaction, PosStore, status_eq}
use inventory_pos.Pos.{PosEnv, violation, pos_transaction, change_sale}

-- POSLineItemDTO; a missing discount or tax is 0, and so is a missing flag false.
pub record LineItem : Type 0 where
  pub product_id : ℕ
  pub qty : ℕ
  pub uom_id : ℕ
  pub unit_price : ℕ
  pub discount_pct : ℕ
  pub tax_pct : ℕ
  pub price_override : Bool
  pub price_override_by : Option ℕ
  pub version : ℕ

-- `Math.round` of a quotient.
unfoldable pub round_div : ℕ → ℕ → ℕ
round_div n d = (2 * n + d) / (2 * d)

-- round2(discount_pct / 100 * (qty * unit_price))
abbrev pub discount_of : LineItem → ℕ
discount_of item = round_div (item.discount_pct * (item.qty * item.unit_price)) (10_000 * 1_000_000)

-- round2(qty * unit_price - discount)
abbrev pub net_of : LineItem → ℕ
net_of item = round_div (item.qty * item.unit_price - discount_of item * 1_000_000) 1_000_000

-- round2(net * (tax_pct / 100))
abbrev pub tax_of : LineItem → ℕ
tax_of item = round_div (net_of item * item.tax_pct) 10_000

abbrev pub override_by : LineItem → Option ℕ
override_by item = if item.price_override then item.price_override_by else none

unfoldable pub sale_line : LineItem → SaleLine
unfolding round_div
sale_line item = record {
  product_id = item.product_id;
  qty = item.qty;
  uom_id = item.uom_id;
  unit_price = item.unit_price;
  price_override = item.price_override;
  price_override_by = override_by item;
  discount_pct = item.discount_pct;
  discount_amount = discount_of item;
  tax_pct = item.tax_pct;
  tax_amount = tax_of item;
  line_total = net_of item;
}

abbrev pub with_line : SaleLine → PosTransaction → PosTransaction
with_line l t = record t {
  subtotal = t.subtotal + l.line_total;
  tax_amount = t.tax_amount + l.tax_amount;
  total_amount = t.total_amount + (l.line_total + l.tax_amount);
  version = t.version + 1;
  lines = l ∷ t.lines;
}

unfoldable pub sale_entry :
    StockEnv → ℕ → PosTransaction → ℕ → LineItem → InventoryLedger → InventoryEntry
unfolding qty_available newest ◌-ℤ◌
sale_entry env id t warehouse item es =
    let last = newest item.product_id warehouse es in
    let u = unit_cost_of last in
    record {
      product_id = item.product_id;
      warehouse_id = warehouse;
      transaction_type = codes "SALES";
      reference_type = codes "POS";
      reference_id = id;
      reference_number = t.transaction_number;
      movement_date = env.now;
      qty_in = 0;
      qty_out = item.qty;
      unit_cost = env.columns.unit u.amount u.per;
      total_cost = env.columns.cost (item.qty * u.amount) u.per;
      running_qty = qty_available item.product_id warehouse es -ℤ pos item.qty;
      running_cost = cost_less env.columns (cost_of last) item.qty u;
      batch_number = none;
      serial_number = none;
      notes = none;
      created_by = t.cashier_id;
    }

-- The balance is less than what is sold.
abbrev pub is_short : ℕ → LineItem → InventoryLedger → Bool
is_short warehouse item es = ltb_ℤ (qty_available item.product_id warehouse es) (pos item.qty)

abbrev pub item_attempt : PosEnv → ℕ → LineItem → ℕ → Action PosStore PosTransaction
item_attempt env id item attempt = pos_transaction do
  found ← gets λ (s : PosStore). find_unique id s.sales
  sale ← or_throw (business not_found) found
  row ← gets λ (s : PosStore). find_unique sale.shift_id s.shifts
  shift ← or_throw internal row
  throw_if (not (status_eq sale.status SaleStatus.open_)) violation
  throw_if (not (sale.version == item.version)) (business concurrency_error)
  throw_if (env.stock.is_refused attempt) internal
  short ← gets λ (s : PosStore). is_short shift.warehouse_id item s.inventory
  throw_if short (business insufficient_stock)
  change_sale id (with_line (sale_line item))
  modify λ (s : PosStore). record s {
    inventory = sale_entry env.stock id sale shift.warehouse_id item s.inventory ∷ s.inventory;
  }
  pure (with_line (sale_line item) sale)

unfoldable pub add_item : PosEnv → ℕ → LineItem → Action PosStore PosTransaction
unfolding sale_line sale_entry qty_available retry_from
add_item env id item = with_retries env.stock (item_attempt env id item)
