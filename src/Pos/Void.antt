-- ===== src/Pos/Void.antt =====
-- `voidTransaction` of src/modules/pos/services/pos.service.ts.
use inventory_pos.Common.{
  ℕ, ◌+◌, ◌*◌, Bool, true, false, not, ◌&&◌, Option, none, some, List, [], ◌∷◌, ◌==◌, sum_of,
  if◌then◌else◌,
}
use inventory_pos.Common.Effects.{
  not_found, validation_error, concurrency_error, business, internal, Action, pure, gets, or_throw,
  throw_if, modify, ◌>>=◌, ◌>>◌,
}
use inventory_pos.Common.Int.{pos, ◌+ℤ◌}
use inventory_pos.Common.Table.{find_unique}
use inventory_pos.Common.Text.{Text, codes, text_eq}
use inventory_pos.Inventory.{InventoryEntry, InventoryLedger, running_qty_of}
use inventory_pos.Inventory.Stock.{
  StockEnv, newest, cost_of, unit_cost_of, cost_more, lock_refused, with_retries, retry_from,
}
use inventory_pos.Accounting.Store.{FiscalPeriod}
use inventory_pos.Accounting.Journal.{process_event}
use inventory_pos.Pos.Store.{
  Shift, voided, completed, SaleLine, PosTransaction, PosStore, status_eq,
}
use inventory_pos.Pos.{PosEnv, violation, pos_transaction, change_sale}
use inventory_pos.Pos.Payment.{
  pos_sale_lines, pos_event, is_cost_of, in_ledger, journal_cogs, open_period,
}

unfoldable pub void_entry :
    StockEnv
    → ℕ
    → PosTransaction
    → (warehouse user : ℕ) → SaleLine
    → InventoryLedger
    → InventoryEntry
unfolding newest ◌+ℤ◌
void_entry env id t warehouse user l es =
    let last = newest l.product_id warehouse es in
    let u = unit_cost_of last in
    record {
      product_id = l.product_id;
      warehouse_id = warehouse;
      transaction_type = codes "VOID";
      reference_type = codes "POS";
      reference_id = id;
      reference_number = t.transaction_number;
      movement_date = env.now;
      qty_in = l.qty;
      qty_out = 0;
      unit_cost = env.columns.unit u.amount u.per;
      total_cost = env.columns.cost (l.qty * u.amount) u.per;
      running_qty = running_qty_of last +ℤ pos l.qty;
      running_cost = cost_more env.columns (cost_of last) l.qty u;
      batch_number = none;
      serial_number = none;
      notes = none;
      created_by = user;
    }

-- The lines in the order in which they stand.
unfoldable pub return_lines :
    StockEnv
    → ℕ
    → PosTransaction
    → (warehouse user : ℕ) → List SaleLine
    → InventoryLedger
    → InventoryLedger
unfolding void_entry
return_lines env id t warehouse user [] es = es
return_lines env id t warehouse user (l ∷ ls) es =
    return_lines env id t warehouse user ls (void_entry env id t warehouse user l es ∷ es)

abbrev pub is_sale_cost_of : ℕ → InventoryEntry → Bool
is_sale_cost_of id e = is_cost_of id e && text_eq e.transaction_type (codes "SALES")

unfoldable pub sale_cogs : ℕ → InventoryLedger → ℕ
sale_cogs id es =
    sum_of (λ (e : InventoryEntry). if is_sale_cost_of id e then e.total_cost else 0) es

-- The reversal of a completed transaction, in an open period.
unfoldable pub journal_void :
    PosEnv → ℕ → PosTransaction → ℕ → Option (ℕ × FiscalPeriod) → Action PosStore (Unit {0})
unfolding pos_sale_lines process_event sale_cogs
journal_void env id t user none = pure tt
journal_void env id t user (some (period, p)) =
    let write : Action PosStore (Unit {0}) = (do
      built ← gets λ (s : PosStore). pos_sale_lines s.accounts t.total_amount t.tax_amount true
      lines ← or_throw (business validation_error) built
      in_ledger (
          process_event env.sale (
            pos_event (codes "POS_SALE_REVERSAL") (codes "POS_VOID") id t env.stock.now period
              t.total_amount lines user))
      cogs ← gets λ (s : PosStore). sale_cogs id s.inventory
      journal_cogs env.cogs cogs (
          pos_event (codes "POS_SALE_COGS_REVERSAL") (codes "POS_VOID") id t env.stock.now period
            cogs [] user)) in
    if status_eq t.status completed then write else pure tt

-- `version !== undefined && transaction.version !== version`
abbrev pub is_stale : Option ℕ → ℕ → Bool
is_stale none current = false
is_stale (some v) current = not (current == v)

abbrev pub voided_row : (now user : ℕ) → Text → PosTransaction → PosTransaction
voided_row now user reason t = record t {
  status = voided;
  void_reason = some reason;
  voided_by = some user;
  voided_at = some now;
  version = t.version + 1;
}

-- What is written once the guards have been passed; only the locks of the products can still throw.
abbrev pub void_writes :
    PosEnv → (id user : ℕ) → Text → ℕ → PosTransaction → Shift → Action PosStore (Unit {0})
void_writes env id user reason attempt sale shift = do
  modify λ (s : PosStore). record s {
    audit = record { user_id = user; entity_id = id; reason = reason } ∷ s.audit;
  }
  throw_if (lock_refused env.stock attempt sale.lines) internal
  change_sale id (voided_row env.stock.now user reason)
  modify λ (s : PosStore). record s {
    inventory = return_lines env.stock id sale shift.warehouse_id user sale.lines s.inventory;
  }
  period ← gets open_period
  journal_void env id sale user period

abbrev pub void_attempt : PosEnv → (id user : ℕ) → Text → Option ℕ → ℕ → Action PosStore (Unit {0})
void_attempt env id user reason version attempt = pos_transaction do
  found ← gets λ (s : PosStore). find_unique id s.sales
  sale ← or_throw (business not_found) found
  row ← gets λ (s : PosStore). find_unique sale.shift_id s.shifts
  shift ← or_throw internal row
  throw_if (status_eq sale.status voided) violation
  throw_if (sale.cashier_id == user) violation
  throw_if (is_stale version sale.version) (business concurrency_error)
  void_writes env id user reason attempt sale shift

unfoldable pub void_transaction :
    PosEnv → (id user : ℕ) → Text → Option ℕ → Action PosStore (Unit {0})
unfolding return_lines journal_void retry_from
void_transaction env id user reason version =
    with_retries env.stock (void_attempt env id user reason version)
