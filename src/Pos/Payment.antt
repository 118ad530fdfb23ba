-- ===== src/Pos/Payment.antt =====
-- `applyPayment` of src/modules/pos/services/pos.service.ts.
use inventory_pos.Common.{
  ℕ, ◌+◌, ◌-◌, Bool, false, not, ◌&&◌, Option, none, some, List, [], ◌∷◌, ◌==◌, ltb, any, sum_of,
  if◌then◌else◌,
}
use inventory_pos.Common.Effects.{
  not_found, validation_error, concurrency_error, business, Action, pure, gets, or_throw, throw_if,
  on_part, ◌>>=◌, ◌>>◌,
}
use inventory_pos.Common.Int.{ℤ, pos, sub_ℕ}
use inventory_pos.Common.Table.{find_unique, find_first}
use inventory_pos.Common.Text.{Text, codes, text_eq}
use inventory_pos.Inventory.{InventoryEntry, InventoryLedger}
use inventory_pos.Accounting.Store.{FiscalPeriod, JournalLine, Ledger}
use inventory_pos.Accounting.Period.{is_open}
use inventory_pos.Accounting.Journal
use inventory_pos.Accounting.Journal.{BusinessEvent, process_event}
use inventory_pos.Pos.Store.{
  SaleStatus, completed, Method, PosPayment, PosTransaction, PosAccounts, PosStore, status_eq,
  method_eq,
}
use inventory_pos.Pos.{PosEnv, violation, set_ledger, pos_transaction, change_sale}

-- PaymentMethodDTO
pub record Tender : Type 0 where
  pub method : Method
  pub amount : ℕ
  pub reference : Option Text
  pub version : ℕ

-- `payments[0]?.version || transaction.version`
abbrev pub expected_version : List Tender → ℕ → ℕ
expected_version [] current = current
expected_version (p ∷ ps) current = if p.version == 0 then current else p.version

abbrev pub is_unknown : List Method → Tender → Bool
is_unknown methods p = not (any (method_eq p.method) methods)

abbrev pub payment_of : Tender → PosPayment
payment_of p = record { method = p.method; amount = p.amount; reference_number = p.reference }

abbrev pub add_payments : List Tender → List PosPayment → List PosPayment
add_payments [] old = old
add_payments (p ∷ ps) old = add_payments ps (payment_of p ∷ old)

abbrev pub total_tendered : List Tender → ℕ
total_tendered ps = sum_of (λ (p : Tender). p.amount) ps

abbrev pub paid_with : List Tender → PosTransaction → PosTransaction → PosTransaction
paid_with ps seen t = record t {
  payments = add_payments ps t.payments;
  paid_amount = total_tendered ps;
  change_amount = total_tendered ps - seen.total_amount;
  status = completed;
  version = t.version + 1;
}

-- One of the three lines of buildPosSaleJournalLines; the amounts are whole hundredths already.
abbrev pub pos_line : ℕ → Text → ℤ → ℤ → JournalLine
pos_line account description debit credit = record {
  account_id = account;
  cost_center_id = none;
  description = some description;
  debit = debit;
  credit = credit;
}

abbrev pub lines_with :
    (cash revenue tax : ℕ) → (total subtotal tax_amount : ℤ) → Bool → List JournalLine
lines_with cash revenue tax total subtotal tax_amount reverse =
    pos_line cash (codes "Penerimaan kas POS") (if reverse then pos 0 else total)
      (if reverse then total else pos 0)
    ∷ pos_line revenue (codes "Pendapatan penjualan POS") (if reverse then subtotal else pos 0)
        (if reverse then pos 0 else subtotal)
    ∷ pos_line tax (codes "PPN Keluaran") (if reverse then tax_amount else pos 0)
        (if reverse then pos 0 else tax_amount)
    ∷ []

-- None when one of the accounts is missing.
abbrev pub both : Option ℕ → Option ℕ → Option (ℕ × ℕ)
both (some a) (some b) = some (a, b)
both _ _ = none

abbrev pub with_accounts :
    Option ℕ → Option (ℕ × ℕ) → (total subtotal tax_amount : ℤ) → Bool → Option (List JournalLine)
with_accounts (some c) (some (r, t)) total subtotal tax_amount reverse =
    some (lines_with c r t total subtotal tax_amount reverse)
with_accounts _ _ total subtotal tax_amount reverse = none

-- buildPosSaleJournalLines, with the subtotal that its callers compute.
unfoldable pub pos_sale_lines : PosAccounts → (total tax : ℕ) → Bool → Option (List JournalLine)
pos_sale_lines accounts total tax reverse =
    with_accounts accounts.cash (both accounts.revenue accounts.tax) (pos total) (sub_ℕ total tax)
      (pos tax) reverse

-- An event of the transaction.
abbrev pub pos_event :
    (type reference : Text)
    → (id : ℕ) → PosTransaction
    → (now period : ℕ) → ℕ
    → List JournalLine
    → ℕ
    → BusinessEvent
pos_event type reference id t now period amount lines user = record {
  event_type = type;
  reference_type = reference;
  reference_id = id;
  reference_number = t.transaction_number;
  entry_date = now;
  period_id = period;
  amount = pos amount;
  lines = lines;
  created_by = user;
}

abbrev pub is_cost_of : ℕ → InventoryEntry → Bool
is_cost_of id e = text_eq e.reference_type (codes "POS_TRANSACTION") && (e.reference_id == id)

-- The cost of the goods, of the ledger entries for the reference POS_TRANSACTION.
unfoldable pub total_cogs : ℕ → InventoryLedger → ℕ
total_cogs id es = sum_of (λ (e : InventoryEntry). if is_cost_of id e then e.total_cost else 0) es

abbrev pub in_ledger : {A : Type 0} → Action Ledger A → Action PosStore A
in_ledger = on_part (λ (s : PosStore). s.ledger) set_ledger

-- `if (totalCogs > 0)`
abbrev pub journal_cogs : Journal.Env → ℕ → BusinessEvent → Action PosStore (Unit {0})
journal_cogs env amount event =
    if ltb 0 amount then in_ledger (process_event env event) >> pure tt else pure tt

-- Without an open period nothing is journalled.
unfoldable pub journal_sale :
    PosEnv → ℕ → PosTransaction → Option (ℕ × FiscalPeriod) → Action PosStore (Unit {0})
unfolding pos_sale_lines process_event total_cogs
journal_sale env id t none = pure tt
journal_sale env id t (some (period, p)) = do
  built ← gets λ (s : PosStore). pos_sale_lines s.accounts t.total_amount t.tax_amount false
  lines ← or_throw (business validation_error) built
  in_ledger (
      process_event env.sale (
        pos_event (codes "POS_SALE") (codes "POS_TRANSACTION") id t env.stock.now period
          t.total_amount lines t.cashier_id))
  cogs ← gets λ (s : PosStore). total_cogs id s.inventory
  journal_cogs env.cogs cogs (
      pos_event (codes "POS_SALE_COGS") (codes "POS_TRANSACTION") id t env.stock.now period cogs []
        t.cashier_id)

abbrev pub open_period : PosStore → Option (ℕ × FiscalPeriod)
open_period s = find_first is_open s.ledger.periods

-- The new row is what the receipt shows.
unfoldable pub apply_payment : PosEnv → ℕ → List Tender → Action PosStore PosTransaction
unfolding journal_sale
apply_payment env id ps = pos_transaction do
  found ← gets λ (s : PosStore). find_unique id s.sales
  sale ← or_throw (business not_found) found
  throw_if (not (status_eq sale.status SaleStatus.open_)) violation
  throw_if (not (sale.version == expected_version ps sale.version)) (business concurrency_error)
  methods ← gets λ (s : PosStore). s.methods
  throw_if (any (is_unknown methods) ps) (business validation_error)
  throw_if (ltb (total_tendered ps) sale.total_amount) (business validation_error)
  change_sale id (paid_with ps sale)
  period ← gets open_period
  journal_sale env id (paid_with ps sale sale) period
  pure (paid_with ps sale sale)
