-- ===== src/Pos.antt =====
-- src/modules/pos/services/pos.service.ts: shifts, and the life of a transaction but for its items, its
-- payment and its voiding. A number is taken outside of the transaction that asks for it, so a throw
-- gives back everything but the counters.
pub mod Store
pub mod Item
pub mod Payment
pub mod Void
pub mod Closing
pub mod Kept
pub mod Settled
pub mod Calls
pub mod Uncosted
pub mod Report
mod Tests
use inventory_pos.Common.{
  ℕ, ◌+◌, ◌-◌, Bool, true, false, not, ◌&&◌, ◌||◌, Option, none, some, List, [], ◌∷◌, ◌==◌, ltb,
  leb, length, map, sum_of, if◌then◌else◌,
}
use inventory_pos.Common.Effects.{
  ErrorCode, not_found, validation_error, business_rule_violation, concurrency_error, Error,
  business, denied, internal, Action, Result, ok, err, pure, gets, or_throw, throw_if, modify,
  on_part, ◌>>=◌, ◌>>◌,
}
use inventory_pos.Common.Int.{ℤ, pos, sub_ℕ, ◌+ℤ◌, ◌-ℤ◌}
use inventory_pos.Common.Table.{Table, find_unique, find_first, find_many, update}
use inventory_pos.Common.Text.{Text}
use inventory_pos.Numbering.{DocumentType, Sequences, generate}
use inventory_pos.Master.{Party}
use inventory_pos.Inventory.Stock.{StockEnv}
use inventory_pos.Accounting.Store.{Ledger}
use inventory_pos.Accounting.Journal
use inventory_pos.Pos.Store.{
  ShiftStatus, Shift, SaleStatus, held, completed, cancelled, Method, cash, card, transfer, edc,
  PosPayment, PosTransaction, Customer, PosStore, is_open_shift, status_eq, method_eq,
}

-- The machine and the database: `stock` as for the stock ledger, and the journal engine's environment for
-- the first and the second entry of a call.
pub record PosEnv : Type 0 where
  pub stock : StockEnv
  pub sale : Journal.Env
  pub cogs : Journal.Env

abbrev pub violation : Error
violation = business business_rule_violation

abbrev pub set_sequences : Sequences → PosStore → PosStore
set_sequences q s = record s { sequences = q }

abbrev pub set_ledger : Ledger → PosStore → PosStore
set_ledger l s = record s { ledger = l }

abbrev pub keep_numbers : {A : Type 0} → PosStore → Result A × PosStore → Result A × PosStore
keep_numbers s (ok a, s') = (ok a, s')
keep_numbers s (err e, s') = (
  err e,
  set_sequences s'.sequences (set_ledger (record s.ledger { sequences = s'.ledger.sequences }) s),
)

abbrev pub pos_transaction : {A : Type 0} → Action PosStore A → Action PosStore A
pos_transaction m s = keep_numbers s (m s)

abbrev pub next_number : PosEnv → DocumentType → Action PosStore Text
next_number env type =
    on_part (λ (s : PosStore). s.sequences) set_sequences
      (generate (env.stock.db 1) type (env.stock.local_day env.stock.now))

pub record OpenShift : Type 0 where
  pub cashier_id : ℕ
  pub branch_id : Option ℕ
  pub warehouse_id : Option ℕ
  pub opening_balance : ℕ

-- `x || y`: a missing id and the nil id, which is 0 here, give way.
abbrev pub or_else : Option ℕ → ℕ → ℕ
or_else none d = d
or_else (some i) d = if i == 0 then d else i

abbrev pub id_of : Option (ℕ × Party) → Option ℕ
id_of none = none
id_of (some (i, p)) = some i

abbrev pub active_id : (Party → Bool) → Table Party → Option ℕ
active_id p rows = id_of (find_first (λ (r : Party). p r && r.is_active) rows)

abbrev pub home_of : Option (Option ℕ) → Option ℕ
home_of none = none
home_of (some b) = b

unfoldable pub shift_branch : OpenShift → PosStore → ℕ
shift_branch data_ s = or_else data_.branch_id (
    or_else (home_of (find_unique data_.cashier_id s.user_branches))
      (or_else (active_id (λ r. true) s.branches) 0))

unfoldable pub shift_warehouse : OpenShift → ℕ → PosStore → ℕ
shift_warehouse data_ branch s = or_else data_.warehouse_id (
    or_else (active_id (λ (r : Party). r.home == branch) s.warehouses)
      (or_else (active_id (λ r. true) s.warehouses) 0))

abbrev pub new_shift : PosEnv → OpenShift → ℕ → ℕ → Text → Shift
new_shift env data_ branch warehouse number = record {
  shift_number = number;
  cashier_id = data_.cashier_id;
  branch_id = branch;
  warehouse_id = warehouse;
  status = ShiftStatus.open_;
  opened_at = env.stock.now;
  closed_at = none;
  opening_balance = data_.opening_balance;
  closing_balance = none;
  expected_balance = none;
  difference = none;
}

abbrev pub is_there : {A : Type 0} → Option A → Bool
is_there none = false
is_there (some a) = true

-- The database refuses an id that is taken.
abbrev pub insert_shift : ℕ → Shift → Action PosStore Shift
insert_shift id shift s =
    if is_there (find_unique id s.shifts)
    then (err internal, s)
    else (ok shift, record s { shifts = (id, shift) ∷ s.shifts })

abbrev pub is_open_for : ℕ → Shift → Bool
is_open_for cashier shift = (shift.cashier_id == cashier) && is_open_shift shift.status

unfoldable pub open_shift : PosEnv → OpenShift → Action PosStore Shift
unfolding shift_branch shift_warehouse generate
open_shift env data_ = pos_transaction do
  active ← gets λ (s : PosStore). find_first (is_open_for data_.cashier_id) s.shifts
  throw_if (is_there active) violation
  branch ← gets (shift_branch data_)
  warehouse ← gets (shift_warehouse data_ branch)
  number ← next_number env DocumentType.shf
  insert_shift env.stock.new_id (new_shift env data_ branch warehouse number)

abbrev pub open_only : Option Shift → Option Shift
open_only none = none
open_only (some shift) = if is_open_shift shift.status then some shift else none

abbrev pub is_over_limit : Customer → Bool
is_over_limit c = ltb 0 c.credit_limit && leb c.credit_limit c.outstanding_balance

-- GAP-26: the customer's credit.
abbrev pub check_customer : Option ℕ → Action PosStore (Unit {0})
check_customer none = pure tt
check_customer (some id) = do
  found ← gets λ (s : PosStore). find_unique id s.customers
  customer ← or_throw (business not_found) found
  throw_if (is_over_limit customer) violation

abbrev pub new_transaction : PosEnv → ℕ → Shift → Option ℕ → Text → PosTransaction
new_transaction env shift_id shift customer number = record {
  transaction_number = number;
  shift_id = shift_id;
  cashier_id = shift.cashier_id;
  customer_id = customer;
  transaction_date = env.stock.now;
  status = SaleStatus.open_;
  subtotal = 0;
  tax_amount = 0;
  total_amount = 0;
  paid_amount = 0;
  change_amount = 0;
  void_reason = none;
  voided_by = none;
  voided_at = none;
  version = 1;
  lines = [];
  payments = [];
}

abbrev pub insert_transaction : ℕ → PosTransaction → Action PosStore PosTransaction
insert_transaction id t s =
    if is_there (find_unique id s.sales)
    then (err internal, s)
    else (ok t, record s { sales = (id, t) ∷ s.sales })

unfoldable pub create_transaction : PosEnv → ℕ → Option ℕ → Action PosStore PosTransaction
unfolding generate
create_transaction env shift_id customer = pos_transaction do
  found ← gets λ (s : PosStore). open_only (find_unique shift_id s.shifts)
  shift ← or_throw (business validation_error) found
  check_customer customer
  number ← next_number env DocumentType.pos
  insert_transaction env.stock.new_id (new_transaction env shift_id shift customer number)

abbrev pub change_sale : ℕ → (PosTransaction → PosTransaction) → Action PosStore (Unit {0})
change_sale id f = modify λ (s : PosStore). record s { sales = update id f s.sales }

abbrev pub with_status : SaleStatus → Option PosTransaction → Option PosTransaction
with_status c none = none
with_status c (some t) = if status_eq t.status c then some t else none

-- A transaction that is not there is answered like one in another status.
abbrev pub move : SaleStatus → SaleStatus → ℕ → ℕ → Action PosStore (Unit {0})
move from to id version = pos_transaction do
  found ← gets λ (s : PosStore). with_status from (find_unique id s.sales)
  sale ← or_throw violation found
  throw_if (not (sale.version == version)) (business concurrency_error)
  change_sale id λ t. record t { status = to; version = t.version + 1 }

unfoldable pub hold_transaction : ℕ → ℕ → Action PosStore (Unit {0})
hold_transaction id version = move SaleStatus.open_ held id version

unfoldable pub resume_transaction : ℕ → ℕ → Action PosStore (Unit {0})
resume_transaction id version = move held SaleStatus.open_ id version
