-- ===== src/Pos/Closing.antt =====
-- `closeShift` and `forceCloseShift` of src/modules/pos/services/pos.service.ts.
use inventory_pos.Common.{
  ℕ, Bool, false, not, ◌&&◌, Option, none, some, List, [], ◌∷◌, ◌==◌, length, sum_of, if◌then◌else◌,
}
use inventory_pos.Common.Effects.{
  not_found, validation_error, business, denied, Action, pure, gets, or_throw, throw_if, modify,
  ◌>>=◌, ◌>>◌,
}
use inventory_pos.Common.Int.{ℤ, pos, sub_ℕ, ◌+ℤ◌, ◌-ℤ◌}
use inventory_pos.Common.Table.{Table, find_unique, find_many, update}
use inventory_pos.Pos.Store.{
  ShiftStatus, Shift, SaleStatus, completed, cancelled, Method, cash, card, transfer, PosPayment,
  PosTransaction, PosStore, is_open_shift, status_eq, method_eq,
}
use inventory_pos.Pos.{violation, pos_transaction, open_only}

pub record ShiftReport : Type 0 where
  pub shift_id : ℕ
  pub total_transactions : ℕ
  pub total_sales : ℕ
  pub cash_sales : ℤ
  pub card_sales : ℕ
  pub transfer_sales : ℕ
  pub cash_difference : ℤ

abbrev pub is_completed_in : ℕ → PosTransaction → Bool
is_completed_in id t = (t.shift_id == id) && status_eq t.status completed

abbrev pub paid_by : Method → PosTransaction → ℕ
paid_by m t = sum_of (λ (p : PosPayment). if method_eq p.method m then p.amount else 0) t.payments

abbrev pub sales_by : Method → List PosTransaction → ℕ
sales_by m ts = sum_of (paid_by m) ts

-- The cash that came in, less the change that was given.
unfoldable pub cash_sales : List PosTransaction → ℤ
cash_sales ts = sub_ℕ (sales_by cash ts) (sum_of (λ (t : PosTransaction). t.change_amount) ts)

unfoldable pub report_of : ℕ → Shift → ℤ → List PosTransaction → ShiftReport
unfolding cash_sales ◌+ℤ◌ ◌-ℤ◌
report_of id shift closing ts = record {
  shift_id = id;
  total_transactions = length ts;
  total_sales = sum_of (λ (t : PosTransaction). t.total_amount) ts;
  cash_sales = cash_sales ts;
  card_sales = sales_by card ts;
  transfer_sales = sales_by transfer ts;
  cash_difference = closing -ℤ (pos shift.opening_balance +ℤ cash_sales ts);
}

abbrev pub closed_shift : ℕ → Shift → ℤ → List PosTransaction → Shift → Shift
closed_shift now shift closing ts row = record row {
  status = ShiftStatus.closed;
  closed_at = some now;
  closing_balance = some closing;
  expected_balance = some (pos shift.opening_balance +ℤ cash_sales ts);
  difference = some (closing -ℤ (pos shift.opening_balance +ℤ cash_sales ts));
}

-- The totals, the update of the shift, and the report.
abbrev pub settle : (now id : ℕ) → Shift → ℤ → Action PosStore ShiftReport
settle now id shift closing = do
  ts ← gets λ (s : PosStore). find_many (is_completed_in id) s.sales
  modify
      λ (s : PosStore). record s { shifts = update id (closed_shift now shift closing ts) s.shifts }
  pure (report_of id shift closing ts)

-- The user of the request, with the branch, and whether POS.DELETE is granted.
pub record ClosingUser : Type 0 where
  pub sub : ℕ
  pub branch_id : Option ℕ
  pub can_force : Bool

abbrev pub is_elsewhere : Option ℕ → Shift → Bool
is_elsewhere none shift = false
is_elsewhere (some b) shift = not (shift.branch_id == b)

abbrev pub check_user : Option ClosingUser → Shift → Action PosStore (Unit {0})
check_user none shift = pure tt
check_user (some user) shift = do
  throw_if (is_elsewhere user.branch_id shift) denied
  throw_if (not (shift.cashier_id == user.sub) && not user.can_force) denied

unfoldable pub close_shift : (now id : ℕ) → ℤ → Option ClosingUser → Action PosStore ShiftReport
unfolding report_of
close_shift now id closing user = pos_transaction do
  found ← gets λ (s : PosStore). open_only (find_unique id s.shifts)
  shift ← or_throw (business validation_error) found
  check_user user shift
  settle now id shift closing

abbrev pub cancel_open : ℕ → PosTransaction → PosTransaction
cancel_open id t =
    if (t.shift_id == id) && status_eq t.status SaleStatus.open_
    then record t { status = cancelled }
    else t

-- `updateMany`
abbrev pub cancel_all : ℕ → Table PosTransaction → Table PosTransaction
cancel_all id [] = []
cancel_all id ((j, t) ∷ rows) = (j, cancel_open id t) ∷ cancel_all id rows

-- The supervisor and the reason are only logged.
unfoldable pub force_close_shift : (now id : ℕ) → ℤ → Action PosStore ShiftReport
unfolding report_of
force_close_shift now id closing = pos_transaction do
  found ← gets λ (s : PosStore). find_unique id s.shifts
  shift ← or_throw (business not_found) found
  throw_if (not (is_open_shift shift.status)) violation
  modify λ (s : PosStore). record s { sales = cancel_all id s.sales }
  settle now id shift closing
