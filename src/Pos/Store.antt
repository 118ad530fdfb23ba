-- ===== src/Pos/Store.antt =====
-- The tables of src/modules/pos. Money is in hundredths, quantities and unit prices in ten-thousandths,
-- percentages in hundredths. The DTOs keep amounts at 0 or above, and a discount at 100% at most.
use inventory_pos.Common.{ℕ, Bool, true, false, Option, List}
use inventory_pos.Common.Int.{ℤ}
use inventory_pos.Common.Table.{Table}
use inventory_pos.Common.Text.{Text}
use inventory_pos.Numbering.{Sequences}
use inventory_pos.Master.{Party}
use inventory_pos.Inventory.{InventoryLedger}
use inventory_pos.Accounting.Store.{Ledger}

pub data ShiftStatus : Type 0 where
  open_ closed : ShiftStatus

pub record Shift : Type 0 where
  pub shift_number : Text
  pub cashier_id : ℕ
  pub branch_id : ℕ
  pub warehouse_id : ℕ
  pub status : ShiftStatus
  pub opened_at : ℕ
  pub closed_at : Option ℕ
  pub opening_balance : ℕ
  pub closing_balance : Option ℤ
  pub expected_balance : Option ℤ
  pub difference : Option ℤ

pub data SaleStatus : Type 0 where
  open_ held completed voided cancelled : SaleStatus

pub record SaleLine : Type 0 where
  pub product_id : ℕ
  pub qty : ℕ
  pub uom_id : ℕ
  pub unit_price : ℕ
  pub price_override : Bool
  pub price_override_by : Option ℕ
  pub discount_pct : ℕ
  pub discount_amount : ℕ
  pub tax_pct : ℕ
  pub tax_amount : ℕ
  pub line_total : ℕ

pub data Method : Type 0 where
  cash card transfer edc : Method

-- With the type of its method in place of the method's id.
pub record PosPayment : Type 0 where
  pub method : Method
  pub amount : ℕ
  pub reference_number : Option Text

-- The transaction's own discount stays 0.
pub record PosTransaction : Type 0 where
  pub transaction_number : Text
  pub shift_id : ℕ
  pub cashier_id : ℕ
  pub customer_id : Option ℕ
  pub transaction_date : ℕ
  pub status : SaleStatus
  pub subtotal : ℕ
  pub tax_amount : ℕ
  pub total_amount : ℕ
  pub paid_amount : ℕ
  pub change_amount : ℕ
  pub void_reason : Option Text
  pub voided_by : Option ℕ
  pub voided_at : Option ℕ
  pub version : ℕ
  pub lines : List SaleLine
  pub payments : List PosPayment

pub record Customer : Type 0 where
  pub credit_limit : ℕ
  pub outstanding_balance : ℕ

-- The ids of the accounts with the codes 1.101.001, 4.101.000 and 2.102.001.
pub record PosAccounts : Type 0 where
  pub cash : Option ℕ
  pub revenue : Option ℕ
  pub tax : Option ℕ

pub record AuditEntry : Type 0 where
  pub user_id : ℕ
  pub entity_id : ℕ
  pub reason : Text

pub record PosStore : Type 0 where
  pub shifts : Table Shift
  pub sales : Table PosTransaction
  pub customers : Table Customer
  pub user_branches : Table (Option ℕ)
  pub branches : Table Party
  pub warehouses : Table Party
  pub methods : List Method
  pub accounts : PosAccounts
  pub inventory : InventoryLedger
  pub ledger : Ledger
  pub sequences : Sequences
  pub audit : List AuditEntry

abbrev pub is_open_shift : ShiftStatus → Bool
is_open_shift open_ = true
is_open_shift closed = false

abbrev pub status_eq : SaleStatus → SaleStatus → Bool
status_eq open_ open_ = true
status_eq held held = true
status_eq completed completed = true
status_eq voided voided = true
status_eq cancelled cancelled = true
status_eq _ _ = false

abbrev pub method_eq : Method → Method → Bool
method_eq cash cash = true
method_eq card card = true
method_eq transfer transfer = true
method_eq edc edc = true
method_eq _ _ = false
