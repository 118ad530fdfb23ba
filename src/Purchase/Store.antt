-- ===== src/Purchase/Store.antt =====
-- The tables that the services of src/modules/purchase and the approval engine share. Quantities are
-- in ten-thousandths (`@db.Decimal(18, 4)`), stored money in hundredths (`@db.Decimal(18, 2)`).
use inventory_pos.Common.{ℕ, Bool, Option, none, some, List, ◌∷◌, ◌++◌, ◌==◌, length}
use inventory_pos.Common.Table.{Table}
use inventory_pos.Common.Text.{Text, trim}
use inventory_pos.Numbering.{Sequences}

pub data PoStatus : Type 0 where
  draft pending_approval approved rejected : PoStatus
  partially_received fully_received cancelled closed : PoStatus

pub data LineStatus : Type 0 where
  open_line partial_line closed_line : LineStatus

pub record PoLine : Type 0 where
  pub id : ℕ
  pub product_id : ℕ
  pub uom_id : ℕ
  pub qty_ordered : ℕ
  pub qty_received : ℕ
  pub line_status : LineStatus

pub record PurchaseOrder : Type 0 where
  pub po_number : Text
  pub supplier_id : ℕ
  pub branch_id : ℕ
  pub warehouse_id : ℕ
  pub status : PoStatus
  pub total_amount : ℕ
  pub approval_level : ℕ
  pub approved_by : Option ℕ
  pub approved_at : Option ℕ
  pub notes : Option Text
  pub created_by : ℕ
  pub deleted : Bool
  pub lines : List PoLine

pub data ReceiptStatus : Type 0 where
  draft confirmed cancelled : ReceiptStatus

pub record ReceiptLine : Type 0 where
  pub po_line_id : ℕ
  pub product_id : ℕ
  pub qty_received : ℕ
  pub uom_id : ℕ
  pub unit_cost : ℕ
  pub batch_number : Option Text
  pub serial_number : Option Text
  pub notes : Option Text

pub record GoodsReceipt : Type 0 where
  pub gr_number : Text
  pub po_id : ℕ
  pub supplier_id : ℕ
  pub warehouse_id : ℕ
  pub status : ReceiptStatus
  pub receipt_date : ℕ
  pub notes : Option Text
  pub confirmed_by : Option ℕ
  pub confirmed_at : Option ℕ
  pub created_by : ℕ
  pub deleted : Bool
  pub lines : List ReceiptLine

pub data AuditAction : Type 0 where
  create update delete approve reject cancel : AuditAction

pub record AuditEntry : Type 0 where
  pub user_id : ℕ
  pub action : AuditAction
  pub entity_id : ℕ

pub record PurchaseStore : Type 0 where
  pub orders : Table PurchaseOrder
  pub receipts : Table GoodsReceipt
  pub sequences : Sequences
  pub audit : List AuditEntry

abbrev pub set_sequences : Sequences → PurchaseStore → PurchaseStore
set_sequences q s = record s { sequences = q }

-- `audit.record`: the log is append-only, newest entry first.
abbrev pub log : ℕ → AuditAction → ℕ → PurchaseStore → PurchaseStore
log user action id s = record s {
  audit = record { user_id = user; action = action; entity_id = id } ∷ s.audit;
}

-- `!reason || reason.trim().length === 0`
unfoldable pub is_blank : Text → Bool
unfolding trim
is_blank s = length (trim s) == 0

-- `${notes || ''}\n<label>: ${text}`; the label comes with its newline.
abbrev pub annotate : Option Text → Text → Text → Text
annotate none label text = label ++ text
annotate (some old) label text = old ++ (label ++ text)
