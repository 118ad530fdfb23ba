-- ===== src/Purchase/Order.antt =====
-- src/modules/purchase/services/purchase-order.service.ts: the life of a purchase order after it has
-- been created.
pub mod Transitions
pub mod Steps
pub mod Create
pub mod Duties
pub mod Receive
mod Tests
use inventory_pos.Common.{
  ℕ, Bool, true, false, not, ◌&&◌, ◌||◌, Option, none, some, List, [], ◌∷◌, ◌==◌, leb, ltb, every,
  if◌then◌else◌,
}
use inventory_pos.Common.Effects.{
  ErrorCode, validation_error, business_rule_violation, Error, business, missing, denied, Action,
  pure, gets, or_throw, throw_if, modify, transaction, ◌>>=◌, ◌>>◌,
}
use inventory_pos.Common.Table.{Table, find_unique, update, find_first}
use inventory_pos.Common.Text.{Text, codes, trim}
use inventory_pos.Purchase.Store.{
  PoStatus, draft, pending_approval, approved, rejected, partially_received, fully_received,
  cancelled, closed, PoLine, PurchaseOrder, ReceiptStatus, GoodsReceipt, AuditAction, PurchaseStore,
  log, is_blank, annotate,
}

-- VALID_TRANSITIONS
abbrev pub valid_transition : PoStatus → PoStatus → Bool
valid_transition draft pending_approval = true
valid_transition pending_approval approved = true
valid_transition pending_approval rejected = true
valid_transition rejected draft = true
valid_transition approved partially_received = true
valid_transition approved fully_received = true
valid_transition approved cancelled = true
valid_transition partially_received fully_received = true
valid_transition fully_received closed = true
valid_transition _ _ = false

abbrev pub violation : Error
violation = business business_rule_violation

abbrev pub validate_transition : PoStatus → PoStatus → Action PurchaseStore (Unit {0})
validate_transition current new = throw_if (not (valid_transition current new)) violation

-- In hundredths: 5,000,000 and 50,000,000.
abbrev pub level_1 : ℕ
level_1 = 500_000_000

abbrev pub level_2 : ℕ
level_2 = 5_000_000_000

unfoldable pub get_approval_threshold : ℕ → ℕ
get_approval_threshold amount =
    if ltb amount level_1 then 1 else if ltb amount level_2 then 2 else 3

abbrev pub live : Option PurchaseOrder → Option PurchaseOrder
live none = none
live (some po) = if po.deleted then none else some po

-- `findById`
abbrev pub find_by_id : ℕ → PurchaseStore → Option PurchaseOrder
find_by_id id s = live (find_unique id s.orders)

-- `findById` and the NotFoundException that each method throws when it answers null.
abbrev pub existing_order : ℕ → Action PurchaseStore PurchaseOrder
existing_order id s = or_throw missing (find_by_id id s) s

-- The transaction that each method ends with: the update of the row and its audit entry.
abbrev pub save :
    ℕ → (PurchaseOrder → PurchaseOrder) → ℕ → AuditAction → Action PurchaseStore PurchaseOrder
save id change user action = transaction do
  modify λ (s : PurchaseStore). record s { orders = update id change s.orders }
  modify (log user action id)
  po ← gets λ (s : PurchaseStore). find_unique id s.orders
  or_throw missing po

unfoldable pub submit : ℕ → ℕ → Action PurchaseStore PurchaseOrder
unfolding get_approval_threshold
submit id user = do
  existing ← existing_order id
  validate_transition existing.status pending_approval
  save id
      (λ po. record po {
        status = pending_approval;
        approval_level = get_approval_threshold existing.total_amount;
      })
      user AuditAction.update

abbrev approval_notes : Option Text → Option Text → Option Text
approval_notes old none = old
approval_notes old (some []) = old
approval_notes old (some (c ∷ s)) = some (trim (annotate old (codes "\nApproval: ") (c ∷ s)))

-- `may_approve` is the answer of the RBAC service for PURCHASE.APPROVE, `now` the time of the call.
unfoldable pub approve : (ℕ → Bool) → ℕ → ℕ → ℕ → Option Text → Action PurchaseStore PurchaseOrder
approve may_approve now id approver notes = do
  existing ← existing_order id
  validate_transition existing.status approved
  throw_if (not (may_approve approver)) denied
  throw_if (existing.created_by == approver) violation
  save id
      (λ po. record po {
        status = approved;
        approved_by = some approver;
        approved_at = some now;
        notes = approval_notes existing.notes notes;
      })
      approver AuditAction.approve

unfoldable pub reject : (ℕ → Bool) → ℕ → ℕ → Text → Action PurchaseStore PurchaseOrder
unfolding is_blank
reject may_approve id approver reason = do
  throw_if (is_blank reason) (business validation_error)
  existing ← existing_order id
  validate_transition existing.status rejected
  throw_if (not (may_approve approver)) denied
  save id
      (λ po. record po {
        status = rejected;
        notes = some (trim (annotate existing.notes (codes "\nRejected: ") reason));
      })
      approver AuditAction.reject

unfoldable pub revise : ℕ → ℕ → Action PurchaseStore PurchaseOrder
revise id user = do
  existing ← existing_order id
  validate_transition existing.status draft
  save id (λ po. record po { status = draft }) user AuditAction.update

abbrev pub is_confirmed : ReceiptStatus → Bool
is_confirmed ReceiptStatus.confirmed = true
is_confirmed _ = false

abbrev pub is_confirmed_for : ℕ → GoodsReceipt → Bool
is_confirmed_for id gr = gr.po_id == id && is_confirmed gr.status

abbrev pub is_found {ℓ} : {A : Type ℓ} → Option A → Bool
is_found none = false
is_found (some _) = true

unfoldable pub cancel : ℕ → ℕ → Text → Action PurchaseStore PurchaseOrder
unfolding is_blank
cancel id user reason = do
  throw_if (is_blank reason) (business validation_error)
  existing ← existing_order id
  validate_transition existing.status cancelled
  confirmed ← gets λ (s : PurchaseStore). find_first (is_confirmed_for id) s.receipts
  throw_if (is_found confirmed) violation
  save id
      (λ po. record po {
        status = cancelled;
        notes = some (trim (annotate existing.notes (codes "\nCancelled: ") reason));
      })
      user AuditAction.cancel

abbrev pub is_received : PoLine → Bool
is_received line = leb line.qty_ordered line.qty_received

-- The one method that reads the row without a look at `deleted_at`.
unfoldable pub update_receipt_status : ℕ → ℕ → Action PurchaseStore PurchaseOrder
update_receipt_status id user = do
  found ← gets λ (s : PurchaseStore). find_unique id s.orders
  po ← or_throw missing found
  let new_status = if every is_received po.lines then fully_received else partially_received
  validate_transition po.status new_status
  save id (λ row. record row { status = new_status }) user AuditAction.update

unfoldable pub close : ℕ → ℕ → Action PurchaseStore PurchaseOrder
close id user = do
  existing ← existing_order id
  validate_transition existing.status closed
  save id (λ po. record po { status = closed }) user AuditAction.update
