-- ===== src/Purchase/Request.antt =====
-- src/modules/purchase/services/purchase-request.service.ts. Quantities are in ten-thousandths, prices
-- in hundredths.
pub mod Edit
pub mod Steps
pub mod Settled
pub mod Removed
mod Tests
use inventory_pos.Common.{
  ℕ, Bool, true, false, not, ◌&&◌, ◌||◌, Option, none, some, List, [], ◌∷◌, ◌==◌, if◌then◌else◌,
}
use inventory_pos.Common.Effects.{
  ErrorCode, business_rule_violation, Error, business, missing, internal, Action, Result, ok, err,
  pure, gets, or_throw, throw_if, modify, transaction, ◌>>=◌, ◌>>◌,
}
use inventory_pos.Common.Table.{Table, find_unique, update}
use inventory_pos.Common.Text.{Text, codes}
use inventory_pos.Numbering.{Sequences}
use inventory_pos.Purchase.Store.{AuditAction, AuditEntry, annotate}

pub data PrStatus : Type 0 where
  draft submitted approved rejected cancelled : PrStatus

pub record RequestLine : Type 0 where
  pub product_id : ℕ
  pub qty_requested : ℕ
  pub uom_id : ℕ
  pub estimated_price : Option ℕ

pub record PurchaseRequest : Type 0 where
  pub pr_number : Text
  pub branch_id : ℕ
  pub warehouse_id : ℕ
  pub status : PrStatus
  pub requested_by : ℕ
  pub notes : Option Text
  pub deleted : Bool
  pub lines : List RequestLine

pub record RequestStore : Type 0 where
  pub requests : Table PurchaseRequest
  pub sequences : Sequences
  pub audit : List AuditEntry

abbrev pub status_eq : PrStatus → PrStatus → Bool
status_eq draft draft = true
status_eq submitted submitted = true
status_eq approved approved = true
status_eq rejected rejected = true
status_eq cancelled cancelled = true
status_eq _ _ = false

abbrev pub violation : Error
violation = business business_rule_violation

-- `findById` and the NotFoundException of its callers. The row is not asked whether it is deleted.
abbrev pub existing_request : ℕ → Action RequestStore PurchaseRequest
existing_request id s = or_throw missing (find_unique id s.requests) s

abbrev pub log : ℕ → AuditAction → ℕ → RequestStore → RequestStore
log user action id s = record s {
  audit = record { user_id = user; action = action; entity_id = id } ∷ s.audit;
}

-- The transaction of a change: the update of the row and its audit entry.
abbrev pub save :
    ℕ → (PurchaseRequest → PurchaseRequest) → ℕ → AuditAction → Action RequestStore PurchaseRequest
save id change user action = transaction do
  modify λ (s : RequestStore). record s { requests = update id change s.requests }
  modify (log user action id)
  pr ← gets λ (s : RequestStore). find_unique id s.requests
  or_throw missing pr

-- `delete`: a soft delete, through `withAudit`.
unfoldable pub delete : ℕ → ℕ → Action RequestStore PurchaseRequest
delete id user = do
  existing ← existing_request id
  throw_if (not (status_eq existing.status draft)) violation
  save id (λ pr. record pr { deleted = true }) user AuditAction.delete

unfoldable pub submit : ℕ → ℕ → Action RequestStore PurchaseRequest
submit id user = do
  existing ← existing_request id
  throw_if (not (status_eq existing.status draft)) violation
  save id (λ pr. record pr { status = submitted }) user AuditAction.update

-- No notes, or an empty text, leave the old ones.
abbrev pub approval_notes : Option Text → Option Text → Option Text
approval_notes old none = old
approval_notes old (some []) = old
approval_notes old (some (c ∷ s)) = some (annotate old (codes "\nApproval: ") (c ∷ s))

unfoldable pub approve : ℕ → ℕ → Option Text → Action RequestStore PurchaseRequest
approve id approver notes = do
  existing ← existing_request id
  throw_if (not (status_eq existing.status submitted)) violation
  save id (λ pr. record pr { status = approved; notes = approval_notes existing.notes notes })
      approver AuditAction.approve

unfoldable pub reject : ℕ → ℕ → Text → Action RequestStore PurchaseRequest
reject id approver reason = do
  existing ← existing_request id
  throw_if (not (status_eq existing.status submitted)) violation
  save id
      (λ pr. record pr {
        status = rejected;
        notes = some (annotate existing.notes (codes "\nRejection: ") reason);
      })
      approver AuditAction.update

unfoldable pub cancel : ℕ → ℕ → Text → Action RequestStore PurchaseRequest
cancel id user reason = do
  existing ← existing_request id
  throw_if (not (status_eq existing.status draft) && not (status_eq existing.status submitted))
      violation
  save id
      (λ pr. record pr {
        status = cancelled;
        notes = some (annotate existing.notes (codes "\nCancellation: ") reason);
      })
      user AuditAction.update
