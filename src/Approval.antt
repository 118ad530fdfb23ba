-- ===== src/Approval.antt =====
-- src/services/approval-engine/approval-engine.service.ts: who must approve a document, and the
-- approval of orders and payments. Amounts are in hundredths.
pub mod Chain
pub mod Duties
pub mod Calls
mod Tests
use inventory_pos.Common.{
  ℕ, Bool, true, false, not, ◌&&◌, Option, none, some, List, [], ◌∷◌, ◌==◌, ltb, leb, keep, map,
  if◌then◌else◌,
}
use inventory_pos.Common.Effects.{
  ErrorCode, not_found, business_rule_violation, Error, business, Action, pure, gets, throw,
  or_throw, throw_if, modify, ◌>>=◌, ◌>>◌,
}
use inventory_pos.Common.Table.{Table, find_unique, update}
use inventory_pos.Purchase.Store.{PoStatus, PurchaseOrder, PurchaseStore}
use inventory_pos.Invoicing.Store.{PaymentStatus, Payment}

-- APPROVAL_ROLES
pub data Role : Type 0 where
  supervisor finance_manager owner : Role

-- APPROVAL_THRESHOLDS: 5,000,000 and 50,000,000.
abbrev pub level_1_max : ℕ
level_1_max = 500_000_000

abbrev pub level_2_max : ℕ
level_2_max = 5_000_000_000

-- A row of `userRole` with what the query reads of its role and its user.
pub record UserRole : Type 0 where
  pub branch_id : ℕ
  pub role : Role
  pub user_id : ℕ
  pub is_active : Bool
  pub deleted : Bool

pub record ApprovalChain : Type 0 where
  pub level : ℕ
  pub required_role : Role
  pub threshold_min : ℕ
  pub threshold_max : Option ℕ
  pub approvers : List ℕ

abbrev pub role_eq : Role → Role → Bool
role_eq supervisor supervisor = true
role_eq finance_manager finance_manager = true
role_eq owner owner = true
role_eq _ _ = false

abbrev pub can_approve : ℕ → Role → UserRole → Bool
can_approve branch role ur =
    ur.branch_id == branch && role_eq role ur.role && ur.is_active && not ur.deleted

abbrev pub chain_of : List UserRole → ℕ → ℕ → Role → ℕ → Option ℕ → ApprovalChain
chain_of users branch level role low high = record {
  level = level;
  required_role = role;
  threshold_min = low;
  threshold_max = high;
  approvers = map (λ (ur : UserRole). ur.user_id) (keep (can_approve branch role) users);
}

-- The document type is not looked at.
unfoldable pub get_approval_chain : List UserRole → ℕ → ℕ → ApprovalChain
get_approval_chain users amount branch =
    if ltb amount level_1_max
    then chain_of users branch 1 supervisor 0 (some level_1_max)
    else if leb amount level_2_max
    then chain_of users branch 2 finance_manager level_1_max (some level_2_max)
    else chain_of users branch 3 owner level_2_max none

pub record ApprovalStore : Type 0 where
  pub purchase : PurchaseStore
  pub payments : Table Payment

pub data DocumentType : Type 0 where
  purchase_order payment other : DocumentType

abbrev pub orders_of : ApprovalStore → Table PurchaseOrder
orders_of s = s.purchase.orders

abbrev pub change_order : ℕ → (PurchaseOrder → PurchaseOrder) → Action ApprovalStore (Unit {0})
change_order id f = modify λ (s : ApprovalStore). record s {
  purchase = record (s.purchase) { orders = update id f s.purchase.orders };
}

abbrev pub change_payment : ℕ → (Payment → Payment) → Action ApprovalStore (Unit {0})
change_payment id f = modify λ (s : ApprovalStore). record s { payments = update id f s.payments }

abbrev pub unknown : Error
unknown = business not_found

abbrev pub separation : Error
separation = business business_rule_violation

-- SOD-001 and SOD-002
unfoldable pub approve : DocumentType → ℕ → ℕ → Action ApprovalStore (Unit {0})
approve DocumentType.purchase_order id approver = do
  found ← gets λ (s : ApprovalStore). find_unique id s.purchase.orders
  po ← or_throw unknown found
  throw_if (po.created_by == approver) separation
approve DocumentType.payment id approver = do
  found ← gets λ (s : ApprovalStore). find_unique id s.payments
  pay ← or_throw unknown found
  throw_if (pay.created_by == approver) separation
approve DocumentType.other id approver = pure tt

pub record ApprovalRequest : Type 0 where
  pub document_id : ℕ
  pub document_type : DocumentType
  pub requested_by : ℕ
  pub current_level : ℕ

unfoldable pub submit_for_approval :
    List UserRole → ℕ → DocumentType → Action ApprovalStore ApprovalRequest
unfolding get_approval_chain
submit_for_approval users id DocumentType.purchase_order = do
  found ← gets λ (s : ApprovalStore). find_unique id s.purchase.orders
  po ← or_throw unknown found
  let chain = get_approval_chain users po.total_amount po.branch_id
  change_order id λ row. record row { status = PoStatus.pending_approval }
  pure (record {
    document_id = id;
    document_type = DocumentType.purchase_order;
    requested_by = po.created_by;
    current_level = chain.level;
  })
submit_for_approval users id DocumentType.payment = do
  found ← gets λ (s : ApprovalStore). find_unique id s.payments
  pay ← or_throw unknown found
  change_payment id λ row. record row { status = PaymentStatus.pending }
  pure (record {
    document_id = id;
    document_type = DocumentType.payment;
    requested_by = pay.created_by;
    current_level = 1;
  })
submit_for_approval users id DocumentType.other = pure (record {
  document_id = id;
  document_type = DocumentType.other;
  requested_by = id;
  current_level = 1;
})

pub data ApprovalDecision : Type 0 where
  approved rejected : ApprovalDecision

-- The branch of an order that is there; `now` is the time of the call.
unfoldable pub decide_order : ℕ → ℕ → ℕ → ApprovalDecision → Action ApprovalStore (Unit {0})
unfolding approve
decide_order now id approver approved = do
  approve DocumentType.purchase_order id approver
  change_order id λ row. record row {
    status = PoStatus.approved;
    approved_by = some approver;
    approved_at = some now;
  }
decide_order now id approver rejected =
    change_order id λ row. record row { status = PoStatus.cancelled }

unfoldable pub decide_payment : ℕ → ℕ → ℕ → ApprovalDecision → Action ApprovalStore (Unit {0})
unfolding approve
decide_payment now id approver approved = do
  approve DocumentType.payment id approver
  change_payment id λ row. record row {
    status = PaymentStatus.approved;
    approved_by = some approver;
    approved_at = some now;
  }
decide_payment now id approver rejected =
    change_payment id λ row. record row { status = PaymentStatus.cancelled }

abbrev pub decide_other :
    ℕ → ℕ → ℕ → ApprovalDecision → Option Payment → Action ApprovalStore (Unit {0})
decide_other now id approver decision none = throw unknown
decide_other now id approver decision (some pay) = decide_payment now id approver decision

abbrev pub decide :
    ℕ → ℕ → ℕ → ApprovalDecision → Option PurchaseOrder → Action ApprovalStore (Unit {0})
decide now id approver decision none = do
  pay ← gets λ (s : ApprovalStore). find_unique id s.payments
  decide_other now id approver decision pay
decide now id approver decision (some po) = decide_order now id approver decision

unfoldable pub process_approval : ℕ → ℕ → ℕ → ApprovalDecision → Action ApprovalStore (Unit {0})
process_approval now id approver decision = do
  po ← gets λ (s : ApprovalStore). find_unique id s.purchase.orders
  decide now id approver decision po

-- An order that is not there is no error.
unfoldable pub escalate : ℕ → Action ApprovalStore (Unit {0})
escalate id = change_order id λ row. record row { status = PoStatus.pending_approval }
