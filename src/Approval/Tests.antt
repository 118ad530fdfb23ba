-- ===== src/Approval/Tests.antt =====
-- The approval engine and the order service at concrete inputs.
use inventory_pos.Common.{◌≡◌, refl, ◌≢◌, ◌↔◌, true, false, none, some, List, [], ◌∷◌, arith}
use inventory_pos.Common.Table.{find_unique}
use inventory_pos.Common.Text.{codes}
use inventory_pos.Purchase.Store.{PoStatus, PurchaseOrder}
use inventory_pos.Purchase.Order.{get_approval_threshold}
use inventory_pos.Invoicing.Store.{PaymentStatus, PaymentType, Payment}
use inventory_pos.Approval.{
  ApprovalStore, approved, get_approval_chain, process_approval, level_2_max,
}
use inventory_pos.Approval.Chain.{get_approval_chain-level_iff}
use inventory_pos.Approval.Duties.{IsSafe, process_approval_any_status}
use inventory_pos.Approval.Calls
use inventory_pos.Approval.Calls.{Call, run, run-IsSafe}

abbrev order : PurchaseOrder
order = record {
  po_number = codes "PO-202603-00001";
  supplier_id = 4;
  branch_id = 1;
  warehouse_id = 2;
  status = PoStatus.pending_approval;
  total_amount = 1_000_000;
  approval_level = 1;
  approved_by = none;
  approved_at = none;
  notes = none;
  created_by = 7;
  deleted = false;
  lines = [];
}

abbrev payment : Payment
payment = record {
  payment_number = codes "PV-202603-00001";
  payment_type = PaymentType.disbursement;
  payment_date = 90;
  amount = 500;
  status = PaymentStatus.draft;
  created_by = 7;
  approved_by = none;
  approved_at = none;
  posted_by = none;
  posted_at = none;
  reversed_by = none;
  reversed_at = none;
  reversal_reason = none;
}

abbrev store : ApprovalStore
store = record {
  purchase = record { orders = (1, order) ∷ []; receipts = []; sequences = []; audit = [] };
  payments = (3, payment) ∷ [];
}

abbrev calls : List Call
calls =
    Calls.approve (λ user. true) 100 1 8 none
    ∷ Calls.process_approval 101 3 7 approved
    ∷ Calls.process_approval 102 3 9 approved
    ∷ Calls.close 1 8
    ∷ []

store-IsSafe : IsSafe store
store-IsSafe = ((λ past. cc, tt), (λ past. cc, tt))

run-IsSafe_example : IsSafe (run calls store)
run-IsSafe_example = run-IsSafe calls store store-IsSafe

abbrev cancelled_store : ApprovalStore
cancelled_store = record store {
  purchase = record {
    orders = (1, record order { status = PoStatus.cancelled }) ∷ [];
    receipts = [];
    sequences = [];
    audit = [];
  };
}

process_approval_any_status_example :
    find_unique 1 (process_approval 100 1 8 approved cancelled_store).1.purchase.orders
    ≡ some
        (record order { status = PoStatus.approved; approved_by = some 8; approved_at = some 100 })
process_approval_any_status_example =
    process_approval_any_status 100 1 8 cancelled_store
      (record order { status = PoStatus.cancelled }) refl (omega arith)

get_approval_chain-level_iff_example :
    ((get_approval_chain [] 5_000_000_000 1).level ≡ get_approval_threshold 5_000_000_000)
    ↔ (5_000_000_000 ≢ level_2_max)
get_approval_chain-level_iff_example = get_approval_chain-level_iff [] 5_000_000_000 1
