-- ===== src/Approval/Calls.antt =====
-- Any mixture of calls of the order service and the approval engine, one after the other: the life of
-- the orders and payments that src/modules/purchase/services/purchase-order.service.ts and
-- src/services/approval-engine/approval-engine.service.ts share.
use inventory_pos.Common.{ℕ, Bool, Option, none, some, List, [], ◌∷◌, arith}
use inventory_pos.Common.Effects.{missing, Action}
use inventory_pos.Common.Does.{Does}
use inventory_pos.Common.Keeps.{Keeps, Keeps-or_throw, keeps_rules}
use inventory_pos.Common.Table.{Table, update, All-update}
use inventory_pos.Common.Text.{Text}
use inventory_pos.Numbering.{Sequences}
use inventory_pos.Master.{Party, verify_party, verify_warehouse, verify_all}
use inventory_pos.Purchase.Store.{
  PoLine, PurchaseOrder, PurchaseStore, ReceiptLine, GoodsReceipt, set_sequences,
}
use inventory_pos.Purchase.Order
use inventory_pos.Purchase.Order.{existing_order, find_by_id}
use inventory_pos.Purchase.Order.Create
use inventory_pos.Purchase.Order.Create.{
  CreateOrder, new_order, insert_order, verify_request, verify_order, write_order,
}
use inventory_pos.Purchase.Order.Receive
use inventory_pos.Purchase.Order.Receive.{
  ReceiptRequest, receive_lines, insert_receipt, new_receipt, write_receipt,
}
use inventory_pos.Purchase.Order.Steps.{
  Changes, submit-Does, approve-Does, reject-Does, revise-Does, cancel-Does,
  update_receipt_status-Does, close-Does,
}
use inventory_pos.Purchase.Order.Duties.{IsSeparated, AllSeparated, Does-AllSeparated}
use inventory_pos.Approval
use inventory_pos.Approval.{UserRole, ApprovalStore, DocumentType, ApprovalDecision}
use inventory_pos.Approval.Duties.{
  IsSafe, submit_for_approval-IsSafe, process_approval-IsSafe, escalate-IsSafe,
}

insert_order-Keeps :
    (id : ℕ) (po : PurchaseOrder) → IsSeparated po → Keeps AllSeparated (insert_order id po)
insert_order-Keeps id po new = record { at = λ s h. ground arith }

new_order-IsSeparated :
    (env : Create.Env) (order : CreateOrder) (user : ℕ) (number : Text)
    → IsSeparated (new_order env order user number)
new_order-IsSeparated env order user number past = cc

insert_receipt-Keeps : (id : ℕ) (gr : GoodsReceipt) → Keeps AllSeparated (insert_receipt id gr)
insert_receipt-Keeps id gr = record { at = λ s h. ground arith }

set_sequences-keeps :
    (q : Sequences) (s : PurchaseStore) → AllSeparated s → AllSeparated (set_sequences q s)
set_sequences-keeps q s h = h

verify_request-Keeps :
    (gone : ℕ → Option Bool) (id : Option ℕ) → Keeps AllSeparated (verify_request gone id)
verify_request-Keeps gone none = search keeps_rules
verify_request-Keeps gone (some id) = search keeps_rules

verify_party-Keeps : (rows : Table Party) (id : ℕ) → Keeps AllSeparated (verify_party rows id)
unfolding verify_party
verify_party-Keeps rows id = search keeps_rules

verify_warehouse-Keeps :
    (rows : Table Party) (branch id : ℕ) → Keeps AllSeparated (verify_warehouse rows branch id)
unfolding verify_warehouse
verify_warehouse-Keeps rows branch id = search keeps_rules

verify_all-Keeps :
    (p : Party → Bool) (rows : Table Party) (ids : List ℕ)
    → Keeps AllSeparated (verify_all p rows ids)
unfolding verify_all
verify_all-Keeps p rows ids = search keeps_rules

verify_order-Keeps :
    (env : Create.Env) (order : CreateOrder) → Keeps AllSeparated (verify_order env order)
verify_order-Keeps env order =
    search
      (
        keeps_rules, verify_party-Keeps, verify_warehouse-Keeps, verify_request-Keeps,
        verify_all-Keeps,
      )
      depth 9

log-keeps : (s : PurchaseStore) → AllSeparated s → AllSeparated s
log-keeps s h = h

write_order-Keeps :
    (env : Create.Env) (order : CreateOrder) (user : ℕ) (number : Text)
    → Keeps AllSeparated (write_order env order user number)
write_order-Keeps env order user number =
    search (keeps_rules, insert_order-Keeps, new_order-IsSeparated, log-keeps) depth 8

pub create-Keeps :
    (env : Create.Env) (order : CreateOrder) (user : ℕ)
    → Keeps AllSeparated (Create.create env order user)
unfolding Create.create
create-Keeps env order user =
    search (keeps_rules, verify_order-Keeps, write_order-Keeps, set_sequences-keeps) depth 8

lines_update-keeps :
    (id : ℕ) (seen : List PoLine) (lines : List ReceiptLine) (s : PurchaseStore)
    → AllSeparated s
    → AllSeparated (record s {
      orders =
          update id
            (λ (row : PurchaseOrder). record row { lines = receive_lines seen lines row.lines })
            s.orders;
    })
lines_update-keeps id seen lines s h =
    All-update IsSeparated id
      (λ (row : PurchaseOrder). record row { lines = receive_lines seen lines row.lines }) s.orders
      h (λ r e sep. sep)

write_receipt-Keeps :
    (env : Receive.Env) (id : ℕ) (po : PurchaseOrder) (user : ℕ) (request : ReceiptRequest)
    (number : Text)
    → Keeps AllSeparated (write_receipt env id po user request number)
write_receipt-Keeps env id po user request number =
    search (keeps_rules, insert_receipt-Keeps, lines_update-keeps, log-keeps) depth 8

existing_order-Keeps : (id : ℕ) → Keeps AllSeparated (existing_order id)
existing_order-Keeps id = record {
  at = λ s h. (Keeps-or_throw AllSeparated missing (find_by_id id s)).at s h;
}

pub receive_goods-Keeps :
    (env : Receive.Env) (id : ℕ) (request : ReceiptRequest) (user : ℕ)
    → Keeps AllSeparated (Receive.receive_goods env id request user)
unfolding Receive.receive_goods
receive_goods-Keeps env id request user =
    search (keeps_rules, existing_order-Keeps, write_receipt-Keeps, set_sequences-keeps) depth 9

-- A call of either service, with what it reads from outside.
pub data Call : Type 0 where
  create : Create.Env → CreateOrder → ℕ → Call
  submit : (id user : ℕ) → Call
  approve : (ℕ → Bool) → (now id approver : ℕ) → Option Text → Call
  reject : (ℕ → Bool) → (id approver : ℕ) → Text → Call
  revise : (id user : ℕ) → Call
  cancel : (id user : ℕ) → Text → Call
  receive_goods : Receive.Env → ℕ → ReceiptRequest → ℕ → Call
  update_receipt_status : (id user : ℕ) → Call
  close : (id user : ℕ) → Call
  submit_for_approval : List UserRole → ℕ → DocumentType → Call
  process_approval : (now id approver : ℕ) → ApprovalDecision → Call
  escalate : ℕ → Call

-- The store after a call of the order service.
abbrev on_purchase : {A : Type 0} → Action PurchaseStore A → ApprovalStore → ApprovalStore
on_purchase m s = record s { purchase = (m s.purchase).1 }

pub perform : Call → ApprovalStore → ApprovalStore
perform (create env order user) s = on_purchase (Create.create env order user) s
perform (submit id user) s = on_purchase (Order.submit id user) s
perform (approve may now id approver notes) s =
    on_purchase (Order.approve may now id approver notes) s
perform (reject may id approver reason) s = on_purchase (Order.reject may id approver reason) s
perform (revise id user) s = on_purchase (Order.revise id user) s
perform (cancel id user reason) s = on_purchase (Order.cancel id user reason) s
perform (receive_goods env id request user) s =
    on_purchase (Receive.receive_goods env id request user) s
perform (update_receipt_status id user) s = on_purchase (Order.update_receipt_status id user) s
perform (close id user) s = on_purchase (Order.close id user) s
perform (submit_for_approval users id t) s = (Approval.submit_for_approval users id t s).1
perform (process_approval now id approver d) s = (Approval.process_approval now id approver d s).1
perform (escalate id) s = (Approval.escalate id s).1

changed-IsSafe :
    (m : Action PurchaseStore PurchaseOrder) (s : ApprovalStore)
    → Does Changes s.purchase m
    → IsSafe s
    → IsSafe (on_purchase m s)
changed-IsSafe m s c (orders, payments) =
    (Does-AllSeparated s.purchase (m s.purchase).1 (m s.purchase).0 c.at orders, payments)

perform-IsSafe : (c : Call) (s : ApprovalStore) → IsSafe s → IsSafe (perform c s)
unfolding perform
perform-IsSafe (create env order user) s h = ((create-Keeps env order user).at s.purchase h.0, h.1)
perform-IsSafe (submit id user) s h = changed-IsSafe _ s (submit-Does id user s.purchase) h
perform-IsSafe (approve may now id approver notes) s h =
    changed-IsSafe _ s (approve-Does may now id approver notes s.purchase) h
perform-IsSafe (reject may id approver reason) s h =
    changed-IsSafe _ s (reject-Does may id approver reason s.purchase) h
perform-IsSafe (revise id user) s h = changed-IsSafe _ s (revise-Does id user s.purchase) h
perform-IsSafe (cancel id user reason) s h =
    changed-IsSafe _ s (cancel-Does id user reason s.purchase) h
perform-IsSafe (receive_goods env id request user) s h =
    ((receive_goods-Keeps env id request user).at s.purchase h.0, h.1)
perform-IsSafe (update_receipt_status id user) s h =
    changed-IsSafe _ s (update_receipt_status-Does id user s.purchase) h
perform-IsSafe (close id user) s h = changed-IsSafe _ s (close-Does id user s.purchase) h
perform-IsSafe (submit_for_approval users id t) s h = submit_for_approval-IsSafe users id t s h
perform-IsSafe (process_approval now id approver d) s h =
    process_approval-IsSafe now id approver d s h
perform-IsSafe (escalate id) s h = escalate-IsSafe id s h

pub run : List Call → ApprovalStore → ApprovalStore
unfolding perform
run [] s = s
run (c ∷ cs) s = run cs (perform c s)

-- Whatever calls are made of the two services, in whatever order and with whatever arguments, and
-- whether they return or throw: from a store in which both rules hold, every order that is approved,
-- received or closed afterwards has an approver who is not its creator, and so has every approved
-- payment.
pub run-IsSafe : (cs : List Call) (s : ApprovalStore) → IsSafe s → IsSafe (run cs s)
unfolding run
run-IsSafe [] s h = h
run-IsSafe (c ∷ cs) s h = run-IsSafe cs (perform c s) (perform-IsSafe c s h)
