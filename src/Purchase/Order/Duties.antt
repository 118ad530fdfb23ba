-- ===== src/Purchase/Order/Duties.antt =====
-- SOD-001 over the whole life of an order, as purchase-order.service.ts lets it change.
use inventory_pos.Common.{ℕ, ◌≡◌, ◌≢◌, Bool, true, false, Option, none, some, arith, All}
use inventory_pos.Common.Effects.{Result, ok, err}
use inventory_pos.Common.Table.{All-update, All-find_unique}
use inventory_pos.Purchase.Store.{
  PoStatus, approved, partially_received, fully_received, closed, PurchaseOrder, PurchaseStore,
}
use inventory_pos.Purchase.Order.Steps.{
  Step, submitted, approved_by_another, turned_down, revised, called_off, partly_received,
  all_received, finished, Changes,
}

-- The statuses that only an approved order reaches.
abbrev pub is_past_approval : PoStatus → Bool
is_past_approval approved = true
is_past_approval partially_received = true
is_past_approval fully_received = true
is_past_approval closed = true
is_past_approval _ = false

-- Somebody approved, and it was not the creator.
abbrev pub IsApprovedByAnother : Option ℕ → ℕ → Type 0
IsApprovedByAnother none creator = ⊥
IsApprovedByAnother (some approver) creator = approver ≢ creator

abbrev pub IsSeparated : PurchaseOrder → Type 0
IsSeparated p = is_past_approval p.status ≡ true → IsApprovedByAnother p.approved_by p.created_by

abbrev pub AllSeparated : PurchaseStore → Type 0
AllSeparated s = All (λ (x : ℕ × PurchaseOrder). IsSeparated x.1) s.orders

pub Step-IsSeparated : (p q : PurchaseOrder) → Step p q → IsSeparated p → IsSeparated q
Step-IsSeparated p q (submitted e f) h = rw f (λ past. cc)
Step-IsSeparated p q (approved_by_another a now text e ne f) h = rw f (λ past. ne)
Step-IsSeparated p q (turned_down text e f) h = rw f (λ past. cc)
Step-IsSeparated p q (revised e f) h = rw f (λ past. cc)
Step-IsSeparated p q (called_off text e f) h = rw f (λ past. cc)
Step-IsSeparated p q (partly_received e part f) h = rw f (λ past. h (rw e))
Step-IsSeparated p q (all_received e all f) h = rw f (λ past. h (ground arith))
Step-IsSeparated p q (finished e f) h = rw f (λ past. h (rw e))

pub Does-AllSeparated :
    (s s' : PurchaseStore) (r : Result PurchaseOrder)
    → Changes s (r, s')
    → AllSeparated s
    → AllSeparated s'
Does-AllSeparated s s' (err e) same h = rw same h
Does-AllSeparated s s' (ok q) (id, p, user, action, found, step, after) h = rw after (
    All-update IsSeparated id (λ _. q) s.orders h
      (λ r _ _.
        Step-IsSeparated p q step (All-find_unique IsSeparated id {r = p} s.orders h found)))
