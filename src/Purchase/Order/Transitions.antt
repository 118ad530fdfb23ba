-- ===== src/Purchase/Order/Transitions.antt =====
-- The transition table of purchase-order.service.ts, read backwards.
use inventory_pos.Common.{◌≡◌, refl, ◌⊎◌, false, not, inl, inr}
use inventory_pos.Purchase.Store.{
  PoStatus, draft, pending_approval, approved, rejected, partially_received, fully_received,
  cancelled, closed,
}
use inventory_pos.Purchase.Order.{valid_transition}

-- The statuses that a passed transition test leaves.
pub before_submit : (c : PoStatus) → not (valid_transition c pending_approval) ≡ false → c ≡ draft
before_submit draft h = refl
before_submit _ h = cc

pub before_decision :
    (c : PoStatus) → not (valid_transition c approved) ≡ false → c ≡ pending_approval
before_decision draft h = cc
before_decision pending_approval h = refl
before_decision _ h = cc

pub before_reject :
    (c : PoStatus) → not (valid_transition c rejected) ≡ false → c ≡ pending_approval
before_reject draft h = cc
before_reject pending_approval h = refl
before_reject _ h = cc

pub before_revise : (c : PoStatus) → not (valid_transition c draft) ≡ false → c ≡ rejected
before_revise draft h = cc
before_revise rejected h = refl
before_revise _ h = cc

pub before_cancel : (c : PoStatus) → not (valid_transition c cancelled) ≡ false → c ≡ approved
before_cancel draft h = cc
before_cancel approved h = refl
before_cancel _ h = cc

pub before_partial :
    (c : PoStatus) → not (valid_transition c partially_received) ≡ false → c ≡ approved
before_partial draft h = cc
before_partial approved h = refl
before_partial _ h = cc

pub before_full :
    (c : PoStatus)
    → not (valid_transition c fully_received) ≡ false
    → (c ≡ approved) ⊎ (c ≡ partially_received)
before_full draft h = cc
before_full approved h = inl refl
before_full partially_received h = inr refl
before_full _ h = cc

pub before_close : (c : PoStatus) → not (valid_transition c closed) ≡ false → c ≡ fully_received
before_close draft h = cc
before_close fully_received h = refl
before_close _ h = cc
