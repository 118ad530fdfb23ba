-- ===== src/Approval/Chain.antt =====
-- The levels of getApprovalChain in approval-engine.service.ts against those of getApprovalThreshold in
-- purchase-order.service.ts.
use inventory_pos.Common.{ℕ, ◌≤◌, ◌≡◌, ◌≢◌, ◌↔◌, Option, none, some, List, arith}
use inventory_pos.Purchase.Order.{get_approval_threshold}
use inventory_pos.Approval.{UserRole, get_approval_chain, level_2_max}

-- An upper threshold, if there is one.
abbrev pub LiesBelow : ℕ → Option ℕ → Type 0
LiesBelow amount none = Unit
LiesBelow amount (some high) = amount ≤ high

-- An amount lies in the range that its chain reports: from the lower threshold on, and not above the
-- upper one if there is one.
pub get_approval_chain_range :
    (users : List UserRole) (amount branch : ℕ)
    → let chain = get_approval_chain users amount branch in
      (chain.threshold_min ≤ amount) × LiesBelow amount chain.threshold_max
unfolding get_approval_chain
get_approval_chain_range users amount branch = ground arith

-- The two services give an amount the same level exactly when it is not 50,000,000: there the order
-- service asks for level 3 and the engine for level 2.
pub get_approval_chain-level_iff :
    (users : List UserRole) (amount branch : ℕ)
    → ((get_approval_chain users amount branch).level ≡ get_approval_threshold amount)
      ↔ (amount ≢ level_2_max)
unfolding get_approval_chain get_approval_threshold
get_approval_chain-level_iff users amount branch = (λ same. ground arith, λ other. ground arith)
