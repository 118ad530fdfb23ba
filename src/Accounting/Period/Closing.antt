-- ===== src/Accounting/Period/Closing.antt =====
-- When `closePeriod` of period-manager.service.ts closes a period.
pub mod Rows
use inventory_pos.Common.{ℕ, ◌≡◌, ap, ◌↔◌, true, false, some, arith}
use inventory_pos.Common.Effects.{ok, Returned}
use inventory_pos.Common.Table.{find_unique, update, find_unique-update_self}
use inventory_pos.Accounting.Store.{open_, closed, FiscalPeriod, Ledger}
use inventory_pos.Accounting.Period.{
  has_any, blocks, Checklist, checklist_of, can_close, validate_period_closing_checklist,
  close_period,
}
use inventory_pos.Accounting.Period.Closing.Rows.{IsClosable, checklist_iff}

validate_lem :
    (id : ℕ) (p : FiscalPeriod) (s : Ledger)
    → find_unique id s.periods ≡ some p
    → validate_period_closing_checklist id s ≡ (ok (checklist_of id p s), s)
unfolding validate_period_closing_checklist
validate_lem id p s found = ground arith

abbrev pub closed_by : (now user : ℕ) → FiscalPeriod → FiscalPeriod
closed_by now user p = record p { status = closed; closed_by = some user; closed_at = some now }

module _ (now id user : ℕ) (p : FiscalPeriod) (s : Ledger)
    (found : find_unique id s.periods ≡ some p) where
  -- The call, step by step, for a checklist of any content.
  module _ (c : Checklist) (checked : validate_period_closing_checklist id s ≡ (ok c, s)) where
    passes :
        p.status ≡ open_
        → has_any (blocks p) s.periods ≡ false
        → can_close c ≡ true
        → close_period now id user s ≡ (
          ok (closed_by now user p),
          record s { periods = update id (closed_by now user) s.periods },
        )
    unfolding close_period
    passes o early list =
        ground (arith, checked, find_unique-update_self id (closed_by now user) s.periods found)

    returns :
        (q : FiscalPeriod)
        → (close_period now id user s).0 ≡ ok q
        → (p.status ≡ open_) × (has_any (blocks p) s.periods ≡ false) × (can_close c ≡ true)
    unfolding close_period
    returns q e = (ground (arith, checked), ground (arith, checked), ground (arith, checked))

-- For a stored period, `close_period` returns exactly when the rules of closing are met: the period is
-- open, every earlier one is closed, no open invoice and no pending payment is dated in it, the totals
-- of each of its journal entries differ, as doubles, by no more than the double 0.01, its bank reconciliations are completed, and no stock opname is running.
-- It then changes that row only, to closed, by that user at that time.
pub close_period-ok_iff :
    (now id user : ℕ) (p : FiscalPeriod) (s : Ledger)
    → find_unique id s.periods ≡ some p
    → (Returned (close_period now id user s) ↔ IsClosable id p s)
      × (IsClosable id p s
          → close_period now id user s ≡ (
            ok (closed_by now user p),
            record s { periods = update id (closed_by now user) s.periods },
          ))
close_period-ok_iff now id user p s found = (
  (
    λ (q, e).
        let (o, early, list) = returns now id user p s found c checked q e in
        (checklist_iff id p s o).0 (early, list),
    λ h. (closed_by now user p, ap (λ out. out.0) (done h)),
  ),
  done,
)
  where
    c : Checklist
    c = checklist_of id p s

    checked : validate_period_closing_checklist id s ≡ (ok (checklist_of id p s), s)
    checked = validate_lem id p s found

    done :
        IsClosable id p s
        → close_period now id user s ≡ (
          ok (closed_by now user p),
          record s { periods = update id (closed_by now user) s.periods },
        )
    done h =
        let (early, list) = (checklist_iff id p s h.is_open).1 h in
        passes now id user p s found (checklist_of id p s) checked h.is_open early list
