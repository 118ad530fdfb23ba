-- ===== src/Accounting/Period/Calendar.antt =====
-- The fiscal calendar that period-manager.service.ts keeps.
pub mod Rows
use inventory_pos.Common.{
  ℕ, ◌≤◌, ◌≡◌, refl, inl, inr, false, ◌||◌, some, ltb, leb, arith, Option-cases,
}
use inventory_pos.Common.Effects.{Result, err, Error, Action, ◌>>=◌}
use inventory_pos.Common.Does.{
  Does, throw_if-Does, or_throw-Does, gets-Does, Silent, silent_rules, Silent-Does,
}
use inventory_pos.Common.Table.{find_unique, update}
use inventory_pos.Accounting.Store.{open_, closed, FiscalPeriod, Ledger}
use inventory_pos.Accounting.Period.{
  CreateFiscalPeriod, has_any, same_month, overlaps, new_period, insert_period, create_period,
  is_open, find_period_or_throw, save_period, open_period, validate_period_closing_checklist,
  close_period, count_rows,
}
use inventory_pos.Accounting.Period.Calendar.Rows.{
  IsCalendar, KeepsDates, IsCalendar-update, new_apart, none_open, one_more, no_more,
}

-- The call leaves a calendar if it finds one.
abbrev Post : Ledger → Result FiscalPeriod × Ledger → Type 0
Post s (r, s') = IsCalendar s.periods → IsCalendar s'.periods

abbrev throws_nothing : (s : Ledger) (e : Error) → Post s (err e, s)
throws_nothing s e h = h

insert_period-Does :
    (id : ℕ) (new : CreateFiscalPeriod) (s : Ledger)
    → (ltb new.month 1 || ltb 12 new.month) ≡ false
    → leb new.end_date new.start_date ≡ false
    → has_any (same_month new) s.periods ≡ false
    → has_any (overlaps new) s.periods ≡ false
    → Does Post s (insert_period id (new_period new))
insert_period-Does id new s month dates m o = record {
  at = elim (Option-cases (find_unique id s.periods)) [
    | inl e ↦
        rw (e, insert_period)
          λ h. record {
            proper = (
              record { month_from = ground arith; month_to = ground arith; days = ground arith },
              h.proper,
            );
            apart = (new_apart new s.periods (ground arith) h.proper m o, h.apart);
            one_open = h.one_open;
          }
    | inr (q, e) ↦ rw (e, insert_period) λ h. h
  ];
}

find_period-Does :
    (id : ℕ) (k : FiscalPeriod → Action Ledger FiscalPeriod) (s : Ledger)
    → ((p : FiscalPeriod) → find_unique id s.periods ≡ some p → Does Post s (k p))
    → Does Post s (find_period_or_throw id >>= k)
find_period-Does id k s h = record {
  at = (or_throw-Does Post throws_nothing _ (find_unique id s.periods) k s h).at;
}

pub save_period_lem :
    (id : ℕ) (f : FiscalPeriod → FiscalPeriod) (s : Ledger)
    → (save_period id f s).1 ≡ record s { periods = update id f s.periods }
save_period_lem id f s = ground arith

save-Does :
    (id : ℕ) (f : FiscalPeriod → FiscalPeriod) (s : Ledger)
    → KeepsDates f
    → (IsCalendar s.periods → count_rows is_open (update id f s.periods) ≤ 1)
    → Does Post s (save_period id f)
save-Does id f s d one = record {
  at = λ h. rw (save_period_lem id f s) (IsCalendar-update f id s.periods d h (one h));
}

open-Does :
    (id : ℕ) (s : Ledger)
    → has_any is_open s.periods ≡ false
    → Does Post s (save_period id λ p. record p { status = open_ })
open-Does id s shut =
    save-Does id (λ p. record p { status = open_ }) s (λ p. (refl, refl, refl, refl))
      λ h.
        omega (
          arith,
          one_more (λ p. record p { status = open_ }) id s.periods,
          none_open s.periods shut,
        )

close-Does :
    (now id user : ℕ) (s : Ledger)
    → Does Post s (
        save_period id
          λ p. record p { status = closed; closed_by = some user; closed_at = some now })
close-Does now id user s =
    let f : FiscalPeriod → FiscalPeriod =
      λ p. record p { status = closed; closed_by = some user; closed_at = some now } in
    save-Does id f s (λ p. (refl, refl, refl, refl))
      λ h. omega (arith, no_more f id s.periods (λ p. refl), h.one_open)

ruleset calendar_rules = (
  throw_if-Does, gets-Does, find_period-Does, throws_nothing, insert_period-Does, open-Does,
  close-Does,
)

pub create_period-Does :
    (id : ℕ) (new : CreateFiscalPeriod) (s : Ledger) → Does Post s (create_period id new)
unfolding create_period
create_period-Does id new s = search calendar_rules depth 10

pub open_period-Does : (id : ℕ) (s : Ledger) → Does Post s (open_period id)
unfolding open_period
open_period-Does id s = search calendar_rules depth 10

validate-Silent : (id : ℕ) → Silent (validate_period_closing_checklist id)
unfolding validate_period_closing_checklist
validate-Silent id = search silent_rules

pub close_period-Does : (now id user : ℕ) (s : Ledger) → Does Post s (close_period now id user)
unfolding close_period
close_period-Does now id user s = search (calendar_rules, Silent-Does, validate-Silent) depth 10
