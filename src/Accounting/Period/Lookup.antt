-- ===== src/Accounting/Period/Lookup.antt =====
-- The two queries of period-manager.service.ts that look for a period without its id.
use mathlib.Core.Option.{some-injective}
use inventory_pos.Common.{
  ℕ, ◌≤◌, ◌≡◌, refl, inl, inr, true, false, some, [], ◌∷◌, ◌==◌, arith, Bool-cases,
}
use inventory_pos.Common.Effects.{ok}
use inventory_pos.Common.Table.{Table, find_unique, find_first, All-find_unique}
use inventory_pos.Accounting.Store.{open_, FiscalPeriod, Ledger}
use inventory_pos.Accounting.Period.{
  is_open, is_inside, count_rows, get_current_period, get_period_for_date,
}
use inventory_pos.Accounting.Period.Calendar.Rows.{AreApart, AllApart, IsCalendar}

not_inside :
    (p q : FiscalPeriod) (date : ℕ)
    → AreApart p q
    → is_inside q date ≡ true
    → is_inside p date ≡ false
not_inside p q date a h = let days = a.days in ground arith

find_inside :
    (date k : ℕ) (q : FiscalPeriod) (t : Table FiscalPeriod)
    → AllApart t
    → find_unique k t ≡ some q
    → is_inside q date ≡ true
    → find_first (λ (p : FiscalPeriod). is_inside p date) t ≡ some (k, q)
find_inside date k q [] apart found h = cc
find_inside date k q ((j, p) ∷ t) (a, apart) found h = elim (Bool-cases (k == j)) [
  | inl here ↦
      let same : p ≡ q = some-injective _ _ (rw here at found) in
      let key : k ≡ j = ground arith in rw (same, h, key) refl
  | inr later ↦
      let found' : find_unique k t ≡ some q = rw later at found in
      rw (not_inside p q date (All-find_unique (AreApart p) k t a found') h)
        (find_inside date k q t apart found' h)
]

-- In a calendar, a date belongs to one period at most: whichever period is stored and contains the
-- date, both of its ends included, that one is returned, and nothing changes.
pub get_period_for_date_lem :
    (date k : ℕ) (q : FiscalPeriod) (s : Ledger)
    → IsCalendar s.periods
    → find_unique k s.periods ≡ some q
    → q.start_date ≤ date
    → date ≤ q.end_date
    → get_period_for_date date s ≡ (ok (k, q), s)
unfolding get_period_for_date
get_period_for_date_lem date k q s cal found from to =
    rw (find_inside date k q s.periods cal.apart found (ground arith)) refl

some_open :
    (k : ℕ) (q : FiscalPeriod) (t : Table FiscalPeriod)
    → find_unique k t ≡ some q
    → is_open q ≡ true
    → 1 ≤ count_rows is_open t
some_open k q [] found h = cc
some_open k q (x ∷ t) found h = ground (arith, some_open k q t)

find_open :
    (k : ℕ) (q : FiscalPeriod) (t : Table FiscalPeriod)
    → count_rows is_open t ≤ 1
    → find_unique k t ≡ some q
    → is_open q ≡ true
    → find_first is_open t ≡ some (k, q)
find_open k q [] one found h = cc
find_open k q ((j, p) ∷ t) one found h = elim (Bool-cases (k == j)) [
  | inl here ↦
      let same : p ≡ q = some-injective _ _ (rw here at found) in
      let key : k ≡ j = ground arith in rw (same, h, key) refl
  | inr later ↦
      let found' : find_unique k t ≡ some q = rw later at found in
      ground (arith, find_open k q t, some_open k q t found' h)
]

-- In a calendar, the current period is the open one: if a stored period is open, it is returned, and
-- nothing changes.
pub get_current_period_lem :
    (k : ℕ) (q : FiscalPeriod) (s : Ledger)
    → IsCalendar s.periods
    → find_unique k s.periods ≡ some q
    → q.status ≡ open_
    → get_current_period s ≡ (ok (k, q), s)
unfolding get_current_period
get_current_period_lem k q s cal found e =
    rw (find_open k q s.periods cal.one_open found (rw e refl)) refl
