-- ===== src/Accounting/Period/Calendar/Rows.antt =====
-- The rows of a fiscal calendar, and what an update of one row does to it.
use inventory_pos.Common.{
  ℕ, ◌+◌, ◌≤◌, ◌<◌, ◌≡◌, refl, ◌≢◌, ◌⊎◌, inl, inr, false, [], ◌∷◌, ◌==◌, arith, All, All-imp,
  Bool-cases,
}
use inventory_pos.Common.Table.{Table, update, All-update}
use inventory_pos.Accounting.Store.{FiscalPeriod}
use inventory_pos.Accounting.Period.{
  CreateFiscalPeriod, has_any, same_month, overlaps, new_period, is_open, count_rows,
}

pub record IsProper (p : FiscalPeriod) : Type 0 where
  pub month_from : 1 ≤ p.month
  pub month_to : p.month ≤ 12
  pub days : p.start_date < p.end_date

-- No day belongs to both periods, and they are not the same month.
pub record AreApart (p q : FiscalPeriod) : Type 0 where
  pub days : (p.end_date < q.start_date) ⊎ (q.end_date < p.start_date)
  pub months : (p.year ≢ q.year) ⊎ (p.month ≢ q.month)

abbrev pub AllApart : Table FiscalPeriod → Type 0
AllApart [] = Unit
AllApart ((j, p) ∷ t) = All (λ (x : ℕ × FiscalPeriod). AreApart p x.1) t × AllApart t

-- Proper periods, no two of which meet, and at most one of which is open.
pub record IsCalendar (t : Table FiscalPeriod) : Type 0 where
  pub proper : All (λ (x : ℕ × FiscalPeriod). IsProper x.1) t
  pub apart : AllApart t
  pub one_open : count_rows is_open t ≤ 1

row_apart :
    (new : CreateFiscalPeriod) (q : FiscalPeriod)
    → new.start_date < new.end_date
    → IsProper q
    → same_month new q ≡ false
    → overlaps new q ≡ false
    → AreApart (new_period new) q
row_apart new q d proper m o = record { days = meet proper.days; months = ground arith }
  where
    meet : q.start_date < q.end_date → (new.end_date < q.start_date) ⊎ (q.end_date < new.start_date)
    meet h = ground arith

pub new_apart :
    (new : CreateFiscalPeriod) (t : Table FiscalPeriod)
    → new.start_date < new.end_date
    → All (λ (x : ℕ × FiscalPeriod). IsProper x.1) t
    → has_any (same_month new) t ≡ false
    → has_any (overlaps new) t ≡ false
    → All (λ (x : ℕ × FiscalPeriod). AreApart (new_period new) x.1) t
new_apart new [] d h m o = tt
new_apart new ((j, q) ∷ t) d (h, hs) m o = (
  row_apart new q d h (ground arith) (ground arith),
  new_apart new t d hs (ground arith) (ground arith),
)

-- The change leaves the calendar fields alone.
abbrev pub KeepsDates : (FiscalPeriod → FiscalPeriod) → Type 0
KeepsDates f =
    (p : FiscalPeriod)
    → ((f p).start_date ≡ p.start_date)
      × ((f p).end_date ≡ p.end_date)
      × ((f p).year ≡ p.year)
      × ((f p).month ≡ p.month)

AreApart-right :
    (f : FiscalPeriod → FiscalPeriod) (p q : FiscalPeriod)
    → KeepsDates f
    → AreApart p q
    → AreApart p (f q)
AreApart-right f p q k a =
    let (s, e, y, m) = k q in record { days = rw (s, e) a.days; months = rw (y, m) a.months }

AreApart-left :
    (f : FiscalPeriod → FiscalPeriod) (p q : FiscalPeriod)
    → KeepsDates f
    → AreApart p q
    → AreApart (f p) q
AreApart-left f p q k a =
    let (s, e, y, m) = k p in record { days = rw (s, e) a.days; months = rw (y, m) a.months }

IsProper-change :
    (f : FiscalPeriod → FiscalPeriod) (p : FiscalPeriod)
    → KeepsDates f
    → IsProper p
    → IsProper (f p)
IsProper-change f p k a =
    let (s, e, y, m) = k p in
    record { month_from = rw m a.month_from; month_to = rw m a.month_to; days = rw (s, e) a.days }

AllApart-update :
    (f : FiscalPeriod → FiscalPeriod) (k : ℕ) (t : Table FiscalPeriod)
    → KeepsDates f
    → AllApart t
    → AllApart (update k f t)
AllApart-update f k [] d h = tt
AllApart-update f k ((j, p) ∷ t) d (h, hs) = elim (Bool-cases (k == j)) [
  | inl here ↦ rw here (All-imp _ _ (λ x a. AreApart-left f p x.1 d a) t h, hs)
  | inr later ↦ rw later (
    All-update (AreApart p) k f t h (λ r e a. AreApart-right f p r d a),
    AllApart-update f k t d hs,
  )
]

pub none_open : (t : Table FiscalPeriod) → has_any is_open t ≡ false → count_rows is_open t ≡ 0
none_open [] h = refl
none_open (x ∷ t) h = ground (arith, none_open t)

pub one_more :
    (f : FiscalPeriod → FiscalPeriod) (k : ℕ) (t : Table FiscalPeriod)
    → count_rows is_open (update k f t) ≤ count_rows is_open t + 1
one_more f k [] = omega arith
one_more f k (x ∷ t) = ground (arith, one_more f k t)

pub no_more :
    (f : FiscalPeriod → FiscalPeriod) (k : ℕ) (t : Table FiscalPeriod)
    → ((p : FiscalPeriod) → is_open (f p) ≡ false)
    → count_rows is_open (update k f t) ≤ count_rows is_open t
no_more f k [] h = omega arith
no_more f k ((j, p) ∷ t) h = let shut = h p in ground (arith, no_more f k t h)

pub IsCalendar-update :
    (f : FiscalPeriod → FiscalPeriod) (k : ℕ) (t : Table FiscalPeriod)
    → KeepsDates f
    → IsCalendar t
    → count_rows is_open (update k f t) ≤ 1
    → IsCalendar (update k f t)
IsCalendar-update f k t d h one = record {
  proper = All-update IsProper k f t h.proper (λ r e a. IsProper-change f r d a);
  apart = AllApart-update f k t d h.apart;
  one_open = one;
}
