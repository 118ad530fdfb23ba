-- ===== src/Accounting/Period.antt =====
-- src/services/period-manager/period-manager.service.ts. A check that must find no row asks `has_any`.
pub mod Calendar
pub mod Closing
pub mod Lookup
use inventory_pos.Common.{
  ℕ, ◌+◌, Bool, true, false, not, ◌&&◌, ◌||◌, Option, none, some, List, [], ◌∷◌, ◌++◌, ◌==◌, ltb,
  leb, any, keep, length, if◌then◌else◌,
}
use inventory_pos.Common.Effects.{
  ErrorCode, not_found, validation_error, business_rule_violation, period_locked, conflict, Error,
  business, internal, Action, Result, ok, err, pure, gets, or_throw, throw_if, modify, ◌>>=◌, ◌>>◌,
}
use inventory_pos.Common.Double.{distance, cent}
use inventory_pos.Common.Table.{Table, find_unique, update, find_first}
use inventory_pos.Common.Text.{Text, codes, text_eq}
use inventory_pos.Accounting.Store.{
  PeriodStatus, draft, open_, closed, status_eq, FiscalPeriod, JournalEntry, Dated,
  BankReconciliation, Ledger,
}

pub record CreateFiscalPeriod : Type 0 where
  pub period_name : Text
  pub year : ℕ
  pub month : ℕ
  pub start_date : ℕ
  pub end_date : ℕ

-- `findFirst` with a result.
abbrev pub has_any : {R : Type 0} → (R → Bool) → Table R → Bool
has_any p [] = false
has_any p ((j, r) ∷ t) = p r || has_any p t

abbrev pub same_month : CreateFiscalPeriod → FiscalPeriod → Bool
same_month new p = (p.year == new.year) && (p.month == new.month)

-- The OR of three conditions of `createPeriod`.
abbrev pub overlaps : CreateFiscalPeriod → FiscalPeriod → Bool
overlaps new p =
    leb p.start_date new.start_date && leb new.start_date p.end_date
    || leb p.start_date new.end_date && leb new.end_date p.end_date
    || leb new.start_date p.start_date && leb p.end_date new.end_date

abbrev pub new_period : CreateFiscalPeriod → FiscalPeriod
new_period new = record {
  period_name = new.period_name;
  year = new.year;
  month = new.month;
  start_date = new.start_date;
  end_date = new.end_date;
  status = draft;
  closed_by = none;
  closed_at = none;
}

-- A key that is taken is refused by the database.
abbrev pub insert_period : ℕ → FiscalPeriod → Action Ledger FiscalPeriod
insert_period id p s = elim (find_unique id s.periods) [
  | some q ↦ (err internal, s)
  | none ↦ (ok p, record s { periods = (id, p) ∷ s.periods })
]

unfoldable pub create_period : ℕ → CreateFiscalPeriod → Action Ledger FiscalPeriod
create_period new_id new = do
  throw_if (ltb new.month 1 || ltb 12 new.month) (business validation_error)
  throw_if (leb new.end_date new.start_date) (business validation_error)
  existing ← gets λ (s : Ledger). has_any (same_month new) s.periods
  throw_if existing (business conflict)
  overlapping ← gets λ (s : Ledger). has_any (overlaps new) s.periods
  throw_if overlapping (business conflict)
  insert_period new_id (new_period new)

abbrev pub find_period_or_throw : ℕ → Action Ledger FiscalPeriod
find_period_or_throw id s = or_throw (business not_found) (find_unique id s.periods) s

abbrev pub violation : Error
violation = business business_rule_violation

abbrev pub is_open : FiscalPeriod → Bool
is_open p = status_eq p.status open_

abbrev pub save_period : ℕ → (FiscalPeriod → FiscalPeriod) → Action Ledger FiscalPeriod
save_period id change = do
  modify λ (s : Ledger). record s { periods = update id change s.periods }
  find_period_or_throw id

unfoldable pub open_period : ℕ → Action Ledger FiscalPeriod
open_period id = do
  period ← find_period_or_throw id
  throw_if (not (status_eq period.status draft)) violation
  other ← gets λ (s : Ledger). has_any is_open s.periods
  throw_if other violation
  save_period id λ p. record p { status = open_ }

-- The status is one of the texts.
abbrev pub is_in : Text → List Text → Bool
is_in status [] = false
is_in status (t ∷ ts) = text_eq status t || is_in status ts

abbrev pub open_invoice_statuses : List Text
open_invoice_statuses = codes "OPEN" ∷ codes "PARTIAL" ∷ codes "OVERDUE" ∷ []

abbrev pub pending_payment_statuses : List Text
pending_payment_statuses = codes "DRAFT" ∷ codes "PENDING_APPROVAL" ∷ codes "APPROVED" ∷ []

abbrev pub incomplete_opname_statuses : List Text
incomplete_opname_statuses = codes "INITIATED" ∷ codes "IN_PROGRESS" ∷ []

abbrev pub is_inside : FiscalPeriod → ℕ → Bool
is_inside p date = leb p.start_date date && leb date p.end_date

abbrev pub count : {A : Type 0} → (A → Bool) → List A → ℕ
count p xs = length (keep p xs)

abbrev pub count_rows : {R : Type 0} → (R → Bool) → Table R → ℕ
count_rows p rows = count (λ row. p row.1) rows

-- Totals that differ by more than 0.01, in the doubles that the code computes with.
unfoldable pub is_unbalanced : JournalEntry → Bool
is_unbalanced je = ltb cent (distance je.total_debit je.total_credit)

-- The five counts of `validatePeriodClosingChecklist`, in its order; an item passes at 0.
pub record Checklist : Type 0 where
  pub open_invoices : ℕ
  pub pending_payments : ℕ
  pub unbalanced_journals : ℕ
  pub incomplete_reconciliations : ℕ
  pub incomplete_opnames : ℕ

abbrev pub checklist_of : ℕ → FiscalPeriod → Ledger → Checklist
checklist_of id p s = record {
  open_invoices =
      count (λ (i : Dated). is_in i.status open_invoice_statuses && is_inside p i.date) s.invoices;
  pending_payments =
      count (λ (i : Dated). is_in i.status pending_payment_statuses && is_inside p i.date)
        s.payments;
  unbalanced_journals = count_rows (λ je. (je.period_id == id) && is_unbalanced je) s.journals;
  incomplete_reconciliations =
      count
        (λ (b : BankReconciliation).
          (b.period_id == id) && not (text_eq b.status (codes "COMPLETED")))
        s.reconciliations;
  incomplete_opnames = count (λ o. is_in o incomplete_opname_statuses) s.opnames;
}

abbrev pub can_close : Checklist → Bool
can_close c =
    (c.open_invoices == 0)
    && (c.pending_payments == 0)
    && (c.unbalanced_journals == 0)
    && (c.incomplete_reconciliations == 0)
    && (c.incomplete_opnames == 0)

unfoldable pub validate_period_closing_checklist : ℕ → Action Ledger Checklist
validate_period_closing_checklist id = do
  period ← find_period_or_throw id
  gets (checklist_of id period)

-- The month is before the other.
abbrev pub is_earlier : FiscalPeriod → FiscalPeriod → Bool
is_earlier q p = ltb q.year p.year || (q.year == p.year) && ltb q.month p.month

abbrev pub blocks : FiscalPeriod → FiscalPeriod → Bool
blocks p q = not (status_eq q.status closed) && is_earlier q p

unfoldable pub close_period : (now id user : ℕ) → Action Ledger FiscalPeriod
unfolding validate_period_closing_checklist
close_period now id user = do
  period ← find_period_or_throw id
  throw_if (not (status_eq period.status open_)) violation
  earlier ← gets λ (s : Ledger). has_any (blocks period) s.periods
  throw_if earlier violation
  checklist ← validate_period_closing_checklist id
  throw_if (not (can_close checklist)) violation
  save_period id λ p. record p { status = closed; closed_by = some user; closed_at = some now }

-- The row that `findFirst` finds, with its id, or a not-found error.
abbrev pub first_period : (FiscalPeriod → Bool) → Action Ledger (ℕ × FiscalPeriod)
first_period p s = or_throw (business not_found) (find_first p s.periods) s

unfoldable pub get_current_period : Action Ledger (ℕ × FiscalPeriod)
get_current_period = first_period is_open

unfoldable pub get_period_for_date : ℕ → Action Ledger (ℕ × FiscalPeriod)
get_period_for_date date = first_period λ p. is_inside p date

unfoldable pub validate_period_open : ℕ → Action Ledger (Unit {0})
validate_period_open id = do
  period ← find_period_or_throw id
  throw_if (status_eq period.status closed) (business period_locked)
