-- ===== src/Pos/Report.antt =====
-- The report of `closeShift` in pos.service.ts.
use mathlib.Core.Path.{subst}
use inventory_pos.Common.{
  ℕ, ◌+◌, ◌≡◌, true, Option, none, some, Bool-cases, inl, inr, List, [], ◌∷◌, All, arith, sum_of,
  if◌then◌else◌,
}
use inventory_pos.Common.Effects.{Error, Result, Action, ok, err}
use inventory_pos.Common.Does.{Does, or_throw-Does, gets-Does, Silent, check-Does, silent_rules}
use inventory_pos.Common.Int.{ℤ, pos, ◌+ℤ◌}
use inventory_pos.Common.Table.{Table, find_many}
use inventory_pos.Pos.Store.{
  SaleStatus, open_, held, completed, voided, cancelled, Shift, Method, cash, card, transfer, edc,
  PosPayment, PosTransaction, PosStore, status_eq, method_eq,
}
use inventory_pos.Pos.{keep_numbers, pos_transaction}
use inventory_pos.Pos.Closing.{
  ShiftReport, ClosingUser, is_completed_in, paid_by, sales_by, cash_sales, report_of, check_user,
  settle, close_shift,
}
use inventory_pos.Pos.Settled.{IsSettled, AllSettled, Settlement}

-- A transaction's total and change, by the methods of its payments.
abbrev IsCovered : PosTransaction → Type 0
IsCovered t =
    t.total_amount + t.change_amount
    ≡ paid_by cash t + paid_by card t + paid_by transfer t + paid_by edc t

abbrev amount_by : Method → List PosPayment → ℕ
amount_by m ps = sum_of (λ (p : PosPayment). if method_eq p.method m then p.amount else 0) ps

all_methods :
    (ps : List PosPayment)
    → sum_of (λ (p : PosPayment). p.amount) ps
      ≡ amount_by cash ps + amount_by card ps + amount_by transfer ps + amount_by edc ps
all_methods [] = omega arith
all_methods (p ∷ ps) = one_more p.method (all_methods ps)
  where
    one_more :
        (m : Method)
        → sum_of (λ (p : PosPayment). p.amount) ps
          ≡ amount_by cash ps + amount_by card ps + amount_by transfer ps + amount_by edc ps
        → p.amount + sum_of (λ (p : PosPayment). p.amount) ps
          ≡ ((if method_eq m cash then p.amount else 0) + amount_by cash ps)
            + ((if method_eq m card then p.amount else 0) + amount_by card ps)
            + ((if method_eq m transfer then p.amount else 0) + amount_by transfer ps)
            + ((if method_eq m edc then p.amount else 0) + amount_by edc ps)
    one_more cash h = omega (arith, h)
    one_more card h = omega (arith, h)
    one_more transfer h = omega (arith, h)
    one_more edc h = omega (arith, h)

one-IsCovered :
    (c : SaleStatus) (t : PosTransaction)
    → status_eq c completed ≡ true
    → Settlement c t
    → IsCovered t
one-IsCovered completed t e h = omega (arith, h.0, h.1, all_methods t.payments)
one-IsCovered open_ t e h = cc
one-IsCovered held t e h = cc
one-IsCovered voided t e h = cc
one-IsCovered cancelled t e h = cc

are-IsCovered :
    (id : ℕ) (rows : Table PosTransaction)
    → All (λ (x : ℕ × PosTransaction). IsSettled x.1) rows
    → All IsCovered (find_many (is_completed_in id) rows)
are-IsCovered id [] h = tt
are-IsCovered id ((j, t) ∷ rows) (h, hs) = elim (Bool-cases (is_completed_in id t)) [
  | inl here ↦
      rw here (one-IsCovered t.status t (ground (arith, here)) h.1, are-IsCovered id rows hs)
  | inr other ↦ rw other (are-IsCovered id rows hs)
]

sums :
    (ts : List PosTransaction)
    → All IsCovered ts
    → sum_of (λ (t : PosTransaction). t.total_amount) ts
        + sum_of (λ (t : PosTransaction). t.change_amount) ts
      ≡ sales_by cash ts + sales_by card ts + sales_by transfer ts + sales_by edc ts
sums [] h = omega arith
sums (t ∷ ts) (h, hs) = omega (arith, h, sums ts hs)

-- What the report leaves out.
abbrev pub edc_sales : ℕ → PosStore → ℕ
edc_sales id s = sales_by edc (find_many (is_completed_in id) s.sales)

abbrev pub AddsUp : ℕ → ShiftReport → Type 0
AddsUp edc_part r =
    r.cash_sales +ℤ pos (r.card_sales + r.transfer_sales + edc_part) ≡ pos r.total_sales

module _ (now id : ℕ) (closing : ℤ) (user : Option ClosingUser) where
  abbrev Post : PosStore → Result ShiftReport × PosStore → Type 0
  Post s (err e, s') = Unit
  Post s (ok r, s') = AllSettled s → AddsUp (edc_sales id s) r

  throws : (s : PosStore) (e : Error) → Post s (err e, s)
  throws s e = tt

  kept :
      (s : PosStore) (out : Result ShiftReport × PosStore)
      → Post s out
      → Post s (keep_numbers s out)
  kept s (ok r, s') h = h
  kept s (err e, s') h = tt

  pos_transaction-Does :
      (m : Action PosStore ShiftReport) (s : PosStore)
      → Does Post s m
      → Does Post s (pos_transaction m)
  pos_transaction-Does m s d = record { at = kept s (m s) d.at }

  check_user-Silent : (u : Option ClosingUser) (shift : Shift) → Silent (check_user u shift)
  check_user-Silent none shift = search silent_rules
  check_user-Silent (some u) shift = search silent_rules

  settle-Does : (shift : Shift) (s : PosStore) → Does Post s (settle now id shift closing)
  unfolding report_of cash_sales ◌+ℤ◌
  settle-Does shift s = record {
    at = λ h.
        let total = sums (find_many (is_completed_in id) s.sales) (are-IsCovered id s.sales h) in
        ground (arith, total);
  }

  close_shift-Does : (s : PosStore) → Does Post s (close_shift now id closing user)
  unfolding close_shift
  close_shift-Does s =
      search
        (
          pos_transaction-Does,
          gets-Does Post throws,
          or_throw-Does Post throws,
          check-Does Post throws,
          check_user-Silent,
          settle-Does,
        )
        depth 12

  returned :
      (s : PosStore) (out : Result ShiftReport × PosStore) (r : ShiftReport)
      → Post s out
      → out.0 ≡ ok r
      → AllSettled s
      → AddsUp (edc_sales id s) r
  returned s (ok q, s') r h e settled =
      let same : q ≡ r = cc in subst (AddsUp (edc_sales id s)) same (h settled)
  returned s (err x, s') r h e settled = cc

  -- The report of a shift that is closed adds up where every transaction is settled: what came in by
  -- cash, less the change, by card and by transfer, and what came in by EDC, which the report leaves out,
  -- are together the total of the sales.
  pub close_shift-AddsUp :
      (s : PosStore) (r : ShiftReport)
      → AllSettled s
      → (close_shift now id closing user s).0 ≡ ok r
      → AddsUp (edc_sales id s) r
  close_shift-AddsUp s r settled e =
      returned s (close_shift now id closing user s) r (close_shift-Does s).at e settled
