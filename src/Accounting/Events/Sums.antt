-- ===== src/Accounting/Events/Sums.antt =====
-- The sums of the lines that the factory of journal-event.builder.ts adds.
use inventory_pos.Common.{◌≤◌, ◌≡◌, refl, ◌↔◌, true, false, List, [], ◌∷◌, ◌++◌, arith}
use inventory_pos.Common.Effects.{ok}
use inventory_pos.Common.Int.{ℤ, pos, negsuc, pos_part, neg_part, ◌+ℤ◌, ◌-ℤ◌, abs, ltb_ℤ, int_laws}
use inventory_pos.Accounting.Store.{JournalLine, JournalTemplate}
use inventory_pos.Accounting.Journal.{
  BusinessEvent, total_debit, total_credit, validate_balance, lines_of,
}
use inventory_pos.Accounting.Events.{JournalEventBuilder, add_debit_line, build}
use inventory_pos.Accounting.Events.Factory.{SalePayment, add_payments}

-- An event that was built has lines, so the engine does not turn to the template.
build-lines_of :
    (b : JournalEventBuilder) (e : BusinessEvent) (template : JournalTemplate)
    → build b ≡ ok e
    → lines_of e template ≡ b.lines
unfolding build lines_of
build-lines_of b e template h = ground arith

sub_self : (a : ℤ) → a -ℤ a ≡ pos 0
unfolding ◌-ℤ◌
sub_self a = ground arith

near_iff :
    (lines : List JournalLine)
    → (validate_balance lines ≡ true) ↔ (abs (total_debit lines -ℤ total_credit lines) ≤ 1)
unfolding validate_balance
near_iff lines = (λ h. ground arith, λ h. ground arith)

even :
    (lines : List JournalLine)
    → total_debit lines ≡ total_credit lines
    → validate_balance lines ≡ true
even lines e = (near_iff lines).1 (rw (e, sub_self (total_credit lines)) (omega arith))

pub pair :
    (l k : JournalLine)
    → l.debit ≡ k.credit
    → l.credit ≡ pos 0
    → k.debit ≡ pos 0
    → validate_balance (l ∷ k ∷ []) ≡ true
unfolding total_debit total_credit
pair l k same c d = even (l ∷ k ∷ []) (rw (same, c, d) (omega int_laws))

total_debit-append :
    (xs ys : List JournalLine) → total_debit (xs ++ ys) ≡ total_debit xs +ℤ total_debit ys
unfolding total_debit
total_debit-append [] ys = omega int_laws
total_debit-append (x ∷ xs) ys = rw (total_debit-append xs ys) (omega int_laws)

total_credit-append :
    (xs ys : List JournalLine) → total_credit (xs ++ ys) ≡ total_credit xs +ℤ total_credit ys
unfolding total_credit
total_credit-append [] ys = omega int_laws
total_credit-append (x ∷ xs) ys = rw (total_credit-append xs ys) (omega int_laws)

-- What the payments of a sale come to.
abbrev pub paid : List SalePayment → ℤ
paid [] = pos 0
paid (p ∷ ps) = p.amount +ℤ paid ps

total_debit_one :
    (b : JournalEventBuilder) (p : SalePayment)
    → total_debit (add_debit_line p.account_id p.amount p.description b).lines
      ≡ total_debit b.lines +ℤ p.amount
unfolding total_debit
total_debit_one b p = rw (total_debit-append b.lines _) (omega int_laws)

total_credit_one :
    (b : JournalEventBuilder) (p : SalePayment)
    → total_credit (add_debit_line p.account_id p.amount p.description b).lines
      ≡ total_credit b.lines
unfolding total_credit
total_credit_one b p = rw (total_credit-append b.lines _) (omega int_laws)

add_payments-totals :
    (ps : List SalePayment) (b : JournalEventBuilder)
    → (total_debit (add_payments ps b).lines ≡ total_debit b.lines +ℤ paid ps)
      × (total_credit (add_payments ps b).lines ≡ total_credit b.lines)
unfolding add_payments
add_payments-totals [] b = (omega int_laws, refl)
add_payments-totals (p ∷ ps) b =
    let b' = add_debit_line p.account_id p.amount p.description b in
    let (d, c) = add_payments-totals ps b' in
    (rw (d, total_debit_one b p) (omega int_laws), rw (c, total_credit_one b p) refl)

always : {P : Type 0} → P → P ↔ Unit {0}
always p = (λ _. tt, λ _. p)

pub built_iff :
    {P : Type 0} (b : JournalEventBuilder) (e : BusinessEvent) (template : JournalTemplate)
    → build b ≡ ok e
    → (validate_balance b.lines ≡ true) ↔ P
    → (validate_balance (lines_of e template) ≡ true) ↔ P
built_iff b e template h k = rw (build-lines_of b e template h) k

pub settled :
    (b : JournalEventBuilder) (e : BusinessEvent) (template : JournalTemplate)
    → build b ≡ ok e
    → validate_balance b.lines ≡ true
    → (validate_balance (lines_of e template) ≡ true) ↔ Unit {0}
settled b e template h k = built_iff b e template h (always k)

-- What a sale asks for: a tax below zero is left out.
abbrev pub charged : ℤ → ℤ → ℤ
charged subtotal tax = subtotal +ℤ pos (pos_part tax)

pub no_neg : (t : ℤ) → ltb_ℤ (pos 0) t ≡ true → neg_part t ≡ 0
no_neg t h = ground arith

pub no_pos : (t : ℤ) → ltb_ℤ (pos 0) t ≡ false → pos_part t ≡ 0
no_pos t h = ground arith

below_zero :
    (t : ℤ)
    → (abs (t -ℤ pos (pos_part t)) ≡ neg_part t) × (abs (pos (pos_part t) -ℤ t) ≡ neg_part t)
unfolding ◌-ℤ◌
below_zero (pos n) = (ground arith, ground arith)
below_zero (negsuc n) = (ground arith, ground arith)

-- Two totals that differ in what is left out of the tax.
pub tax_iff :
    (lines : List JournalLine) (subtotal tax : ℤ)
    → total_debit lines ≡ subtotal +ℤ tax
    → total_credit lines ≡ charged subtotal tax
    → (validate_balance lines ≡ true) ↔ (neg_part tax ≤ 1)
tax_iff lines s t d c =
    let e : (s +ℤ t) -ℤ charged s t ≡ t -ℤ pos (pos_part t) = omega int_laws in
    rw (← (below_zero t).0, ← e, ← d, ← c) (near_iff lines)

pub tax_back_iff :
    (lines : List JournalLine) (subtotal tax : ℤ)
    → total_debit lines ≡ charged subtotal tax
    → total_credit lines ≡ subtotal +ℤ tax
    → (validate_balance lines ≡ true) ↔ (neg_part tax ≤ 1)
tax_back_iff lines s t d c =
    let e : charged s t -ℤ (s +ℤ t) ≡ pos (pos_part t) -ℤ t = omega int_laws in
    rw (← (below_zero t).1, ← e, ← d, ← c) (near_iff lines)

pub sale_iff :
    (payments : List SalePayment) (b : JournalEventBuilder) (subtotal tax : ℤ)
    → total_debit b.lines ≡ pos 0
    → total_credit b.lines ≡ charged subtotal tax
    → (validate_balance (add_payments payments b).lines ≡ true)
      ↔ (abs (paid payments -ℤ charged subtotal tax) ≤ 1)
sale_iff payments b s t d c =
    let (debit, credit) = add_payments-totals payments b in
    let e : pos 0 +ℤ paid payments ≡ paid payments = omega int_laws in
    let k = near_iff (add_payments payments b).lines in rw (debit, credit, d, c, e) at k
