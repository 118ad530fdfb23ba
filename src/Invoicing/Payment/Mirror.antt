-- ===== src/Invoicing/Payment/Mirror.antt =====
-- The balance of the entry that `reverse` of payment.service.ts posts.
use mathlib.Core.Path.{subst}
use mathlib.Core.Option.{some-injective}
use inventory_pos.Common.{
  ℕ, Bool-cases, zero, suc, ◌+◌, ◌≤◌, ◌≡◌, ◌≢◌, refl, ap, inl, inr, Bool, true, false, not, Option,
  none, some, List, [], ◌∷◌, map, arith, All,
}
use inventory_pos.Common.Effects.{
  Result, ok, err, Error, business, business_rule_violation, Action, or_throw, ◌>>=◌, ◌>>◌,
}
use inventory_pos.Common.Avoids.{
  IsNot, Avoids, next-IsNot, Avoids-or_throw, Avoids-bind, Avoids-then, Avoids-throw_if,
  Avoids-modify, avoids_rules,
}
use inventory_pos.Common.Int.{ℤ, ◌+ℤ◌, ◌-ℤ◌, abs}
use inventory_pos.Common.Table.{Table, find_unique, find_first}
use inventory_pos.Common.Text.{Text}
use inventory_pos.Numbering.{
  DocumentType, Outcome, Sequences, attempt_from, atomic_increment, prefix, format_document_number,
}
use inventory_pos.Accounting.Store.{FiscalPeriod, JournalLine, JournalEntry, Ledger}
use inventory_pos.Accounting.Period.{
  is_open, find_period_or_throw, first_period, validate_period_open, get_current_period,
}
use inventory_pos.Accounting.Journal.{
  Env, total_debit, total_credit, validate_balance, ManualEntry, next_number, insert_entry,
  create_manual_entry,
}
use inventory_pos.Accounting.Journal.Posting.{IsBalanced}
use inventory_pos.Invoicing.Store.{posted, reversed, Payment, PaymentStore}
use inventory_pos.Invoicing.Reversal.{mirror_line, reverse_entry, reverse_books, is_of_payment}
use inventory_pos.Invoicing.Payment.{
  keep_numbers, change_payment, unknown, violation, when, in_ledger, reverse, status_eq,
}

mirror-total_debit :
    (text : Text) (lines : List JournalLine)
    → total_debit (map (mirror_line text) lines) ≡ total_credit lines
unfolding total_debit total_credit
mirror-total_debit text [] = refl
mirror-total_debit text (l ∷ lines) = ap (λ x. l.credit +ℤ x) (mirror-total_debit text lines)

mirror-total_credit :
    (text : Text) (lines : List JournalLine)
    → total_credit (map (mirror_line text) lines) ≡ total_debit lines
unfolding total_debit total_credit
mirror-total_credit text [] = refl
mirror-total_credit text (l ∷ lines) = ap (λ x. l.debit +ℤ x) (mirror-total_credit text lines)

abs_sub_comm : (a b : ℤ) → abs (a -ℤ b) ≡ abs (b -ℤ a)
unfolding ◌-ℤ◌
abs_sub_comm a b = ground arith

mirror-validate_balance :
    (text : Text) (je : JournalEntry)
    → IsBalanced je
    → not (validate_balance (map (mirror_line text) je.lines)) ≡ false
unfolding validate_balance
mirror-validate_balance text je h =
    let near : abs (total_debit je.lines -ℤ total_credit je.lines) ≤ 1 =
      rw (h.debit, h.credit) at h.near in
    rw
      (
        mirror-total_debit text je.lines,
        mirror-total_credit text je.lines,
        abs_sub_comm (total_credit je.lines) (total_debit je.lines),
      )
      (ground (arith, near))

attempt_from-Avoids :
    (db : ℕ → Outcome) (t : DocumentType) (p : Text) (left attempt : ℕ)
    → Avoids violation (attempt_from db t p left attempt)
unfolding attempt_from
attempt_from-Avoids db t p zero attempt = record { at = λ s. cc }
attempt_from-Avoids db t p (suc left) attempt = record {
  at = λ s.
      let out = atomic_increment (db attempt) (prefix t) p s in
      by_answer out.0 out.1 (attempt_from-Avoids db t p left (attempt + 1));
}
  where
    by_answer :
        (r : Result ℕ) (s' : Sequences)
        → Avoids violation (attempt_from db t p left (attempt + 1))
        → let out : Result Text × Sequences = elim r [
          | ok seq ↦ (ok (format_document_number t p seq), s')
          | err e ↦ attempt_from db t p left (attempt + 1) s'
        ] in
          IsNot violation out.0
    by_answer (ok seq) s' next = tt
    by_answer (err e) s' next = next.at s'

next_number-Avoids : (env : Env) (date : ℕ) → Avoids violation (next_number env date)
unfolding next_number
next_number-Avoids env date = search (avoids_rules, attempt_from-Avoids) depth 8

find_period-Avoids : (id : ℕ) → Avoids violation (find_period_or_throw id)
find_period-Avoids id = Avoids-or_throw violation _ (λ (s : Ledger). find_unique id s.periods) cc

first_period-Avoids : (p : _) → Avoids violation (first_period p)
first_period-Avoids p = Avoids-or_throw violation _ (λ (s : Ledger). find_first p s.periods) cc

insert_entry-Avoids : (id : ℕ) (je : JournalEntry) → Avoids violation (insert_entry id je)
unfolding insert_entry
insert_entry-Avoids id je = record { at = λ s. ground arith }

validate_period_open-Avoids : (id : ℕ) → Avoids violation (validate_period_open id)
unfolding validate_period_open
validate_period_open-Avoids id =
    Avoids-bind violation _ _ (find_period-Avoids id) (λ p. Avoids-throw_if violation _ _ cc)

create_manual_entry-Avoids :
    (env : Env) (m : ManualEntry)
    → not (validate_balance m.lines) ≡ false
    → Avoids violation (create_manual_entry env m)
unfolding create_manual_entry get_current_period
create_manual_entry-Avoids env m h =
    search
      (
        avoids_rules, first_period-Avoids, validate_period_open-Avoids, next_number-Avoids,
        insert_entry-Avoids, h,
      )
      depth 10

abbrev AreBalanced : Table JournalEntry → Type 0
AreBalanced t = All (λ (x : ℕ × JournalEntry). IsBalanced x.1) t

module _ (env : Env) (id user : ℕ) (reason : Text) (p : Payment) where
  reverse_entry-Avoids :
      (o : Option (ℕ × JournalEntry))
      → ((x : ℕ × JournalEntry) → o ≡ some x → IsBalanced x.1)
      → Avoids violation (reverse_entry env id p user reason o)
  reverse_entry-Avoids none h = record { at = λ s. tt }
  reverse_entry-Avoids (some (k, je)) h =
      let even = h (k, je) refl in
      search (avoids_rules, create_manual_entry-Avoids, mirror-validate_balance, even) depth 8

  found-IsBalanced :
      (t : Table JournalEntry)
      → AreBalanced t
      → (x : ℕ × JournalEntry) → find_first (is_of_payment id) t ≡ some x
      → IsBalanced x.1
  found-IsBalanced [] h x e = cc
  found-IsBalanced ((j, je) ∷ t) (h, hs) x e = elim (Bool-cases (is_of_payment id je)) [
    | inl here ↦
        subst (λ (y : ℕ × JournalEntry). IsBalanced y.1) (some-injective _ _ (rw here at e)) h
    | inr later ↦ found-IsBalanced t hs x (rw later at e)
  ]

  reverse_books-IsNot :
      (l : Ledger)
      → AreBalanced l.journals
      → IsNot violation (reverse_books env id p user reason l).0
  reverse_books-IsNot l h = by_period (find_first is_open l.periods)
    where
      by_period :
          (o : Option (ℕ × FiscalPeriod))
          → let out : Result (Unit {0}) × Ledger = elim o [
            | none ↦ (ok tt, l)
            | some q ↦
                reverse_entry env id p user reason (find_first (is_of_payment id) l.journals) l
          ] in
            IsNot violation out.0
      by_period none = tt
      by_period (some q) =
          (reverse_entry-Avoids (find_first (is_of_payment id) l.journals)
              (found-IsBalanced l.journals h)).at
            l

  when-IsNot :
      (b : Bool) (s : PaymentStore)
      → AreBalanced s.books.ledger.journals
      → IsNot violation (when b (in_ledger (reverse_books env id p user reason)) s).0
  when-IsNot false s h = tt
  when-IsNot true s h = reverse_books-IsNot s.books.ledger h

-- The last step of `reverse`.
change_payment-Avoids : (id : ℕ) (f : Payment → Payment) → Avoids violation (change_payment id f)
change_payment-Avoids id f =
    Avoids-then violation _ _ (Avoids-modify violation _)
      (Avoids-or_throw violation unknown (λ (s : PaymentStore). find_unique id s.payments) cc)

kept :
    {A : Type 0} (s : PaymentStore) (out : Result A × PaymentStore)
    → IsNot violation out.0
    → IsNot violation (keep_numbers s out).0
kept s (ok a, s') h = h
kept s (err e, s') h = h

IsNot-ne : {A : Type 0} (e : Error) (r : Result A) → IsNot e r → r ≢ err e
IsNot-ne e (ok a) h = λ same. cc
IsNot-ne e (err x) h = λ same. h cc

module _ (env : Env) (id user : ℕ) (reason : Text) where
  -- `reverse` after the lookup.
  abbrev rest : Payment → Action PaymentStore Payment
  rest p = do
    when (status_eq p.status posted) (in_ledger (reverse_books env id p user reason))
    change_payment id λ q. record q {
      status = reversed;
      reversed_by = some user;
      reversed_at = some env.now;
      reversal_reason = some reason;
    }

  rest-IsNot :
      (o : Option Payment) (s : PaymentStore)
      → AreBalanced s.books.ledger.journals
      → IsNot violation (((λ (x : PaymentStore). or_throw unknown o x) >>= rest) s).0
  rest-IsNot none s h = cc
  rest-IsNot (some p) s h =
      let first =
        when (status_eq p.status posted) (in_ledger (reverse_books env id p user reason)) s in
      next-IsNot violation first.0 s first.1 _
        (when-IsNot env id user reason p (status_eq p.status posted) s h)
        (λ a. change_payment-Avoids id _)

-- While every stored entry has the totals of its lines and is balanced to the cent, no call of `reverse`
-- throws a violated business rule, which is what the engine's balance check of the reversing entry
-- throws: whatever the payment, and whatever the numbering answers.
pub reverse-violation :
    (env : Env) (id user : ℕ) (reason : Text) (s : PaymentStore)
    → All (λ (x : ℕ × JournalEntry). IsBalanced x.1) s.books.ledger.journals
    → (reverse env id user reason s).0 ≢ err (business business_rule_violation)
unfolding reverse
reverse-violation env id user reason s h =
    IsNot-ne violation (reverse env id user reason s).0
      (kept s _ (rest-IsNot env id user reason (find_unique id s.payments) s h))
