-- ===== src/Accounting/Period/Closing/Rows.antt =====
-- What the closing checklist of period-manager.service.ts finds, as statements about the rows.
use inventory_pos.Common.{
  ℕ, ◌≤◌, ◌≡◌, refl, ◌↔◌, inl, inr, Bool, true, false, not, ◌&&◌, List, [], ◌∷◌, ◌==◌, arith, All,
  Bool-cases,
}
use inventory_pos.Common.Double.{distance, cent}
use inventory_pos.Common.Table.{Table}
use inventory_pos.Common.Text.{Text, codes, text_eq}
use inventory_pos.Accounting.Store.{
  PeriodStatus, draft, open_, closed, status_eq, FiscalPeriod, JournalEntry, Dated,
  BankReconciliation, Ledger,
}
use inventory_pos.Accounting.Period.{
  has_any, count, is_in, open_invoice_statuses, pending_payment_statuses,
  incomplete_opname_statuses, is_inside, is_unbalanced, is_earlier, blocks, checklist_of, can_close,
}

none_counted :
    {A : Type 0} (p : A → Bool) (xs : List A) → (count p xs ≡ 0) ↔ All (λ (x : A). p x ≡ false) xs
none_counted p [] = (λ e. tt, λ a. refl)
none_counted p (x ∷ xs) = elim (Bool-cases (p x)) [
  | inl hit ↦ (λ e. ground arith, λ a. cc)
  | inr miss ↦ (
    λ e. (miss, (none_counted p xs).0 (ground arith)),
    λ a. ground (arith, (none_counted p xs).1 a.1),
  )
]

has_none :
    {R : Type 0} (p : R → Bool) (t : Table R)
    → (has_any p t ≡ false) ↔ All (λ (x : ℕ × R). p x.1 ≡ false) t
has_none p [] = (λ e. tt, λ a. refl)
has_none p ((j, r) ∷ t) = (
  λ e. (ground arith, (has_none p t).0 (ground arith)),
  λ a. ground (arith, (has_none p t).1 a.1),
)

All-iff :
    {A : Type 0} {P Q : A → Type 0} → ((x : A) → P x ↔ Q x) → (xs : List A) → All P xs ↔ All Q xs
All-iff h [] = (λ a. a, λ a. a)
All-iff h (x ∷ xs) =
    (λ a. ((h x).0 a.0, (All-iff h xs).0 a.1), λ a. ((h x).1 a.0, (All-iff h xs).1 a.1))

-- What the rules of closing ask of the tables, as statements about their rows.
pub record IsClosable (id : ℕ) (p : FiscalPeriod) (s : Ledger) : Type 0 where
  pub is_open : p.status ≡ open_
  pub earlier :
      All (λ (x : ℕ × FiscalPeriod). is_earlier x.1 p ≡ true → x.1.status ≡ closed) s.periods
  pub invoices :
      All
        (λ (i : Dated).
          p.start_date ≤ i.date
          → i.date ≤ p.end_date
          → is_in i.status open_invoice_statuses ≡ false)
        s.invoices
  pub payments :
      All
        (λ (i : Dated).
          p.start_date ≤ i.date
          → i.date ≤ p.end_date
          → is_in i.status pending_payment_statuses ≡ false)
        s.payments
  pub journals :
      All
        (λ (x : ℕ × JournalEntry).
          x.1.period_id ≡ id → distance x.1.total_debit x.1.total_credit ≤ cent)
        s.journals
  pub reconciliations :
      All
        (λ (b : BankReconciliation). b.period_id ≡ id → text_eq b.status (codes "COMPLETED") ≡ true)
        s.reconciliations
  pub opnames : All (λ (o : Text). is_in o incomplete_opname_statuses ≡ false) s.opnames

earlier_iff :
    (p q : FiscalPeriod) → (blocks p q ≡ false) ↔ (is_earlier q p ≡ true → q.status ≡ closed)
earlier_iff p q = (λ h e. shut q.status (rw e at h), λ h. by_test (is_earlier q p) refl h)
  where
    shut : (c : PeriodStatus) → (not (status_eq c closed) && true) ≡ false → c ≡ closed
    shut draft h = cc
    shut open_ h = cc
    shut closed h = refl

    by_test :
        (b : Bool)
        → is_earlier q p ≡ b
        → (is_earlier q p ≡ true → q.status ≡ closed)
        → blocks p q ≡ false
    by_test true e h = rw (h e) refl
    by_test false e h = ground arith

dated_iff :
    (p : FiscalPeriod) (statuses : List Text) (i : Dated)
    → ((is_in i.status statuses && is_inside p i.date) ≡ false)
      ↔ (p.start_date ≤ i.date → i.date ≤ p.end_date → is_in i.status statuses ≡ false)
dated_iff p statuses i = by_test (is_in i.status statuses)
  where
    outside :
        (b : Bool)
        → is_inside p i.date ≡ b
        → (p.start_date ≤ i.date → i.date ≤ p.end_date → true ≡ false)
        → is_inside p i.date ≡ false
    outside true e h = let same = h (ground arith) (ground arith) in cc
    outside false e h = e

    by_test :
        (b : Bool)
        → ((b && is_inside p i.date) ≡ false)
          ↔ (p.start_date ≤ i.date → i.date ≤ p.end_date → b ≡ false)
    by_test true = (λ e from to. ground arith, λ h. outside (is_inside p i.date) refl h)
    by_test false = (λ e from to. refl, λ h. refl)

journal_iff :
    (id : ℕ) (je : JournalEntry)
    → (((je.period_id == id) && is_unbalanced je) ≡ false)
      ↔ (je.period_id ≡ id → distance je.total_debit je.total_credit ≤ cent)
unfolding is_unbalanced
journal_iff id je = (λ e same. ground arith, λ h. foreign (je.period_id == id) refl h)
  where
    foreign :
        (b : Bool)
        → (je.period_id == id) ≡ b
        → (je.period_id ≡ id → distance je.total_debit je.total_credit ≤ cent)
        → ((je.period_id == id) && is_unbalanced je) ≡ false
    foreign true e h = let near = h (ground arith) in ground arith
    foreign false e h = rw e refl

reconciliation_iff :
    (id : ℕ) (b : BankReconciliation)
    → (((b.period_id == id) && not (text_eq b.status (codes "COMPLETED"))) ≡ false)
      ↔ (b.period_id ≡ id → text_eq b.status (codes "COMPLETED") ≡ true)
reconciliation_iff id b = by_test (text_eq b.status (codes "COMPLETED"))
  where
    foreign :
        (c : Bool)
        → (b.period_id == id) ≡ c
        → (b.period_id ≡ id → false ≡ true)
        → ((b.period_id == id) && true) ≡ false
    foreign true e h = let same = h (ground arith) in cc
    foreign false e h = rw e refl

    by_test : (c : Bool) → (((b.period_id == id) && not c) ≡ false) ↔ (b.period_id ≡ id → c ≡ true)
    by_test true = (λ e same. refl, λ h. ground arith)
    by_test false = (λ e same. ground arith, λ h. foreign (b.period_id == id) refl h)

all_zero :
    (a b c d e : ℕ)
    → (((a == 0) && (b == 0) && (c == 0) && (d == 0) && (e == 0)) ≡ true)
      ↔ ((a ≡ 0) × (b ≡ 0) × (c ≡ 0) × (d ≡ 0) × (e ≡ 0))
all_zero a b c d e = (
  λ h. (ground arith, ground arith, ground arith, ground arith, ground arith),
  λ (z, y, x, w, v). rw (z, y, x, w, v) refl,
)

-- The list that the code computes is empty exactly when the rules are met.
pub checklist_iff :
    (id : ℕ) (p : FiscalPeriod) (s : Ledger)
    → p.status ≡ open_
    → ((has_any (blocks p) s.periods ≡ false) × (can_close (checklist_of id p s) ≡ true))
      ↔ IsClosable id p s
checklist_iff id p s o = (
  λ (early, list).
      let c = checklist_of id p s in
      let (a, b, j, r, n) =
        (all_zero c.open_invoices c.pending_payments c.unbalanced_journals
            c.incomplete_reconciliations c.incomplete_opnames).0
          list in
      record {
        is_open = o;
        earlier = (All-iff (λ x. earlier_iff p x.1) s.periods).0 ((has_none _ _).0 early);
        invoices =
            (All-iff (dated_iff p open_invoice_statuses) s.invoices).0 ((none_counted _ _).0 a);
        payments =
            (All-iff (dated_iff p pending_payment_statuses) s.payments).0 ((none_counted _ _).0 b);
        journals = (All-iff (λ x. journal_iff id x.1) s.journals).0 ((none_counted _ _).0 j);
        reconciliations =
            (All-iff (reconciliation_iff id) s.reconciliations).0 ((none_counted _ _).0 r);
        opnames = (none_counted _ _).0 n;
      },
  λ h.
      let c = checklist_of id p s in
      (
        (has_none _ _).1 ((All-iff (λ x. earlier_iff p x.1) s.periods).1 h.earlier),
        (all_zero c.open_invoices c.pending_payments c.unbalanced_journals
              c.incomplete_reconciliations c.incomplete_opnames).1
            (
              (none_counted _ _).1
                  ((All-iff (dated_iff p open_invoice_statuses) s.invoices).1 h.invoices),
              (none_counted _ _).1
                  ((All-iff (dated_iff p pending_payment_statuses) s.payments).1 h.payments),
              (none_counted _ _).1 ((All-iff (λ x. journal_iff id x.1) s.journals).1 h.journals),
              (none_counted _ _).1
                  ((All-iff (reconciliation_iff id) s.reconciliations).1 h.reconciliations),
              (none_counted _ _).1 h.opnames,
            ),
      ),
)
