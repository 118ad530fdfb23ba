-- ===== src/Invoicing/Invoice/Calls.antt =====
-- `applyPayment`, and any mixture of calls of invoice.service.ts, one after the other.
use mathlib.Core.Option.{some-injective}
use inventory_pos.Common.{
  ℕ, ◌≡◌, refl, sym, ap, ◌∙◌, ◌≢◌, inl, inr, false, Option, none, some, List, [], ◌∷◌, arith,
}
use inventory_pos.Common.Effects.{Result, err, Error, missing, Action, ◌>>=◌}
use inventory_pos.Common.Does.{Does, throw_if-Does, or_throw-Does}
use inventory_pos.Common.Int.{ℤ, pos, ◌+ℤ◌, ◌-ℤ◌, ◌≤ℤ◌, ltb_ℤ, +ℤ_parts, -ℤ_parts, eq_of_parts}
use inventory_pos.Common.Table.{find_unique, find_unique-update_inv}
use inventory_pos.Common.Text.{Text}
use inventory_pos.Accounting.Journal.{Env}
use inventory_pos.Invoicing.Store.{Invoice, InvoiceAllocation, InvoiceStore}
use inventory_pos.Invoicing.Invoice
use inventory_pos.Invoicing.Invoice.{
  live, existing_invoice, log, is_due, pay, status_after, write_allocation,
}
use inventory_pos.Invoicing.Invoice.Accounts.{
  allocated_to, AllAccounted, post-Keeps, dispute-Keeps, write_off-Keeps, cancel-Keeps,
}

pub +ℤ_comm : (a b : ℤ) → a +ℤ b ≡ b +ℤ a
+ℤ_comm a b = eq_of_parts (a +ℤ b) (b +ℤ a) (omega (arith, +ℤ_parts a b, +ℤ_parts b a))

pub left_nonneg :
    (total paid outstanding amount : ℤ)
    → outstanding ≡ total -ℤ paid
    → ltb_ℤ outstanding amount ≡ false
    → pos 0 ≤ℤ (total -ℤ (paid +ℤ amount))
left_nonneg total paid outstanding amount e enough =
    let within : amount ≤ℤ (total -ℤ paid) = at_most (total -ℤ paid) (rw e at enough) in
    omega
      (arith, within, -ℤ_parts total paid, +ℤ_parts paid amount, -ℤ_parts total (paid +ℤ amount))
  where
    at_most : (o : ℤ) → ltb_ℤ o amount ≡ false → amount ≤ℤ o
    at_most o h = ground arith

pub allocated_to_self :
    (a : InvoiceAllocation) (rows : List InvoiceAllocation)
    → allocated_to a.invoice_id (a ∷ rows) ≡ a.allocated_amount +ℤ allocated_to a.invoice_id rows
unfolding allocated_to
allocated_to_self a rows = ground arith

pub allocated_to-other :
    (id : ℕ) (a : InvoiceAllocation) (rows : List InvoiceAllocation)
    → id ≢ a.invoice_id
    → allocated_to id (a ∷ rows) ≡ allocated_to id rows
unfolding allocated_to
allocated_to-other id a rows h = ground arith

abbrev Post : {A : Type 0} → InvoiceStore → Result A × InvoiceStore → Type 0
Post s (r, s') = AllAccounted s → AllAccounted s'

live_found : (o : Option Invoice) (i : Invoice) → live o ≡ some i → o ≡ some i
live_found none i h = cc
live_found (some q) i h = ground arith

write_allocation-Does :
    (existing : Invoice) (a : InvoiceAllocation) (user : ℕ) (s : InvoiceStore)
    → live (find_unique a.invoice_id s.invoices) ≡ some existing
    → ltb_ℤ existing.outstanding_amount a.allocated_amount ≡ false
    → Does Post s (write_allocation existing a user)
write_allocation-Does existing a user s found enough = record {
  at = λ h. record {
    at = λ j i e.
        elim (find_unique-update_inv j a.invoice_id (pay existing a.allocated_amount) s.invoices
          e) [
            | inl (apart, old) ↦
                let k = h.at j i old in
                record {
                  paid_sum = k.paid_sum ∙ sym (allocated_to-other j a s.allocations apart);
                  left = k.left;
                  nonneg = k.nonneg;
                }
            | inr (same, (q, old, new)) ↦
                let row = live_found _ existing found in
                let k = h.at a.invoice_id existing row in
                let made : i ≡ pay existing a.allocated_amount existing =
                  new ∙ ap (pay existing a.allocated_amount) (some-injective _ _ (sym old ∙ row)) in
                record {
                  paid_sum =
                      rw (made, same)
                        (ap (λ x. x +ℤ a.allocated_amount) k.paid_sum
                          ∙ +ℤ_comm (allocated_to a.invoice_id s.allocations) a.allocated_amount
                          ∙ sym (allocated_to_self a s.allocations));
                  left = rw made refl;
                  nonneg = rw made (
                      left_nonneg existing.total_amount existing.paid_amount
                        existing.outstanding_amount a.allocated_amount k.left enough);
                }
          ];
  };
}

existing_invoice-Does :
    {A : Type 0} (id : ℕ) (m : Invoice → Action InvoiceStore A) (s : InvoiceStore)
    → ((i : Invoice) → live (find_unique id s.invoices) ≡ some i → Does Post s (m i))
    → Does Post s (existing_invoice id >>= m)
existing_invoice-Does id m s h = record {
  at = (or_throw-Does Post (λ s e h. h) missing (live (find_unique id s.invoices)) m s h).at;
}

throws_nothing : (s : InvoiceStore) (e : Error) → Post {A = InvoiceAllocation} s (err e, s)
throws_nothing s e h = h

apply_payment-Does :
    (now id payment : ℕ) (amount : ℤ) (user : ℕ) (s : InvoiceStore)
    → Does Post s (Invoice.apply_payment now id payment amount user)
unfolding Invoice.apply_payment
apply_payment-Does now id payment amount user s =
    search (throw_if-Does, existing_invoice-Does, throws_nothing, write_allocation-Does) depth 10

-- A call of the service.
pub data Call : Type 0 where
  post : Env → (id user : ℕ) → Call
  apply_payment : (now id payment : ℕ) → ℤ → ℕ → Call
  dispute : ℕ → Text → ℕ → Call
  write_off : Env → (id user : ℕ) → Text → Call
  cancel : (id user : ℕ) → Call

unfoldable pub perform : Call → InvoiceStore → InvoiceStore
perform (post env id user) s = (Invoice.post env id user s).1
perform (apply_payment now id payment amount user) s =
    (Invoice.apply_payment now id payment amount user s).1
perform (dispute id reason user) s = (Invoice.dispute id reason user s).1
perform (write_off env id user reason) s = (Invoice.write_off env id user reason s).1
perform (cancel id user) s = (Invoice.cancel id user s).1

unfoldable pub run : List Call → InvoiceStore → InvoiceStore
unfolding perform
run [] s = s
run (c ∷ cs) s = run cs (perform c s)

pub perform-AllAccounted :
    (c : Call) (s : InvoiceStore) → AllAccounted s → AllAccounted (perform c s)
unfolding perform
perform-AllAccounted (post env id user) s h = (post-Keeps env id user).at s h
perform-AllAccounted (apply_payment now id payment amount user) s h =
    (apply_payment-Does now id payment amount user s).at h
perform-AllAccounted (dispute id reason user) s h = (dispute-Keeps id reason user).at s h
perform-AllAccounted (write_off env id user reason) s h =
    (write_off-Keeps env id user reason).at s h
perform-AllAccounted (cancel id user) s h = (cancel-Keeps id user).at s h

-- Whatever calls of these five are made, in whatever order and with whatever arguments, and whether
-- they return or throw: the paid amount of every invoice is the sum of what has been allocated to it,
-- its balance is the total less that, and the balance is never negative.
pub run-AllAccounted :
    (cs : List Call) (s : InvoiceStore) → AllAccounted s → AllAccounted (run cs s)
unfolding run
run-AllAccounted [] s h = h
run-AllAccounted (c ∷ cs) s h = run-AllAccounted cs (perform c s) (perform-AllAccounted c s h)
