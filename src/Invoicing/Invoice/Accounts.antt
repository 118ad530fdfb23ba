-- ===== src/Invoicing/Invoice/Accounts.antt =====
-- What the payments of an invoice add up to, and the calls of invoice.service.ts that keep it.
use inventory_pos.Common.{ℕ, ◌≡◌, refl, ◌∙◌, inl, inr, some, List, [], ◌∷◌, ◌==◌, if◌then◌else◌}
use inventory_pos.Common.Effects.{Result, ok, err, missing, business, validation_error, Action}
use inventory_pos.Common.Keeps.{Keeps, Keeps-or_throw, keeps_rules}
use inventory_pos.Common.Int.{ℤ, pos, ◌+ℤ◌, ◌-ℤ◌, ◌≤ℤ◌}
use inventory_pos.Common.Table.{find_unique, update, find_first, find_unique-update_inv}
use inventory_pos.Common.Text.{Text}
use inventory_pos.Accounting.Store.{Ledger}
use inventory_pos.Accounting.Period.{is_open}
use inventory_pos.Accounting.Journal.{Env}
use inventory_pos.Invoicing.Store.{Invoice, InvoiceAllocation, AuditAction, InvoiceStore}
use inventory_pos.Invoicing.Invoice.{
  live, existing_invoice, log, change_invoice, set_ledger, keep_numbers, journal_transaction,
  current_period, match_lines, write, post, save, dispute, write_off, cancel,
}

unfoldable pub allocated_to : ℕ → List InvoiceAllocation → ℤ
allocated_to id [] = pos 0
allocated_to id (a ∷ rows) =
    if id == a.invoice_id then a.allocated_amount +ℤ allocated_to id rows else allocated_to id rows

-- The paid amount is the sum of the allocations, the balance is what is left of the total, and it is
-- not negative.
pub record IsAccounted (rows : List InvoiceAllocation) (id : ℕ) (i : Invoice) : Type 0 where
  pub paid_sum : i.paid_amount ≡ allocated_to id rows
  pub left : i.outstanding_amount ≡ i.total_amount -ℤ i.paid_amount
  pub nonneg : pos 0 ≤ℤ i.outstanding_amount

pub record AllAccounted (s : InvoiceStore) : Type 0 where
  pub at :
      (id : ℕ) (i : Invoice) → find_unique id s.invoices ≡ some i → IsAccounted s.allocations id i

-- The change leaves the amounts alone.
pub record KeepsAmounts (f : Invoice → Invoice) : Type 0 where
  pub total : (i : Invoice) → (f i).total_amount ≡ i.total_amount
  pub paid : (i : Invoice) → (f i).paid_amount ≡ i.paid_amount
  pub outstanding : (i : Invoice) → (f i).outstanding_amount ≡ i.outstanding_amount

change_invoice-keeps :
    (id : ℕ) (f : Invoice → Invoice)
    → KeepsAmounts f
    → (s : InvoiceStore) → AllAccounted s
    → AllAccounted (record s { invoices = update id f s.invoices })
change_invoice-keeps id f k s h = record {
  at = λ j i e. elim (find_unique-update_inv j id f s.invoices e) [
    | inl (apart, old) ↦ h.at j i old
    | inr (same, (q, old, new)) ↦
        let a = h.at j q (rw same old) in
        record {
          paid_sum = rw new (k.paid q ∙ a.paid_sum);
          left = rw new (k.outstanding q ∙ (a.left ∙ rw (k.total q, k.paid q) refl));
          nonneg = rw (new, k.outstanding q) a.nonneg;
        }
  ];
}

-- The calls that change no amount.
set_ledger-keeps : (l : Ledger) (s : InvoiceStore) → AllAccounted s → AllAccounted (set_ledger l s)
set_ledger-keeps l s h = record { at = h.at }

log-keeps :
    (user : ℕ) (action : AuditAction) (id : ℕ) (s : InvoiceStore)
    → AllAccounted s
    → AllAccounted (log user action id s)
log-keeps user action id s h = record { at = h.at }

kept_numbers :
    {A : Type 0} (s : InvoiceStore) (r : Result A) (s' : InvoiceStore)
    → AllAccounted s
    → AllAccounted s'
    → AllAccounted (keep_numbers s (r, s')).1
kept_numbers s (ok a) s' h h' = h'
kept_numbers s (err e) s' h h' = record { at = h.at }

journal_transaction-Keeps :
    {A : Type 0} (m : Action InvoiceStore A)
    → Keeps AllAccounted m
    → Keeps AllAccounted (journal_transaction m)
journal_transaction-Keeps m k = record { at = λ s h. kept_numbers s (m s).0 (m s).1 h (k.at s h) }

existing_invoice-Keeps : (id : ℕ) → Keeps AllAccounted (existing_invoice id)
existing_invoice-Keeps id = record {
  at = λ s h. (Keeps-or_throw AllAccounted missing (live (find_unique id s.invoices))).at s h;
}

current_period-Keeps : Keeps AllAccounted current_period
current_period-Keeps = record {
  at = λ s h.
      (Keeps-or_throw AllAccounted (business validation_error)
          (find_first is_open s.ledger.periods)).at
        s h;
}

match_lines-Keeps : (i : Invoice) → Keeps AllAccounted (match_lines i)
match_lines-Keeps i = record { at = λ s h. h }

change_invoice-Keeps :
    (id : ℕ) (f : Invoice → Invoice) → KeepsAmounts f → Keeps AllAccounted (change_invoice id f)
change_invoice-Keeps id f k = record { at = change_invoice-keeps id f k }

ruleset account_rules = (
  keeps_rules, set_ledger-keeps, log-keeps, journal_transaction-Keeps, existing_invoice-Keeps,
  current_period-Keeps, match_lines-Keeps, change_invoice-Keeps,
)

write-Keeps :
    (env : Env) (id : ℕ) (existing : Invoice) (f : Invoice → Invoice) (type : Text) (amount : ℤ)
    (user : ℕ) (action : AuditAction)
    → KeepsAmounts f
    → Keeps AllAccounted (write env id existing f type amount user action)
write-Keeps env id existing f type amount user action k = search account_rules depth 10

save-Keeps :
    (id : ℕ) (f : Invoice → Invoice) (user : ℕ) (action : AuditAction)
    → KeepsAmounts f
    → Keeps AllAccounted (save id f user action)
save-Keeps id f user action k = search account_rules depth 8

abbrev unchanged :
    (f : Invoice → Invoice)
    → ((i : Invoice) → (f i).total_amount ≡ i.total_amount)
    → ((i : Invoice) → (f i).paid_amount ≡ i.paid_amount)
    → ((i : Invoice) → (f i).outstanding_amount ≡ i.outstanding_amount)
    → KeepsAmounts f
unchanged f t p o = record { total = t; paid = p; outstanding = o }

pub post-Keeps : (env : Env) (id user : ℕ) → Keeps AllAccounted (post env id user)
unfolding post
post-Keeps env id user = search (account_rules, write-Keeps, unchanged) depth 10

pub dispute-Keeps :
    (id : ℕ) (reason : Text) (user : ℕ) → Keeps AllAccounted (dispute id reason user)
unfolding dispute
dispute-Keeps id reason user = search (account_rules, save-Keeps, unchanged) depth 10

pub write_off-Keeps :
    (env : Env) (id user : ℕ) (reason : Text) → Keeps AllAccounted (write_off env id user reason)
unfolding write_off
write_off-Keeps env id user reason = search (account_rules, write-Keeps, unchanged) depth 10

pub cancel-Keeps : (id user : ℕ) → Keeps AllAccounted (cancel id user)
unfolding cancel
cancel-Keeps id user = search (account_rules, save-Keeps, unchanged) depth 10
