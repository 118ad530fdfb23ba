-- ===== src/Invoicing/Invoice/WriteOff.antt =====
-- What the books show of an invoice that invoice.service.ts writes off.
use inventory_pos.Common.{ℕ, ◌≡◌, refl, ◌∙◌, Bool, false, not, some, ◌∷◌, arith}
use inventory_pos.Common.Int.{ℤ}
use inventory_pos.Common.Effects.{
  ok, Error, business, validation_error, Action, throw_if, ◌>>=◌, ◌>>◌,
}
use inventory_pos.Common.Table.{find_unique, update, find_first, find_unique-update_self}
use inventory_pos.Common.Text.{Text, codes, trim}
use inventory_pos.Purchase.Store.{is_blank, annotate}
use inventory_pos.Accounting.Store.{FiscalPeriod, JournalEntry}
use inventory_pos.Accounting.Period.{is_open}
use inventory_pos.Accounting.Journal.{BusinessEvent, Env, existing_entry, process_event}
use inventory_pos.Accounting.Journal.Again.{process_event-existing}
use inventory_pos.Invoicing.Store.{
  overdue, written_off, status_eq, Invoice, AuditAction, InvoiceStore,
}
use inventory_pos.Invoicing.Invoice.{existing_invoice, violation, event_of, write, write_off}

abbrev pub write_off_event : Env → ℕ → Invoice → ℕ → ℕ → BusinessEvent
write_off_event env id i user period =
    event_of env (codes "WRITE_OFF_AR") id i user period i.outstanding_amount

-- The change of the row, with the notes that were read.
abbrev pub notes_of : Text → Invoice → Invoice → Invoice
notes_of reason existing i = record i {
  status = written_off;
  notes = some (trim (annotate existing.notes (codes "\nWritten Off: ") reason));
}

abbrev pub written : Text → Invoice → Invoice
written reason i = record i {
  status = written_off;
  notes = some (trim (annotate i.notes (codes "\nWritten Off: ") reason));
}

write_lem :
    (env : Env) (id user k : ℕ) (existing : Invoice) (f : Invoice → Invoice) (type : Text)
    (amount : ℤ) (action : AuditAction) (s : InvoiceStore) (p : FiscalPeriod) (je : JournalEntry)
    → find_unique id (update id f s.invoices) ≡ some (f existing)
    → (f existing).deleted ≡ false
    → find_first is_open s.ledger.periods ≡ some (k, p)
    → process_event env (event_of env type id existing user k amount) s.ledger ≡ (ok je, s.ledger)
    → write env id existing f type amount user action s ≡ (
      ok (f existing),
      record s {
        invoices = update id f s.invoices;
        audit = record { user_id = user; action = action; entity_id = id } ∷ s.audit;
      },
    )
write_lem env id user k existing f type amount action s p je after here open_one booked =
    ground arith

passed_checks :
    (b : Bool) (e : Error) (id : ℕ) (m : Invoice → Action InvoiceStore Invoice) (s : InvoiceStore)
    (i : Invoice)
    → b ≡ false
    → find_unique id s.invoices ≡ some i
    → i.deleted ≡ false
    → i.status ≡ overdue
    → (throw_if b e
          >> (existing_invoice id >>= λ x.
              throw_if (not (status_eq x.status overdue)) violation >> m x))
        s
      ≡ m i s
passed_checks b e id m s i pass found here due = ground arith

written_off_lem :
    (env : Env) (id user k : ℕ) (reason : Text) (s : InvoiceStore) (i : Invoice) (p : FiscalPeriod)
    (je : JournalEntry)
    → is_blank reason ≡ false
    → find_unique id s.invoices ≡ some i
    → i.deleted ≡ false
    → i.status ≡ overdue
    → find_first is_open s.ledger.periods ≡ some (k, p)
    → existing_entry (write_off_event env id i user k) s.ledger.journals ≡ some je
    → write_off env id user reason s ≡ (
      ok (written reason i),
      record s {
        invoices = update id (notes_of reason i) s.invoices;
        audit = record { user_id = user; action = AuditAction.write_off; entity_id = id } ∷ s.audit;
      },
    )
unfolding write_off
written_off_lem env id user k reason s i p je blank found here due open_one posted =
    passed_checks (is_blank reason) (business validation_error) id
      (λ x.
        write env id x (notes_of reason x) (codes "WRITE_OFF_AR") x.outstanding_amount user
          AuditAction.write_off)
      s i blank found here due
    ∙ write_lem env id user k i (notes_of reason i) (codes "WRITE_OFF_AR") i.outstanding_amount
        AuditAction.write_off s p je
        (find_unique-update_self id (notes_of reason i) s.invoices found) here open_one
        (process_event-existing env (write_off_event env id i user k) s.ledger je posted)

-- The entry of the posting stands in the way of the entry of the write-off: if the books hold a posted
-- automatic entry for the invoice, as `post` leaves one, then writing the invoice off returns and sets
-- its status, and no journal entry is added: the receivable stays in the books.
pub write_off-journals :
    (env : Env) (id user k : ℕ) (reason : Text) (s : InvoiceStore) (i : Invoice) (p : FiscalPeriod)
    (je : JournalEntry)
    → is_blank reason ≡ false
    → find_unique id s.invoices ≡ some i
    → i.deleted ≡ false
    → i.status ≡ overdue
    → find_first is_open s.ledger.periods ≡ some (k, p)
    → existing_entry (write_off_event env id i user k) s.ledger.journals ≡ some je
    → let (r, s') = write_off env id user reason s in
      (r ≡ ok (written reason i)) × (s'.ledger.journals ≡ s.ledger.journals)
write_off-journals env id user k reason s i p je blank found here due open_one posted =
    rw (written_off_lem env id user k reason s i p je blank found here due open_one posted)
      (refl, refl)
