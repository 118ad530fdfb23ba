-- ===== src/Invoicing/Reversal.antt =====
-- The journal entries that `reverse` in src/modules/invoicing/services/payment.service.ts writes.
use inventory_pos.Common.{ℕ, Bool, ◌&&◌, Option, none, some, ◌++◌, ◌==◌, map}
use inventory_pos.Common.Effects.{Action, ok, pure, modify, ◌>>◌}
use inventory_pos.Common.Table.{update, find_first}
use inventory_pos.Common.Text.{Text, codes, text_eq}
use inventory_pos.Accounting.Store.{JournalLine, JournalStatus, is_posted, JournalEntry, Ledger}
use inventory_pos.Accounting.Period.{is_open}
use inventory_pos.Accounting.Journal.{Env, ManualEntry, create_manual_entry}
use inventory_pos.Invoicing.Store.{Payment}

-- A line of the reversal.
abbrev pub mirror_line : Text → JournalLine → JournalLine
mirror_line text l = record l { description = some text; debit = l.credit; credit = l.debit }

abbrev pub is_of_payment : ℕ → JournalEntry → Bool
is_of_payment id je =
    text_eq je.reference_type (codes "PAYMENT") && (je.reference_id == id) && is_posted je.status

abbrev pub reversal_of : Env → ℕ → Payment → ℕ → Text → JournalEntry → ManualEntry
reversal_of env id p user reason je = record {
  reference_type = codes "PAYMENT_REVERSAL";
  reference_id = id;
  description = codes "Reversal of Payment " ++ p.payment_number;
  entry_date = env.now;
  lines =
      map
        (mirror_line (codes "Reversal of Payment " ++ (p.payment_number ++ (codes ": " ++ reason))))
        je.lines;
  created_by = user;
}

-- The reversing entry and the mark on the original one, when there is one.
abbrev pub reverse_entry :
    Env → ℕ → Payment → ℕ → Text → Option (ℕ × JournalEntry) → Action Ledger (Unit {0})
reverse_entry env id p user reason none = pure tt
reverse_entry env id p user reason (some (k, je)) = do
  create_manual_entry env (reversal_of env id p user reason je)
  modify λ (l : Ledger). record l {
    journals =
        update k
          (λ (e : JournalEntry). record e {
            status = JournalStatus.reversed;
            reversed_by = some user;
            reversed_at = some env.now;
          })
          l.journals;
  }

-- The books are left alone when no period is open.
abbrev pub reverse_books : Env → ℕ → Payment → ℕ → Text → Action Ledger (Unit {0})
reverse_books env id p user reason l = elim (find_first is_open l.periods) [
  | none ↦ (ok tt, l)
  | some q ↦ reverse_entry env id p user reason (find_first (is_of_payment id) l.journals) l
]
