-- ===== src/Accounting/Journal/Posting.antt =====
-- The journal entries that journal-engine.service.ts stores.
use inventory_pos.Common.{
  ℕ, ◌≤◌, ◌≡◌, refl, inl, inr, Bool, false, not, ◌&&◌, none, List, [], ◌∷◌, ◌==◌, arith, All,
  Bool-cases, Option-cases,
}
use inventory_pos.Common.Effects.{Result, err, Error, Action, ◌>>=◌}
use inventory_pos.Common.Does.{
  Does, throw_if-Does, or_throw-Does, gets-Does, check-Does, Silent-Does,
}
use inventory_pos.Common.Int.{◌-ℤ◌, abs}
use inventory_pos.Common.Table.{Table, find_unique}
use inventory_pos.Common.Text.{Text, text_eq}
use inventory_pos.Numbering.{Sequences}
use inventory_pos.Accounting.Store.{is_posted, JournalLine, JournalEntry, Ledger}
use inventory_pos.Accounting.Period.{has_any}
use inventory_pos.Accounting.Journal.Numbered.{
  next_number-Does, validate_period_open-Silent, get_current_period-Silent,
}
use inventory_pos.Accounting.Journal.{
  BusinessEvent, Env, total_debit, total_credit, validate_balance, existing_entry, auto_entry,
  insert_entry, set_sequences, next_number, post_event, process_event, ManualEntry, manual_entry,
  create_manual_entry,
}

-- The totals are those of the lines, and they differ by a cent at most.
pub record IsBalanced (je : JournalEntry) : Type 0 where
  pub debit : je.total_debit ≡ total_debit je.lines
  pub credit : je.total_credit ≡ total_credit je.lines
  pub near : abs (je.total_debit -ℤ je.total_credit) ≤ 1

-- Both were posted by the engine for the same document.
abbrev pub clash : JournalEntry → JournalEntry → Bool
clash je other =
    not (je.reference_id == 0)
    && text_eq other.reference_type je.reference_type
    && (other.reference_id == je.reference_id)
    && is_posted je.status
    && is_posted other.status
    && je.is_auto_generated
    && other.is_auto_generated

abbrev pub NoClash : Table JournalEntry → Type 0
NoClash [] = Unit
NoClash ((j, je) ∷ t) = All (λ (x : ℕ × JournalEntry). clash je x.1 ≡ false) t × NoClash t

-- Every entry is balanced, and no document has two automatic entries.
pub record IsSound (t : Table JournalEntry) : Type 0 where
  pub balanced : All (λ (x : ℕ × JournalEntry). IsBalanced x.1) t
  pub once : NoClash t

new_event :
    (env : Env) (event : BusinessEvent) (lines : List JournalLine) (number : Text)
    (t : Table JournalEntry)
    → existing_entry event t ≡ none
    → All (λ (x : ℕ × JournalEntry). clash (auto_entry env event lines number) x.1 ≡ false) t
new_event env event lines number [] h = tt
new_event env event lines number ((j, je) ∷ t) h =
    (ground arith, new_event env event lines number t (ground arith))

new_manual :
    (m : ManualEntry) (period : ℕ) (number : Text) (t : Table JournalEntry)
    → All (λ (x : ℕ × JournalEntry). clash (manual_entry m period number) x.1 ≡ false) t
new_manual m period number [] = tt
new_manual m period number ((j, je) ∷ t) = (ground arith, new_manual m period number t)

-- The call leaves sound entries if it finds them so.
abbrev pub Post : Ledger → Result JournalEntry × Ledger → Type 0
Post s (r, s') = IsSound s.journals → IsSound s'.journals

abbrev throws_nothing : (s : Ledger) (e : Error) → Post s (err e, s)
throws_nothing s e h = h

insert_entry-Does :
    (id : ℕ) (je : JournalEntry) (s : Ledger)
    → IsBalanced je
    → All (λ (x : ℕ × JournalEntry). clash je x.1 ≡ false) s.journals
    → Does Post s (insert_entry id je)
unfolding insert_entry
insert_entry-Does id je s b c = record {
  at =
      elim (Bool-cases
        (has_any (λ (other : JournalEntry). text_eq other.je_number je.je_number) s.journals)) [
          | inl taken ↦ rw taken λ h. h
          | inr free ↦ elim (Option-cases (find_unique id s.journals)) [
            | inl e ↦ rw (free, e) λ h. record { balanced = (b, h.balanced); once = (c, h.once) }
            | inr (o, e) ↦ rw (free, e) λ h. h
          ]
        ];
}

auto-IsBalanced :
    (env : Env) (event : BusinessEvent) (lines : List JournalLine) (number : Text)
    → not (validate_balance lines) ≡ false
    → IsBalanced (auto_entry env event lines number)
unfolding validate_balance
auto-IsBalanced env event lines number h = record {
  debit = refl;
  credit = refl;
  near = ground arith;
}

manual-IsBalanced :
    (m : ManualEntry) (period : ℕ) (number : Text)
    → not (validate_balance m.lines) ≡ false
    → IsBalanced (manual_entry m period number)
unfolding validate_balance
manual-IsBalanced m period number h = record { debit = refl; credit = refl; near = ground arith }

number-Does :
    (env : Env) (date : ℕ) (k : Text → Action Ledger JournalEntry) (s : Ledger)
    → ((number : Text) (q : Sequences) → Does Post (set_sequences q s) (k number))
    → Does Post s (next_number env date >>= k)
number-Does = next_number-Does Post (λ q s e h. h) (λ q s out h. h)

ruleset posting_rules = (
  throw_if-Does, or_throw-Does, gets-Does, check-Does, number-Does, insert_entry-Does,
  throws_nothing, validate_period_open-Silent, get_current_period-Silent, manual-IsBalanced,
  new_manual,
)

post_event-Does :
    (env : Env) (event : BusinessEvent) (s : Ledger)
    → existing_entry event s.journals ≡ none
    → Does Post s (post_event env event)
unfolding post_event
post_event-Does env event s h =
    search (posting_rules, auto-IsBalanced env event, new_event env event) depth 14

pub create_manual_entry-Does :
    (env : Env) (m : ManualEntry) (s : Ledger) → Does Post s (create_manual_entry env m)
unfolding create_manual_entry
create_manual_entry-Does env m s = search (posting_rules, Silent-Does) depth 12

pub process_event-Does :
    (env : Env) (event : BusinessEvent) (s : Ledger) → Does Post s (process_event env event)
unfolding process_event
process_event-Does env event s = record {
  at = elim (Option-cases (existing_entry event s.journals)) [
    | inl e ↦ rw (e, process_event) (post_event-Does env event s e).at
    | inr (je, e) ↦ rw (e, process_event) λ h. h
  ];
}
