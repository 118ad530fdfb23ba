-- ===== src/Accounting/Journal.antt =====
-- src/services/journal-engine/journal-engine.service.ts. The write of an entry is one statement, so it
-- makes no difference here whether a transaction of the caller is passed.
pub mod Numbered
pub mod Posting
pub mod Again
use inventory_pos.Common.{
  ℕ, Bool, true, false, not, ◌&&◌, ◌||◌, Option, none, some, List, [], ◌∷◌, ◌++◌, ◌==◌, ltb, leb,
  length, any, map, if◌then◌else◌,
}
use inventory_pos.Common.Effects.{
  ErrorCode, not_found, validation_error, business_rule_violation, Error, business, internal,
  Action, Result, ok, err, pure, throw, gets, or_throw, throw_if, on_part, ◌>>=◌, ◌>>◌,
}
use inventory_pos.Common.Int.{ℤ, pos, ◌+ℤ◌, ◌-ℤ◌, abs, ltb_ℤ}
use inventory_pos.Common.Double.{Double, number, minus, sum_from, cent}
use inventory_pos.Common.Table.{Table, find_unique, find_first}
use inventory_pos.Common.Text.{Text, codes, text_eq}
use inventory_pos.Numbering
use inventory_pos.Numbering.{Day, Outcome, Sequences, generate}
use inventory_pos.Accounting.Store.{
  JournalLine, JournalEntry, JournalTemplate, JournalStatus, posted, is_posted, Ledger,
}
use inventory_pos.Accounting.Period.{validate_period_open, get_current_period, has_any}

-- `metadata` is not read. Lines that are missing are an empty list. The id 0 is the nil id.
pub record BusinessEvent : Type 0 where
  pub event_type : Text
  pub reference_type : Text
  pub reference_id : ℕ
  pub reference_number : Text
  pub entry_date : ℕ
  pub period_id : ℕ
  pub amount : ℤ
  pub lines : List JournalLine
  pub created_by : ℕ

-- How the database answers the numbering's queries, the calendar fields of a date, and the id that the
-- database gives to a new entry, and the time of the call.
pub record Env : Type 0 where
  pub db : ℕ → Outcome
  pub local_day : ℕ → Day
  pub new_id : ℕ
  pub now : ℕ

unfoldable pub total_debit : List JournalLine → ℤ
total_debit [] = pos 0
total_debit (l ∷ ls) = l.debit +ℤ total_debit ls

unfoldable pub total_credit : List JournalLine → ℤ
total_credit [] = pos 0
total_credit (l ∷ ls) = l.credit +ℤ total_credit ls

-- Amounts are whole hundredths here, so the rounding to cents changes nothing.
unfoldable pub validate_balance : List JournalLine → Bool
unfolding ◌-ℤ◌
validate_balance lines = leb (abs (total_debit lines -ℤ total_credit lines)) 1

-- A posted entry that the engine made for the same document.
abbrev pub is_duplicate : BusinessEvent → JournalEntry → Bool
is_duplicate event je =
    text_eq je.reference_type event.reference_type
    && (je.reference_id == event.reference_id)
    && is_posted je.status
    && je.is_auto_generated

abbrev pub existing_entry : BusinessEvent → Table JournalEntry → Option JournalEntry
existing_entry event journals =
    if event.reference_id == 0
    then none
    else elim (find_first (is_duplicate event) journals) [ none ↦ none | some (id, je) ↦ some je ]

abbrev pub find_template : Text → List JournalTemplate → Option JournalTemplate
find_template type [] = none
find_template type (t ∷ ts) = if text_eq type t.event_type then some t else find_template type ts

abbrev pub simple_line : ℕ → ℤ → ℤ → JournalLine
simple_line account debit credit = record {
  account_id = account;
  cost_center_id = none;
  description = none;
  debit = debit;
  credit = credit;
}

-- The event's lines, or two lines from the template.
unfoldable pub lines_of : BusinessEvent → JournalTemplate → List JournalLine
lines_of event template = elim event.lines [
  | [] ↦
      simple_line template.debit_account_id event.amount (pos 0)
      ∷ simple_line template.credit_account_id (pos 0) event.amount
      ∷ []
  | l ∷ ls ↦ l ∷ ls
]

abbrev pub auto_entry : Env → BusinessEvent → List JournalLine → Text → JournalEntry
auto_entry env event lines number = record {
  je_number = number;
  entry_date = event.entry_date;
  period_id = event.period_id;
  reference_type = event.reference_type;
  reference_id = event.reference_id;
  reference_number = event.reference_number;
  description = codes "Auto journal: " ++ event.event_type ++ codes " - " ++ event.reference_number;
  total_debit = total_debit lines;
  total_credit = total_credit lines;
  status = posted;
  is_auto_generated = true;
  posted_by = some event.created_by;
  posted_at = some env.now;
  reversed_by = none;
  reversed_at = none;
  created_by = event.created_by;
  lines = lines;
}

-- The database refuses an id or a number that is taken.
unfoldable pub insert_entry : ℕ → JournalEntry → Action Ledger JournalEntry
insert_entry id je s =
    if has_any (λ (other : JournalEntry). text_eq other.je_number je.je_number) s.journals
    then (err internal, s)
    else elim (find_unique id s.journals) [
      | some other ↦ (err internal, s)
      | none ↦ (ok je, record s { journals = (id, je) ∷ s.journals })
    ]

abbrev pub set_sequences : Sequences → Ledger → Ledger
set_sequences q s = record s { sequences = q }

unfoldable pub next_number : Env → ℕ → Action Ledger Text
unfolding generate
next_number env date =
    on_part (λ (s : Ledger). s.sequences) set_sequences
      (generate env.db Numbering.DocumentType.je (env.local_day date))

-- `processEvent` after the idempotency check.
unfoldable pub post_event : Env → BusinessEvent → Action Ledger JournalEntry
unfolding validate_period_open next_number insert_entry lines_of validate_balance
post_event env event = do
  validate_period_open event.period_id
  found ← gets λ (s : Ledger). find_template event.event_type s.templates
  template ← or_throw (business not_found) found
  throw_if (not template.is_active) (business not_found)
  throw_if (not (validate_balance (lines_of event template))) (business business_rule_violation)
  number ← next_number env event.entry_date
  insert_entry env.new_id (auto_entry env event (lines_of event template) number)

unfoldable pub process_event : Env → BusinessEvent → Action Ledger JournalEntry
unfolding post_event
process_event env event s = elim (existing_entry event s.journals) [
  | some je ↦ (ok je, s)
  | none ↦ post_event env event s
]

pub record ManualEntry : Type 0 where
  pub reference_type : Text
  pub reference_id : ℕ
  pub description : Text
  pub entry_date : ℕ
  pub lines : List JournalLine
  pub created_by : ℕ

abbrev pub manual_entry : ManualEntry → ℕ → Text → JournalEntry
manual_entry m period number = record {
  je_number = number;
  entry_date = m.entry_date;
  period_id = period;
  reference_type = m.reference_type;
  reference_id = m.reference_id;
  reference_number = number;
  description = m.description;
  total_debit = total_debit m.lines;
  total_credit = total_credit m.lines;
  status = posted;
  is_auto_generated = false;
  posted_by = none;
  posted_at = none;
  reversed_by = none;
  reversed_at = none;
  created_by = m.created_by;
  lines = m.lines;
}

unfoldable pub create_manual_entry : Env → ManualEntry → Action Ledger JournalEntry
unfolding get_current_period validate_period_open next_number insert_entry validate_balance
create_manual_entry env m = do
  active ← get_current_period
  validate_period_open active.0
  throw_if (not (validate_balance m.lines)) (business business_rule_violation)
  number ← next_number env m.entry_date
  insert_entry env.new_id (manual_entry m active.0 number)

-- The checks of `validateJournalBalance` on one line.
abbrev pub is_bad_line : JournalLine → Bool
is_bad_line l =
    ltb_ℤ l.debit (pos 0)
    || ltb_ℤ l.credit (pos 0)
    || ltb_ℤ (pos 0) l.debit && ltb_ℤ (pos 0) l.credit

-- The sums of the columns in doubles, as `reduce` adds them up.
unfoldable pub debit_number : List JournalLine → Double
unfolding sum_from number
debit_number lines = sum_from (pos 0) (map (λ (l : JournalLine). number l.debit) lines)

unfoldable pub credit_number : List JournalLine → Double
unfolding sum_from number
credit_number lines = sum_from (pos 0) (map (λ (l : JournalLine). number l.credit) lines)

-- The totals and their difference, or the first error; in doubles, unlike `validateBalance`.
unfoldable pub validate_journal_balance : List JournalLine → Result (Double × (Double × ℕ))
unfolding debit_number credit_number minus cent
validate_journal_balance lines =
    let debit = debit_number lines in
    let credit = credit_number lines in
    let difference = abs (minus debit credit) in
    if ltb (length lines) 2 || any is_bad_line lines
    then err (business validation_error)
    else if ltb cent difference
    then err (business business_rule_violation)
    else ok (debit, (credit, difference))
