-- ===== src/Accounting/Events.antt =====
-- JournalEventBuilder of src/services/journal-engine/journal-event.builder.ts. Its methods change the
-- builder and return it. The metadata, which the journal engine does not read, is left out.
pub mod Factory
pub mod Calls
pub mod Sums
pub mod Balanced
mod Tests
use inventory_pos.Common.{
  ℕ, Bool, true, false, ◌||◌, Option, none, some, List, [], ◌∷◌, ◌++◌, ltb, length, if◌then◌else◌,
}
use inventory_pos.Common.Effects.{Error, internal, Result, ok, err}
use inventory_pos.Common.Int.{ℤ, pos, abs, ltb_ℤ}
use inventory_pos.Common.Double.{minus, cent}
use inventory_pos.Common.Text.{Text}
use inventory_pos.Accounting.Store.{JournalLine}
use inventory_pos.Accounting.Journal.{
  BusinessEvent, total_debit, total_credit, debit_number, credit_number,
}

pub record JournalEventBuilder : Type 0 where
  pub event_type : Option Text
  pub reference_type : Option Text
  pub reference_id : Option ℕ
  pub reference_number : Option Text
  pub entry_date : Option ℕ
  pub period_id : Option ℕ
  pub created_by : Option ℕ
  pub lines : List JournalLine

abbrev pub new_builder : JournalEventBuilder
new_builder = record {
  event_type = none;
  reference_type = none;
  reference_id = none;
  reference_number = none;
  entry_date = none;
  period_id = none;
  created_by = none;
  lines = [];
}

abbrev pub with_event_type : Text → JournalEventBuilder → JournalEventBuilder
with_event_type type b = record b { event_type = some type }

abbrev pub with_reference : Text → ℕ → Text → JournalEventBuilder → JournalEventBuilder
with_reference type id number b = record b {
  reference_type = some type;
  reference_id = some id;
  reference_number = some number;
}

abbrev pub with_period : (period date : ℕ) → JournalEventBuilder → JournalEventBuilder
with_period period date b = record b { period_id = some period; entry_date = some date }

abbrev pub with_created_by : ℕ → JournalEventBuilder → JournalEventBuilder
with_created_by user b = record b { created_by = some user }

abbrev pub add_line : ℕ → ℤ → ℤ → Option ℕ → Option Text → JournalEventBuilder → JournalEventBuilder
add_line account debit credit cost_center text b = record b {
  lines =
      b.lines
      ++ record {
        account_id = account;
        cost_center_id = cost_center;
        description = text;
        debit = debit;
        credit = credit;
      }
        ∷ [];
}

abbrev pub add_debit_line : ℕ → ℤ → Option Text → JournalEventBuilder → JournalEventBuilder
add_debit_line account amount text = add_line account amount (pos 0) none text

abbrev pub add_credit_line : ℕ → ℤ → Option Text → JournalEventBuilder → JournalEventBuilder
add_credit_line account amount text = add_line account (pos 0) amount none text

-- The check that a caller may ask for; `build` does not make it.
unfoldable pub check_balance : JournalEventBuilder → Result JournalEventBuilder
unfolding debit_number credit_number minus cent
check_balance b =
    if ltb cent (abs (minus (debit_number b.lines) (credit_number b.lines)))
    then err internal
    else ok b

-- `!text`: null, or empty.
abbrev pub is_missing_text : Option Text → Bool
is_missing_text none = true
is_missing_text (some []) = true
is_missing_text (some (c ∷ s)) = false

abbrev pub is_missing : Option ℕ → Bool
is_missing none = true
is_missing (some n) = false

abbrev pub is_incomplete : JournalEventBuilder → Bool
is_incomplete b =
    is_missing_text b.event_type
    || is_missing_text b.reference_type
    || is_missing b.reference_id
    || is_missing_text b.reference_number
    || is_missing b.period_id
    || is_missing b.entry_date
    || is_missing b.created_by
    || ltb (length b.lines) 2

abbrev pub text_of : Option Text → Text
text_of none = []
text_of (some s) = s

abbrev pub number_of : Option ℕ → ℕ
number_of none = 0
number_of (some n) = n

-- `Math.max`
abbrev pub max_ℤ : ℤ → ℤ → ℤ
max_ℤ a b = if ltb_ℤ a b then b else a

abbrev pub built : JournalEventBuilder → BusinessEvent
built b = record {
  event_type = text_of b.event_type;
  reference_type = text_of b.reference_type;
  reference_id = number_of b.reference_id;
  reference_number = text_of b.reference_number;
  entry_date = number_of b.entry_date;
  period_id = number_of b.period_id;
  amount = max_ℤ (total_debit b.lines) (total_credit b.lines);
  lines = b.lines;
  created_by = number_of b.created_by;
}

-- Every missing field is a plain Error, so the order of the tests does not show.
unfoldable pub build : JournalEventBuilder → Result BusinessEvent
build b = if is_incomplete b then err internal else ok (built b)
