-- ===== src/Accounting/Tests.antt =====
-- The accounting services at concrete inputs.
use inventory_pos.Common.{ℕ, ◌+◌, ◌≡◌, refl, ◌↔◌, inr, true, none, some, List, [], ◌∷◌, arith}
use inventory_pos.Common.Effects.{ok, err, business, period_locked, Returned}
use inventory_pos.Common.Int.{ℤ, pos, ◌+ℤ◌, ◌-ℤ◌}
use inventory_pos.Common.Double.{distance, cent}
use inventory_pos.Common.Table.{find_unique, update}
use inventory_pos.Common.Text.{codes}
use inventory_pos.Numbering.{Outcome}
use inventory_pos.Accounting.Store.{
  PeriodStatus, open_, closed, FiscalPeriod, JournalStatus, JournalLine, JournalEntry, Ledger,
}
use inventory_pos.Accounting.Period.{close_period, get_period_for_date, is_unbalanced}
use inventory_pos.Accounting.Period.Calendar.Rows.{IsCalendar}
use inventory_pos.Accounting.Period.Closing.{closed_by, close_period-ok_iff}
use inventory_pos.Accounting.Period.Closing.Rows.{IsClosable}
use inventory_pos.Accounting.Period.Lookup.{get_period_for_date_lem}
use inventory_pos.Accounting.Journal.{
  BusinessEvent, Env, validate_balance, total_debit, total_credit, process_event,
}
use inventory_pos.Accounting.Journal.Posting.{IsSound}
use inventory_pos.Accounting.Journal.Again.{process_event-again}
use inventory_pos.Accounting.Books
use inventory_pos.Accounting.Books.{Call, run}
use inventory_pos.Accounting.Books.Sound.{AreSound, run-AreSound}
use inventory_pos.Accounting.Books.Frozen.{entries_of, run-entries_of}

abbrev period : ℕ → ℕ → ℕ → PeriodStatus → FiscalPeriod
period month start end status = record {
  period_name = codes "P";
  year = 2026;
  month = month;
  start_date = start;
  end_date = end;
  status = status;
  closed_by = none;
  closed_at = none;
}

abbrev january : FiscalPeriod
january = period 1 0 99 closed

abbrev february : FiscalPeriod
february = period 2 100 199 open_

abbrev ledger : Ledger
ledger = record {
  periods = (2, february) ∷ (1, january) ∷ [];
  journals = [];
  templates =
      record {
        event_type = codes "CASH_IN";
        debit_account_id = 1;
        credit_account_id = 2;
        is_active = true;
      }
      ∷ [];
  sequences = [];
  invoices = [];
  payments = [];
  reconciliations = [];
  opnames = [];
}

abbrev env : ℕ → Env
env id = record {
  db = λ n. Outcome.row;
  local_day = λ date. record { year = 2026; month = 1; day = 3 };
  new_id = id;
  now = 150;
}

abbrev event : ℕ → ℕ → BusinessEvent
event document period = record {
  event_type = codes "CASH_IN";
  reference_type = codes "CASH";
  reference_id = document;
  reference_number = codes "C-1";
  entry_date = 150;
  period_id = period;
  amount = pos 2500;
  lines = [];
  created_by = 7;
}

ledger-IsCalendar : IsCalendar ledger.periods
ledger-IsCalendar = record {
  proper = (
    record { month_from = omega arith; month_to = omega arith; days = omega arith },
    (record { month_from = omega arith; month_to = omega arith; days = omega arith }, tt),
  );
  apart = ((record { days = inr (omega arith); months = inr (omega arith) }, tt), (tt, tt));
  one_open = omega arith;
}

ledger-IsSound : IsSound ledger.journals
ledger-IsSound = record { balanced = tt; once = tt }

abbrev calls : List Call
calls =
    Books.process_event (env 10) (event 5 2)
    ∷ Books.process_event (env 11) (event 5 2)
    ∷ Books.process_event (env 12) (event 6 1)
    ∷ Books.close_period 200 2 7
    ∷ Books.create_period 3 (record {
      period_name = codes "March";
      year = 2026;
      month = 3;
      start_date = 200;
      end_date = 299;
    })
    ∷ Books.open_period 3
    ∷ []

run-AreSound_example : AreSound (run calls ledger)
run-AreSound_example = run-AreSound calls ledger (ledger-IsCalendar, ledger-IsSound)

run-entries_of_example :
    (find_unique 1 (run calls ledger).periods ≡ some january)
    × (entries_of 1 (run calls ledger).journals ≡ entries_of 1 ledger.journals)
run-entries_of_example = run-entries_of 1 january calls ledger refl refl

-- An entry in the closed period is refused.
locked : (process_event (env 12) (event 6 1) ledger).0 ≡ err (business period_locked)
unfolding process_event
locked = refl

abbrev line : ℕ → ℤ → ℤ → JournalLine
line account debit credit = record {
  account_id = account;
  cost_center_id = none;
  description = none;
  debit = debit;
  credit = credit;
}

abbrev first_entry : JournalEntry
first_entry = record {
  je_number = codes "JE-202602-00001";
  entry_date = 150;
  period_id = 2;
  reference_type = codes "CASH";
  reference_id = 5;
  reference_number = codes "C-1";
  description = codes "Auto journal: CASH_IN - C-1";
  total_debit = pos 2500;
  total_credit = pos 2500;
  status = JournalStatus.posted;
  is_auto_generated = true;
  posted_by = some 7;
  posted_at = some 150;
  reversed_by = none;
  reversed_at = none;
  created_by = 7;
  lines = line 1 (pos 2500) (pos 0) ∷ line 2 (pos 0) (pos 2500) ∷ [];
}

first_entry-ok : (process_event (env 10) (event 5 2) ledger).0 ≡ ok first_entry
unfolding process_event total_debit total_credit ◌+ℤ◌
first_entry-ok = refl

process_event-again_example :
    let s' = (process_event (env 10) (event 5 2) ledger).1 in
    process_event (env 11) (event 5 2) s' ≡ (ok first_entry, s')
process_event-again_example =
    process_event-again (env 10) (env 11) (event 5 2) ledger first_entry (omega arith)
      first_entry-ok

-- The doubles of 0.01, and of 100.01 - 100.00, which is more.
cent_test : cent ≡ 5_764_607_523_034_235
unfolding cent
cent_test = refl

distance_test : distance (pos 10_001) (pos 10_000) ≡ 5_764_607_523_037_184
unfolding distance
distance_test = refl

-- The engine takes an entry of one cent's difference; the closing counts some of them as unbalanced.
abbrev cent_off : ℕ → JournalEntry
cent_off amount = record first_entry {
  total_debit = pos (amount + 1);
  total_credit = pos amount;
  lines = line 1 (pos (amount + 1)) (pos 0) ∷ line 2 (pos 0) (pos amount) ∷ [];
}

one_cent_off :
    (validate_balance (cent_off 10_000).lines ≡ true)
    × (is_unbalanced (cent_off 10_000) ≡ true)
    × (is_unbalanced (cent_off 100) ≡ true)
unfolding validate_balance is_unbalanced distance cent total_debit total_credit ◌+ℤ◌ ◌-ℤ◌
one_cent_off = (refl, refl, refl)

close_period-ok_iff_example :
    (Returned (close_period 200 2 7 ledger) ↔ IsClosable 2 february ledger)
    × (IsClosable 2 february ledger
        → close_period 200 2 7 ledger ≡ (
          ok (closed_by 200 7 february),
          record ledger { periods = update 2 (closed_by 200 7) ledger.periods },
        ))
close_period-ok_iff_example = close_period-ok_iff 200 2 7 february ledger refl

get_period_for_date_lem_example : get_period_for_date 99 ledger ≡ (ok (1, january), ledger)
get_period_for_date_lem_example =
    get_period_for_date_lem 99 1 january ledger ledger-IsCalendar refl (omega arith) (omega arith)
