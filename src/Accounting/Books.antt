-- ===== src/Accounting/Books.antt =====
-- Any mixture of calls of period-manager.service.ts and journal-engine.service.ts, one after the other.
pub mod Sound
pub mod Frozen
use mathlib.Core.Option.{some-injective}
use inventory_pos.Common.{
  ℕ, ◌≡◌, refl, ◌≢◌, sym, ◌∙◌, inl, inr, Bool, true, false, not, ◌&&◌, ◌||◌, Option, none, some,
  List, [], ◌∷◌, ◌==◌, ltb, leb, arith, Bool-cases, Option-cases, if◌then◌else◌,
}
use inventory_pos.Common.Effects.{Result, ok, err, Error, Action, ◌>>=◌, ◌>>◌}
use inventory_pos.Common.Does.{
  Does, throw_if-Does, or_throw-Does, gets-Does, check-Does, Silent, Silent-Does,
}
use inventory_pos.Common.Table.{Table, find_unique, update, find_unique-update_ne}
use inventory_pos.Common.Text.{Text, text_eq}
use inventory_pos.Numbering.{Sequences}
use inventory_pos.Accounting.Store.{
  PeriodStatus, draft, open_, closed, status_eq, FiscalPeriod, JournalLine, JournalEntry, Ledger,
}
use inventory_pos.Accounting.Period
use inventory_pos.Accounting.Period.{
  CreateFiscalPeriod, has_any, insert_period, new_period, save_period, find_period_or_throw,
}
use inventory_pos.Accounting.Period.Calendar.{save_period_lem}
use inventory_pos.Accounting.Period.Calendar.Rows.{IsCalendar}
use inventory_pos.Accounting.Journal
use inventory_pos.Accounting.Journal.{
  BusinessEvent, Env, ManualEntry, insert_entry, set_sequences, next_number,
}
use inventory_pos.Accounting.Journal.Numbered.{next_number-Does}

pub data Call : Type 0 where
  create_period : (new_id : ℕ) → CreateFiscalPeriod → Call
  open_period : ℕ → Call
  close_period : (now id user : ℕ) → Call
  process_event : Env → BusinessEvent → Call
  create_manual_entry : Env → ManualEntry → Call

pub perform : Call → Ledger → Ledger
perform (create_period id new) s = (Period.create_period id new s).1
perform (open_period id) s = (Period.open_period id s).1
perform (close_period now id user) s = (Period.close_period now id user s).1
perform (process_event env event) s = (Journal.process_event env event s).1
perform (create_manual_entry env m) s = (Journal.create_manual_entry env m s).1

pub run : List Call → Ledger → Ledger
unfolding perform
run [] s = s
run (c ∷ cs) s = run cs (perform c s)
