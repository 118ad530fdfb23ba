-- ===== src/Accounting/Books/Sound.antt =====
-- The calendar and the entries under any sequence of calls of the two accounting services.
use inventory_pos.Common.{ℕ, inl, inr, Bool, List, [], ◌∷◌, arith, Option-cases}
use inventory_pos.Common.Effects.{business, not_found}
use inventory_pos.Common.Keeps.{Keeps, Keeps-or_throw, keeps_rules}
use inventory_pos.Common.Table.{Table, find_unique, find_first}
use inventory_pos.Numbering.{Sequences}
use inventory_pos.Accounting.Store.{FiscalPeriod, JournalEntry, Ledger}
use inventory_pos.Accounting.Period
use inventory_pos.Accounting.Period.{
  CreateFiscalPeriod, insert_period, new_period, save_period, find_period_or_throw, first_period,
  validate_period_open, validate_period_closing_checklist, get_current_period,
}
use inventory_pos.Accounting.Period.Calendar.{
  create_period-Does, open_period-Does, close_period-Does,
}
use inventory_pos.Accounting.Period.Calendar.Rows.{IsCalendar}
use inventory_pos.Accounting.Journal
use inventory_pos.Accounting.Journal.{
  BusinessEvent, Env, ManualEntry, insert_entry, existing_entry, set_sequences, next_number,
}
use inventory_pos.Accounting.Journal.Posting.{IsSound, process_event-Does, create_manual_entry-Does}
use inventory_pos.Accounting.Books.{
  Call, create_period, open_period, close_period, process_event, create_manual_entry, perform, run,
}

-- An invariant of the periods alone is kept by the calls of the journal engine.
module _ (I : Table FiscalPeriod → Type 0) where
  abbrev OfPeriods : Ledger → Type 0
  OfPeriods s = I s.periods

  set_sequences-keeps : (q : Sequences) (s : Ledger) → OfPeriods s → OfPeriods (set_sequences q s)
  set_sequences-keeps q s h = h

  next_number-Keeps : (env : Env) (date : ℕ) → Keeps OfPeriods (next_number env date)
  unfolding next_number
  next_number-Keeps env date = search (keeps_rules, set_sequences-keeps)

  insert_entry-Keeps : (id : ℕ) (je : JournalEntry) → Keeps OfPeriods (insert_entry id je)
  unfolding insert_entry
  insert_entry-Keeps id je = record { at = λ s h. ground arith }

  find_period-Keeps : (id : ℕ) → Keeps OfPeriods (find_period_or_throw id)
  find_period-Keeps id = record {
    at = λ s h. (Keeps-or_throw OfPeriods (business not_found) (find_unique id s.periods)).at s h;
  }

  first_period-Keeps : (p : FiscalPeriod → Bool) → Keeps OfPeriods (first_period p)
  first_period-Keeps p = record {
    at = λ s h. (Keeps-or_throw OfPeriods (business not_found) (find_first p s.periods)).at s h;
  }

  validate_period_open-Keeps : (id : ℕ) → Keeps OfPeriods (validate_period_open id)
  unfolding validate_period_open
  validate_period_open-Keeps id = search (keeps_rules, find_period-Keeps)

  get_current_period-Keeps : Keeps OfPeriods get_current_period
  unfolding get_current_period
  get_current_period-Keeps = search first_period-Keeps

  post_event-Keeps :
      (env : Env) (event : BusinessEvent) → Keeps OfPeriods (Journal.post_event env event)
  unfolding Journal.post_event
  post_event-Keeps env event =
      search (keeps_rules, validate_period_open-Keeps, next_number-Keeps, insert_entry-Keeps) depth
        10

  pub process_event-Keeps :
      (env : Env) (event : BusinessEvent) → Keeps OfPeriods (Journal.process_event env event)
  unfolding Journal.process_event
  process_event-Keeps env event = record {
    at = λ s h. elim (Option-cases (existing_entry event s.journals)) [
      | inl e ↦ rw (e, Journal.process_event) ((post_event-Keeps env event).at s h)
      | inr (je, e) ↦ rw (e, Journal.process_event) h
    ];
  }

  pub create_manual_entry-Keeps :
      (env : Env) (m : ManualEntry) → Keeps OfPeriods (Journal.create_manual_entry env m)
  unfolding Journal.create_manual_entry
  create_manual_entry-Keeps env m =
      search
        (
          keeps_rules, validate_period_open-Keeps, get_current_period-Keeps, next_number-Keeps,
          insert_entry-Keeps,
        )
        depth 10

-- An invariant of the entries alone is kept by the calls of the period manager.
module _ (I : Table JournalEntry → Type 0) where
  abbrev OfJournals : Ledger → Type 0
  OfJournals s = I s.journals

  insert_period-Keeps : (id : ℕ) (p : FiscalPeriod) → Keeps OfJournals (insert_period id p)
  insert_period-Keeps id p = record { at = λ s h. ground arith }

  lookup-Keeps : (id : ℕ) → Keeps OfJournals (find_period_or_throw id)
  lookup-Keeps id = record {
    at = λ s h. (Keeps-or_throw OfJournals (business not_found) (find_unique id s.periods)).at s h;
  }

  save_period-Keeps :
      (id : ℕ) (f : FiscalPeriod → FiscalPeriod) → Keeps OfJournals (save_period id f)
  save_period-Keeps id f = record { at = λ s h. ground arith }

  validate-Keeps : (id : ℕ) → Keeps OfJournals (validate_period_closing_checklist id)
  unfolding validate_period_closing_checklist
  validate-Keeps id = search (keeps_rules, lookup-Keeps)

  ruleset period_rules =
      (keeps_rules, insert_period-Keeps, lookup-Keeps, save_period-Keeps, validate-Keeps)

  pub create_period-Keeps :
      (id : ℕ) (new : CreateFiscalPeriod) → Keeps OfJournals (Period.create_period id new)
  unfolding Period.create_period
  create_period-Keeps id new = search period_rules depth 10

  pub open_period-Keeps : (id : ℕ) → Keeps OfJournals (Period.open_period id)
  unfolding Period.open_period
  open_period-Keeps id = search period_rules depth 10

  pub close_period-Keeps : (now id user : ℕ) → Keeps OfJournals (Period.close_period now id user)
  unfolding Period.close_period
  close_period-Keeps now id user = search period_rules depth 10

abbrev pub AreSound : Ledger → Type 0
AreSound s = IsCalendar s.periods × IsSound s.journals

perform-AreSound : (c : Call) (s : Ledger) → AreSound s → AreSound (perform c s)
unfolding perform
perform-AreSound (create_period id new) s (p, j) =
    ((create_period-Does id new s).at p, (create_period-Keeps IsSound id new).at s j)
perform-AreSound (open_period id) s (p, j) =
    ((open_period-Does id s).at p, (open_period-Keeps IsSound id).at s j)
perform-AreSound (close_period now id user) s (p, j) =
    ((close_period-Does now id user s).at p, (close_period-Keeps IsSound now id user).at s j)
perform-AreSound (process_event env event) s (p, j) =
    ((process_event-Keeps IsCalendar env event).at s p, (process_event-Does env event s).at j)
perform-AreSound (create_manual_entry env m) s (p, j) =
    ((create_manual_entry-Keeps IsCalendar env m).at s p, (create_manual_entry-Does env m s).at j)

-- Whatever calls are made of the two services, in whatever order and with whatever arguments, and
-- whether they return or throw: the periods stay proper, without overlap or double month, and one of
-- them is open at most; every entry has the totals of its lines, which differ by a cent at most; and no
-- document with an id has two posted automatic entries.
pub run-AreSound : (cs : List Call) (s : Ledger) → AreSound s → AreSound (run cs s)
unfolding run
run-AreSound [] s h = h
run-AreSound (c ∷ cs) s h = run-AreSound cs (perform c s) (perform-AreSound c s h)
