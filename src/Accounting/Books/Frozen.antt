-- ===== src/Accounting/Books/Frozen.antt =====
-- A closed period under any sequence of calls of the two accounting services.
use mathlib.Core.Option.{some-injective}
use inventory_pos.Common.{
  ℕ, ◌≡◌, refl, sym, ◌∙◌, inl, inr, false, not, some, List, [], ◌∷◌, ◌==◌, keep, arith, Bool-cases,
  Option-cases,
}
use inventory_pos.Common.Effects.{Result, err, Error, Action, ◌>>=◌, ◌>>◌, business, not_found}
use inventory_pos.Common.Does.{
  Does, throw_if-Does, or_throw-Does, gets-Does, check-Does, Silent, Silent-Does, silent_rules,
}
use inventory_pos.Common.Table.{Table, find_unique, find_unique-update_ne}
use inventory_pos.Common.Text.{Text}
use inventory_pos.Numbering.{Sequences}
use inventory_pos.Accounting.Store.{
  PeriodStatus, draft, open_, closed, status_eq, FiscalPeriod, JournalEntry, Ledger,
}
use inventory_pos.Accounting.Period
use inventory_pos.Accounting.Period.{
  CreateFiscalPeriod, has_any, insert_period, new_period, save_period, find_period_or_throw,
  validate_period_open, validate_period_closing_checklist,
}
use inventory_pos.Accounting.Period.Calendar.{save_period_lem}
use inventory_pos.Accounting.Journal
use inventory_pos.Accounting.Journal.{
  BusinessEvent, Env, ManualEntry, insert_entry, existing_entry, set_sequences, next_number,
}
use inventory_pos.Accounting.Journal.Numbered.{next_number-Does, get_current_period-Silent}
use inventory_pos.Accounting.Books.{
  Call, create_period, open_period, close_period, process_event, create_manual_entry, perform, run,
}

abbrev pub entries_of : ℕ → Table JournalEntry → Table JournalEntry
entries_of k t = keep (λ x. x.1.period_id == k) t

validate-Silent : (id : ℕ) → Silent (validate_period_closing_checklist id)
unfolding validate_period_closing_checklist
validate-Silent id = search silent_rules

module _ (k : ℕ) (p : FiscalPeriod) (es : Table JournalEntry) (shut : p.status ≡ closed) where
  -- The period's row is `p`, and its entries are `es`.
  abbrev IsFrozen : Ledger → Type 0
  IsFrozen s = (find_unique k s.periods ≡ some p) × (entries_of k s.journals ≡ es)

  abbrev Post : {A : Type 0} → Ledger → Result A × Ledger → Type 0
  Post s (r, s') = IsFrozen s → IsFrozen s'

  abbrev throws_nothing : (A : Type 0) (s : Ledger) (e : Error) → Post {A = A} s (err e, s)
  throws_nothing A s e h = h

  find_period-Does :
      {A : Type 0} (id : ℕ) (m : FiscalPeriod → Action Ledger A) (s : Ledger)
      → ((q : FiscalPeriod) → find_unique id s.periods ≡ some q → Does Post s (m q))
      → Does Post s (find_period_or_throw id >>= m)
  find_period-Does {A} id m s h = record {
    at =
        (or_throw-Does Post (throws_nothing A) (business not_found) (find_unique id s.periods) m s
          h).at;
  }

  -- A period that is not closed is another one.
  other_period :
      (id : ℕ) (q : FiscalPeriod) (s : Ledger)
      → find_unique id s.periods ≡ some q
      → status_eq q.status closed ≡ false
      → find_unique k s.periods ≡ some p
      → (k == id) ≡ false
  other_period id q s found opened h = elim (Bool-cases (k == id)) [
    | inl here ↦
        let e : k ≡ id = ground arith in
        let same : q ≡ p = some-injective _ _ (sym found ∙ rw (← e) h) in
        cc (rw (same, shut) at opened)
    | inr e ↦ e
  ]

  save-Does :
      (id : ℕ) (f : FiscalPeriod → FiscalPeriod) (q : FiscalPeriod) (s : Ledger)
      → find_unique id s.periods ≡ some q
      → status_eq q.status closed ≡ false
      → Does Post s (save_period id f)
  save-Does id f q s found opened = record {
    at = λ (row, entries).
        let apart = other_period id q s found opened row in
        rw (save_period_lem id f s)
          (find_unique-update_ne k id f s.periods (ground arith) ∙ row, entries);
  }

  insert_period-Does : (id : ℕ) (q : FiscalPeriod) (s : Ledger) → Does Post s (insert_period id q)
  insert_period-Does id q s = record { at = λ (row, entries). ground arith }

  in_draft : (c : PeriodStatus) → not (status_eq c draft) ≡ false → status_eq c closed ≡ false
  in_draft draft h = refl
  in_draft _ h = cc

  in_open : (c : PeriodStatus) → not (status_eq c open_) ≡ false → status_eq c closed ≡ false
  in_open open_ h = refl
  in_open _ h = cc

  ruleset frozen_rules =
      (throw_if-Does, gets-Does, or_throw-Does, check-Does, throws_nothing, find_period-Does)

  create_period-Does :
      (id : ℕ) (new : CreateFiscalPeriod) (s : Ledger) → Does Post s (Period.create_period id new)
  unfolding Period.create_period
  create_period-Does id new s = search (frozen_rules, insert_period-Does) depth 10

  open_period-Does : (id : ℕ) (s : Ledger) → Does Post s (Period.open_period id)
  unfolding Period.open_period
  open_period-Does id s = search (frozen_rules, save-Does, in_draft) depth 10

  close_period-Does : (now id user : ℕ) (s : Ledger) → Does Post s (Period.close_period now id user)
  unfolding Period.close_period
  close_period-Does now id user s =
      search (frozen_rules, Silent-Does, validate-Silent, save-Does, in_open) depth 10

  validate-Does :
      {A : Type 0} (id : ℕ) (m : Action Ledger A) (s : Ledger)
      → ((q : FiscalPeriod)
          → find_unique id s.periods ≡ some q
          → status_eq q.status closed ≡ false
          → Does Post s m)
      → Does Post s (validate_period_open id >> m)
  unfolding validate_period_open
  validate-Does id m s h = record {
    at = elim (Option-cases (find_unique id s.periods)) [
      | inl e ↦ λ frozen. ground arith
      | inr (q, e) ↦ elim (Bool-cases (status_eq q.status closed)) [
        | inl c ↦ λ frozen. ground arith
        | inr c ↦ let next = (h q e c).at in λ frozen. ground (arith, next)
      ]
    ];
  }

  number-Does :
      (env : Env) (date : ℕ) (m : Text → Action Ledger JournalEntry) (s : Ledger)
      → ((number : Text) (q : Sequences) → Does Post (set_sequences q s) (m number))
      → Does Post s (next_number env date >>= m)
  number-Does = next_number-Does Post (λ q s e h. h) (λ q s out h. h)

  insert_entry-Does :
      (id : ℕ) (je : JournalEntry) (q : FiscalPeriod) (s : Ledger)
      → find_unique je.period_id s.periods ≡ some q
      → status_eq q.status closed ≡ false
      → Does Post s (insert_entry id je)
  unfolding insert_entry
  insert_entry-Does id je q s found opened = record {
    at = λ (row, entries).
        let apart = other_period je.period_id q s found opened row in ground arith;
  }

  ruleset entry_rules = (frozen_rules, validate-Does, number-Does, insert_entry-Does)

  post_event-Does :
      (env : Env) (event : BusinessEvent) (s : Ledger) → Does Post s (Journal.post_event env event)
  unfolding Journal.post_event
  post_event-Does env event s = search entry_rules depth 14

  process_event-Does :
      (env : Env) (event : BusinessEvent) (s : Ledger)
      → Does Post s (Journal.process_event env event)
  unfolding Journal.process_event
  process_event-Does env event s = record {
    at = elim (Option-cases (existing_entry event s.journals)) [
      | inl e ↦ rw (e, Journal.process_event) (post_event-Does env event s).at
      | inr (je, e) ↦ rw (e, Journal.process_event) λ h. h
    ];
  }

  create_manual_entry-Does :
      (env : Env) (m : ManualEntry) (s : Ledger) → Does Post s (Journal.create_manual_entry env m)
  unfolding Journal.create_manual_entry
  create_manual_entry-Does env m s =
      search (entry_rules, Silent-Does, get_current_period-Silent) depth 14

  perform-IsFrozen : (c : Call) (s : Ledger) → IsFrozen s → IsFrozen (perform c s)
  unfolding perform
  perform-IsFrozen (create_period id new) s h = (create_period-Does id new s).at h
  perform-IsFrozen (open_period id) s h = (open_period-Does id s).at h
  perform-IsFrozen (close_period now id user) s h = (close_period-Does now id user s).at h
  perform-IsFrozen (process_event env event) s h = (process_event-Does env event s).at h
  perform-IsFrozen (create_manual_entry env m) s h = (create_manual_entry-Does env m s).at h

  pub run-IsFrozen : (cs : List Call) (s : Ledger) → IsFrozen s → IsFrozen (run cs s)
  unfolding run
  run-IsFrozen [] s h = h
  run-IsFrozen (c ∷ cs) s h = run-IsFrozen cs (perform c s) (perform-IsFrozen c s h)

-- A closed period is frozen: whatever calls of the two services follow, in whatever order and with
-- whatever arguments, and whether they return or throw, its row stays as it is, and no journal entry is
-- added to it or changed.
pub run-entries_of :
    (k : ℕ) (p : FiscalPeriod) (cs : List Call) (s : Ledger)
    → find_unique k s.periods ≡ some p
    → p.status ≡ closed
    → (find_unique k (run cs s).periods ≡ some p)
      × (entries_of k (run cs s).journals ≡ entries_of k s.journals)
run-entries_of k p cs s found shut =
    run-IsFrozen k p (entries_of k s.journals) shut cs s (found, refl)
