-- ===== src/Accounting/Journal/Numbered.antt =====
-- What the calls of journal-engine.service.ts share: checks that only read, and the number that is
-- taken before the entry is stored.
use inventory_pos.Common.{ℕ}
use inventory_pos.Common.Effects.{Result, ok, err, Error, Action, ◌>>=◌}
use inventory_pos.Common.Does.{Does, Silent, silent_rules}
use inventory_pos.Common.Text.{Text}
use inventory_pos.Numbering.{Sequences}
use inventory_pos.Accounting.Store.{JournalEntry, Ledger}
use inventory_pos.Accounting.Period.{validate_period_open, get_current_period}
use inventory_pos.Accounting.Journal.{Env, set_sequences, next_number}

module _ (Post : Ledger → Result JournalEntry × Ledger → Type 0)
    (throws : (q : Sequences) (s : Ledger) (e : Error) → Post s (err e, set_sequences q s))
    (later : (q : Sequences) (s : Ledger) (out : Result JournalEntry × Ledger)
      → Post (set_sequences q s) out
      → Post s out) where
  after_number :
      (r : Result Text) (q : Sequences) (k : Text → Action Ledger JournalEntry) (s : Ledger)
      → ((number : Text) (q : Sequences) → Does Post (set_sequences q s) (k number))
      → Post s (((λ (x : Ledger). (r, set_sequences q s)) >>= k) s)
  after_number (ok number) q k s h = later q s (k number (set_sequences q s)) (h number q).at
  after_number (err e) q k s h = throws q s e

  pub next_number-Does :
      (env : Env) (date : ℕ) (k : Text → Action Ledger JournalEntry) (s : Ledger)
      → ((number : Text) (q : Sequences) → Does Post (set_sequences q s) (k number))
      → Does Post s (next_number env date >>= k)
  unfolding next_number
  next_number-Does env date k s h = record {
    at = after_number (next_number env date s).0 (next_number env date s).1.sequences k s h;
  }

pub validate_period_open-Silent : (id : ℕ) → Silent (validate_period_open id)
unfolding validate_period_open
validate_period_open-Silent id = search silent_rules

pub get_current_period-Silent : Silent get_current_period
unfolding get_current_period
get_current_period-Silent = search silent_rules
