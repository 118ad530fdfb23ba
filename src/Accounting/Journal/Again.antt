-- ===== src/Accounting/Journal/Again.antt =====
-- An event that journal-engine.service.ts has processed, and is given again.
use inventory_pos.Common.{
  ℕ, ◌≡◌, refl, ◌≢◌, inl, inr, some, List, ◌∷◌, arith, Bool-cases, Option-cases,
}
use inventory_pos.Common.Effects.{Result, ok, err, Error, Action, ◌>>=◌}
use inventory_pos.Common.Does.{Does, throw_if-Does, or_throw-Does, gets-Does, check-Does}
use inventory_pos.Common.Table.{Table, find_unique}
use inventory_pos.Common.Text.{Text, text_eq, text_eq_refl}
use inventory_pos.Numbering.{Sequences}
use inventory_pos.Accounting.Store.{JournalLine, JournalEntry, Ledger}
use inventory_pos.Accounting.Period.{has_any}
use inventory_pos.Accounting.Journal.{
  BusinessEvent, Env, existing_entry, auto_entry, insert_entry, set_sequences, next_number,
  post_event, process_event,
}
use inventory_pos.Accounting.Journal.Numbered.{next_number-Does, validate_period_open-Silent}

module _ (event : BusinessEvent) where
  -- An entry that is returned will be found for the same event.
  abbrev Post : Ledger → Result JournalEntry × Ledger → Type 0
  Post s (ok je, s') = existing_entry event s'.journals ≡ some je
  Post s (err e, s') = Unit

  throws_nothing : (s : Ledger) (e : Error) → Post s (err e, s)
  throws_nothing s e = tt

  ignore : (s t : Ledger) (out : Result JournalEntry × Ledger) → Post s out → Post t out
  ignore s t (ok je, s') h = h
  ignore s t (err e, s') h = tt

  number-Does :
      (env : Env) (date : ℕ) (k : Text → Action Ledger JournalEntry) (s : Ledger)
      → ((number : Text) (q : Sequences) → Does Post (set_sequences q s) (k number))
      → Does Post s (next_number env date >>= k)
  number-Does =
      next_number-Does Post (λ q s e. tt) (λ q s out h. ignore (set_sequences q s) s out h)

  module _ (named : event.reference_id ≢ 0) where
    newest :
        (env : Env) (lines : List JournalLine) (number : Text) (id : ℕ) (t : Table JournalEntry)
        → existing_entry event ((id, auto_entry env event lines number) ∷ t)
          ≡ some (auto_entry env event lines number)
    newest env lines number id t = ground (arith, text_eq_refl event.reference_type)

    insert_entry-Does :
        (env : Env) (lines : List JournalLine) (number : Text) (id : ℕ) (s : Ledger)
        → Does Post s (insert_entry id (auto_entry env event lines number))
    unfolding insert_entry
    insert_entry-Does env lines number id s = record {
      at =
          elim (Bool-cases
            (has_any (λ (other : JournalEntry). text_eq other.je_number number) s.journals)) [
              | inl taken ↦ rw taken tt
              | inr free ↦ elim (Option-cases (find_unique id s.journals)) [
                | inl e ↦ rw (free, e) (newest env lines number id s.journals)
                | inr (o, e) ↦ rw (free, e) tt
              ]
            ];
    }

    post_event-Does : (env : Env) (s : Ledger) → Does Post s (post_event env event)
    unfolding post_event
    post_event-Does env s =
        search
          (
            throw_if-Does,
            or_throw-Does,
            gets-Does,
            check-Does,
            number-Does,
            throws_nothing,
            validate_period_open-Silent,
            insert_entry-Does env,
          )
          depth 14

    process_event-Does : (env : Env) (s : Ledger) → Does Post s (process_event env event)
    unfolding process_event
    process_event-Does env s = record {
      at = elim (Option-cases (existing_entry event s.journals)) [
        | inl e ↦ rw (e, process_event) (post_event-Does env s).at
        | inr (je, e) ↦ rw (e, process_event) e
      ];
    }

stored :
    (event : BusinessEvent) (s : Ledger) (out : Result JournalEntry × Ledger) (je : JournalEntry)
    → Post event s out
    → out.0 ≡ ok je
    → existing_entry event out.1.journals ≡ some je
stored event s (ok q, s') je h e = ground arith
stored event s (err x, s') je h e = cc

-- Processing is idempotent: if an event with a reference id has been processed, processing it again on
-- the tables that the first call left returns the same entry and changes nothing, however the database
-- answers then.
pub process_event-again :
    (env later : Env) (event : BusinessEvent) (s : Ledger) (je : JournalEntry)
    → event.reference_id ≢ 0
    → (process_event env event s).0 ≡ ok je
    → let s' = (process_event env event s).1 in process_event later event s' ≡ (ok je, s')
unfolding process_event
process_event-again env later event s je named e =
    let out = process_event env event s in
    let found = stored event s out je (process_event-Does event named env s).at e in
    rw (process_event, found) refl

pub process_event-existing :
    (env : Env) (event : BusinessEvent) (s : Ledger) (je : JournalEntry)
    → existing_entry event s.journals ≡ some je
    → process_event env event s ≡ (ok je, s)
unfolding process_event
process_event-existing env event s je found = rw (process_event, found) refl
