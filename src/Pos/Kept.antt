-- ===== src/Pos/Kept.antt =====
-- Invariants of the tables of pos.service.ts that its transactions and its retries keep.
use inventory_pos.Common.{ℕ}
use inventory_pos.Common.Effects.{Result, Action, ok, err}
use inventory_pos.Common.Keeps.{Keeps}
use inventory_pos.Numbering.{Sequences}
use inventory_pos.Accounting.Store.{Ledger}
use inventory_pos.Inventory.Stock.{StockEnv, with_retries}
use inventory_pos.Inventory.Stock.Retry.{retry_from-all}
use inventory_pos.Pos.Store.{PosStore}
use inventory_pos.Pos.{set_sequences, set_ledger, keep_numbers, pos_transaction}

module _ (I : PosStore → Type 0)
    (books : (q : Sequences) (l : Ledger) (s : PosStore)
      → I s
      → I (set_sequences q (set_ledger l s))) where
  pub kept_numbers :
      {A : Type 0} (s : PosStore) (r : Result A) (s' : PosStore)
      → I s
      → I s'
      → I (keep_numbers s (r, s')).1
  kept_numbers s (ok a) s' h h' = h'
  kept_numbers s (err e) s' h h' =
      books s'.sequences (record s.ledger { sequences = s'.ledger.sequences }) s h

  pub pos_transaction-Keeps :
      {A : Type 0} (m : Action PosStore A) → Keeps I m → Keeps I (pos_transaction m)
  pos_transaction-Keeps m k = record { at = λ s h. kept_numbers s (m s).0 (m s).1 h (k.at s h) }

module _ (I : PosStore → Type 0) {A : Type 0} where
  pub retries-Keeps :
      (env : StockEnv) (m : ℕ → Action PosStore A)
      → ((attempt : ℕ) → Keeps I (m attempt))
      → Keeps I (with_retries env m)
  retries-Keeps env m each = record {
    at =
        retry_from-all (λ s (out : Result A × PosStore). I s → I out.1) (λ s t e out h k a. k (h a))
          env m (λ attempt. (each attempt).at) 2 1;
  }
