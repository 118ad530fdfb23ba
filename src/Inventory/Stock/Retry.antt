-- ===== src/Inventory/Stock/Retry.antt =====
-- What every attempt does, the retry loop of inventory.service.ts does.
use inventory_pos.Common.{ℕ, suc, zero, ◌+◌, inl, inr, Bool-cases}
use inventory_pos.Common.Effects.{Result, ok, err, Error, Action}
use inventory_pos.Inventory.Stock.{StockEnv, is_retried, retry_after, retry_from}

module _ {S A : Type 0} (P : S → Result A × S → Type 0)
    (after : (s t : S) (e : Error) (out : Result A × S) → P s (err e, t) → P t out → P s out)
    (env : StockEnv) (m : ℕ → Action S A) (each : (attempt : ℕ) (s : S) → P s (m attempt s)) where
  next :
      (left attempt : ℕ) (s : S) (out : Result A × S)
      → P s out
      → ((t : S) → P t (retry_from env m left (attempt + 1) t))
      → P s (retry_after (is_retried env attempt) out (retry_from env m left (attempt + 1)))
  next left attempt s (ok a, s') h more = h
  next left attempt s (err x, s') h more = elim (Bool-cases (is_retried env attempt x)) [
    | inl again ↦ rw again (after s s' x _ h (more s'))
    | inr stop ↦ rw stop h
  ]

  pub retry_from-all : (left attempt : ℕ) (s : S) → P s (retry_from env m left attempt s)
  unfolding retry_from
  retry_from-all zero attempt s = each attempt s
  retry_from-all (suc left) attempt s =
      next left attempt s (m attempt s) (each attempt s) (retry_from-all left (attempt + 1))
