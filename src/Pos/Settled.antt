-- ===== src/Pos/Settled.antt =====
-- What holds of every transaction of pos.service.ts, and the rules by which the calls keep it.
pub mod Rows
pub mod Shifts
pub mod Keep
use inventory_pos.Common.{
  ℕ, ◌+◌, ◌≡◌, refl, sym, ◌∙◌, ap, ◌≢◌, Bool, true, false, not, Option, none, some, List, [], ◌∷◌,
  arith, All, sum_of, ltb, ◌==◌, if◌then◌else◌,
}
use inventory_pos.Common.Effects.{
  Error, Result, Action, ok, err, pure, or_throw, throw_if, modify, ◌>>=◌, ◌>>◌, on_part, internal,
}
use inventory_pos.Common.Does.{Does, throw_if-Does, or_throw-Does, gets-Does}
use inventory_pos.Common.Keeps.{Keeps, keeps_rules}
use inventory_pos.Common.Table.{Table, find_unique, update, All-update}
use inventory_pos.Numbering.{Sequences}
use inventory_pos.Accounting.Store.{Ledger}
use inventory_pos.Inventory.Stock.{StockEnv, with_retries, retry_from}
use inventory_pos.Inventory.Stock.Retry.{retry_from-all}
use inventory_pos.Pos.Store.{
  SaleStatus, open_, held, completed, voided, cancelled, SaleLine, PosPayment, PosTransaction,
  PosStore,
}
use inventory_pos.Pos.Kept.{kept_numbers}
use inventory_pos.Pos.{
  set_sequences, set_ledger, keep_numbers, pos_transaction, change_sale, insert_transaction,
  is_there,
}

abbrev pub tendered : PosTransaction → ℕ
tendered t = sum_of (λ (p : PosPayment). p.amount) t.payments

-- What the status says: nothing is paid before the end, a completed transaction is paid with its change,
-- and whoever voided one is not its cashier.
abbrev pub Settlement : SaleStatus → PosTransaction → Type 0
Settlement open_ t = tendered t ≡ 0
Settlement held t = tendered t ≡ 0
Settlement completed t =
    (t.paid_amount ≡ tendered t) × (t.paid_amount ≡ t.total_amount + t.change_amount)
Settlement voided t = (v : ℕ) × (t.voided_by ≡ some v) × (v ≢ t.cashier_id)
Settlement cancelled t = Unit

-- The amounts are the sums over the lines.
abbrev pub IsAdded : PosTransaction → Type 0
IsAdded t =
    (t.subtotal ≡ sum_of (λ (l : SaleLine). l.line_total) t.lines)
    × (t.tax_amount ≡ sum_of (λ (l : SaleLine). l.tax_amount) t.lines)
    × (t.total_amount ≡ t.subtotal + t.tax_amount)

abbrev pub IsSettled : PosTransaction → Type 0
IsSettled t = IsAdded t × Settlement t.status t

abbrev pub AllSettled : PosStore → Type 0
AllSettled s = All (λ (x : ℕ × PosTransaction). IsSettled x.1) s.sales

pub same : (s : PosStore) → AllSettled s → AllSettled s
same s h = h

abbrev pub Post : {A : Type 0} → PosStore → Result A × PosStore → Type 0
Post s out = AllSettled s → AllSettled out.1

pub throws : (A : Type 0) (s : PosStore) (e : Error) → Post {A = A} s (err e, s)
throws A s e h = h

pub books :
    (q : Sequences) (l : Ledger) (s : PosStore)
    → AllSettled s
    → AllSettled (set_sequences q (set_ledger l s))
books q l s h = h

pub insert_transaction-Keeps :
    (id : ℕ) (t : PosTransaction) → IsSettled t → Keeps AllSettled (insert_transaction id t)
insert_transaction-Keeps id t new = record {
  at = λ s h. by_key s (is_there (find_unique id s.sales)) h;
}
  where
    by_key :
        (s : PosStore) (b : Bool)
        → AllSettled s
        → let out : Result PosTransaction × PosStore =
            if b then (err internal, s) else (ok t, record s { sales = (id, t) ∷ s.sales }) in
          AllSettled out.1
    by_key s true h = h
    by_key s false h = (new, h)

module _ {A : Type 0} where
  pub pos_transaction-Does :
      (m : Action PosStore A) (s : PosStore) → Does Post s m → Does Post s (pos_transaction m)
  pos_transaction-Does m s d = record {
    at = λ h. kept_numbers AllSettled books s (m s).0 (m s).1 h (d.at h);
  }

  -- The change of one row, before steps that keep every row.
  pub change_sale-Does :
      (id : ℕ) (f : PosTransaction → PosTransaction) (k : Action PosStore A) (s : PosStore)
      → ((r : PosTransaction) → find_unique id s.sales ≡ some r → IsSettled r → IsSettled (f r))
      → Keeps AllSettled k
      → Does Post s (change_sale id f >> k)
  change_sale-Does id f k s step kept = record {
    at = λ h.
        kept.at (record s { sales = update id f s.sales })
          (All-update IsSettled id f s.sales h step);
  }

pub change_last-Does :
    (id : ℕ) (f : PosTransaction → PosTransaction) (s : PosStore)
    → ((r : PosTransaction) → find_unique id s.sales ≡ some r → IsSettled r → IsSettled (f r))
    → Does Post s (change_sale id f)
change_last-Does id f s step = record { at = λ h. All-update IsSettled id f s.sales h step }
