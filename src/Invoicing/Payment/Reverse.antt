-- ===== src/Invoicing/Payment/Reverse.antt =====
-- What `reverse` of payment.service.ts leaves as it was.
use inventory_pos.Common.{
  ℕ, ◌≡◌, refl, Bool, true, false, Option, none, some, List, arith, inl, inr,
}
use inventory_pos.Common.Effects.{Result, ok, err, Action, or_throw, ◌>>=◌}
use inventory_pos.Common.Does.{Does}
use inventory_pos.Common.Keeps.{Keeps, Keeps-or_throw, keeps_rules}
use inventory_pos.Common.Table.{Table, find_unique, update, find_unique-update_inv}
use inventory_pos.Common.Text.{Text}
use inventory_pos.Accounting.Store.{Ledger}
use inventory_pos.Accounting.Journal.{Env}
use inventory_pos.Invoicing.Store.{reversed, Invoice, InvoiceAllocation, Payment, PaymentStore}
use inventory_pos.Invoicing.Payment.{
  keep_numbers, payment_transaction, existing_payment, change_payment, unknown, when, in_ledger,
  reverse,
}

-- The invoices and the allocations are as they were at the start.
module _ (invoices : Table Invoice) (rows : List InvoiceAllocation) where
  abbrev Untouched : PaymentStore → Type 0
  Untouched s = (s.books.invoices ≡ invoices) × (s.books.allocations ≡ rows)

  kept :
      {A : Type 0} (s : PaymentStore) (r : Result A) (s' : PaymentStore)
      → Untouched s
      → Untouched s'
      → Untouched (keep_numbers s (r, s')).1
  kept s (ok a) s' h h' = h'
  kept s (err e) s' h h' = h

  transaction-Keeps :
      {A : Type 0} (m : Action PaymentStore A)
      → Keeps Untouched m
      → Keeps Untouched (payment_transaction m)
  transaction-Keeps m k = record { at = λ s h. kept s (m s).0 (m s).1 h (k.at s h) }

  existing_payment-Keeps : (id : ℕ) → Keeps Untouched (existing_payment id)
  existing_payment-Keeps id = record {
    at = λ s h. (Keeps-or_throw Untouched unknown (find_unique id s.payments)).at s h;
  }

  when_ledger-Keeps :
      (b : Bool) (m : Action Ledger (Unit {0})) → Keeps Untouched (when b (in_ledger m))
  when_ledger-Keeps true m = record { at = λ s h. h }
  when_ledger-Keeps false m = record { at = λ s h. h }

  change-keeps :
      (id : ℕ) (f : Payment → Payment) (s : PaymentStore)
      → Untouched s
      → Untouched (record s { payments = update id f s.payments })
  change-keeps id f s h = h

  reverse-Keeps :
      (env : Env) (id user : ℕ) (reason : Text) → Keeps Untouched (reverse env id user reason)
  unfolding reverse
  reverse-Keeps env id user reason =
      search
        (keeps_rules, transaction-Keeps, existing_payment-Keeps, when_ledger-Keeps, change-keeps)
        depth 10

-- What is returned is reversed.
abbrev Post : PaymentStore → Result Payment × PaymentStore → Type 0
Post s (ok q, s') = q.status ≡ reversed
Post s (err e, s') = Unit

row_is :
    (f : Payment → Payment) (o : Option Payment) (s t : PaymentStore)
    → ((q : Payment) → o ≡ some q → q.status ≡ reversed)
    → Post s (or_throw unknown o t)
row_is f none s t h = tt
row_is f (some q) s t h = h q refl

change_payment-Does :
    (id : ℕ) (f : Payment → Payment) (s : PaymentStore)
    → ((p : Payment) → (f p).status ≡ reversed)
    → Does Post s (change_payment id f)
change_payment-Does id f s h = record {
  at =
      row_is f (find_unique id (update id f s.payments)) s
        (record s { payments = update id f s.payments })
        λ q e. elim (find_unique-update_inv id id f s.payments e) [
          | inl (apart, old) ↦ absurd (apart refl)
          | inr (same, (r, old, new)) ↦ rw new (h r)
        ];
}

after :
    {A : Type 0} (r : Result A) (t : PaymentStore) (k : A → Action PaymentStore Payment)
    (s : PaymentStore)
    → ((a : A) (u : PaymentStore) → Does Post u (k a))
    → Post s (((λ (x : PaymentStore). (r, t)) >>= k) s)
after (ok a) t k s next = same_result (k a t) (next a t).at
  where
    same_result : (out : Result Payment × PaymentStore) → Post t out → Post s out
    same_result (ok q, u) h = h
    same_result (err e, u) h = tt
after (err e) t k s next = tt

bind-Does :
    {A : Type 0} (m : Action PaymentStore A) (k : A → Action PaymentStore Payment)
    (s : PaymentStore)
    → ((a : A) (u : PaymentStore) → Does Post u (k a))
    → Does Post s (m >>= k)
bind-Does m k s next = record { at = after (m s).0 (m s).1 k s next }

kept_result :
    (s : PaymentStore) (out : Result Payment × PaymentStore)
    → Post s out
    → Post s (keep_numbers s out)
kept_result s (ok q, s') h = h
kept_result s (err e, s') h = tt

transaction-Does :
    (m : Action PaymentStore Payment) (s : PaymentStore)
    → Does Post s m
    → Does Post s (payment_transaction m)
transaction-Does m s d = record { at = kept_result s (m s) d.at }

reverse-Does :
    (env : Env) (id user : ℕ) (reason : Text) (s : PaymentStore)
    → Does Post s (reverse env id user reason)
unfolding reverse
reverse-Does env id user reason s =
    search (transaction-Does, bind-Does, change_payment-Does) depth 8

result_of :
    (s : PaymentStore) (out : Result Payment × PaymentStore) (q : Payment)
    → Post s out
    → out.0 ≡ ok q
    → q.status ≡ reversed
result_of s (ok p, s') q h e = ground arith
result_of s (err x, s') q h e = cc

-- A payment that has been reversed still counts as paid: `reverse` returns it with the status REVERSED,
-- and no invoice and no allocation has changed, so that an invoice that it paid keeps its paid amount.
pub reverse-invoices :
    (env : Env) (id user : ℕ) (reason : Text) (s : PaymentStore) (q : Payment)
    → (reverse env id user reason s).0 ≡ ok q
    → let s' = (reverse env id user reason s).1 in
      (q.status ≡ reversed)
      × (s'.books.invoices ≡ s.books.invoices)
      × (s'.books.allocations ≡ s.books.allocations)
reverse-invoices env id user reason s q e =
    let (invoices, rows) =
      (reverse-Keeps s.books.invoices s.books.allocations env id user reason).at s (refl, refl) in
    (
      result_of s (reverse env id user reason s) q (reverse-Does env id user reason s).at e,
      invoices,
      rows,
    )
