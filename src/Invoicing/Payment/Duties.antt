-- ===== src/Invoicing/Payment/Duties.antt =====
-- The life of a payment in payment.service.ts: who approved what is posted, and the invoices' balances.
use mathlib.Core.Path.{subst}
use mathlib.Core.Option.{some-injective}
use inventory_pos.Common.{
  ℕ, ◌≡◌, refl, sym, ◌∙◌, Bool, true, false, not, Option, some, List, ◌==◌, arith, All,
  Option-cases, inl, inr,
}
use inventory_pos.Common.Effects.{
  Result, ok, err, Error, business, not_found, Action, ◌>>=◌, pure, on_part,
}
use inventory_pos.Common.Does.{Does, throw_if-Does, or_throw-Does, gets-Does}
use inventory_pos.Common.Table.{find_unique, update, All-update}
use inventory_pos.Common.Text.{Text}
use inventory_pos.Numbering.{Sequences}
use inventory_pos.Accounting.Store.{Ledger}
use inventory_pos.Accounting.Journal.{Env}
use inventory_pos.Purchase.Order.Duties.{IsApprovedByAnother}
use inventory_pos.Invoicing.Store.{PaymentStatus, approved, posted, Payment, PaymentStore}
use inventory_pos.Invoicing.Invoice.Accounts.{AllAccounted}
use inventory_pos.Invoicing.Payment
use inventory_pos.Invoicing.Payment.{
  CreatePayment, set_books, set_sequences, keep_numbers, payment_transaction, existing_payment,
  change_payment, status_eq, new_payment, insert_payment, in_ledger, when, allocate_to_invoices,
  current_period,
}
use inventory_pos.Invoicing.Allocations.{Allocation, allocate_all}
use inventory_pos.Invoicing.Payment.Allocate.{allocate_all-Keeps}

-- The statuses that only the approval of the service leads to.
abbrev pub is_released : PaymentStatus → Bool
is_released approved = true
is_released posted = true
is_released _ = false

abbrev pub IsReleasedByAnother : Payment → Type 0
IsReleasedByAnother p = is_released p.status ≡ true → IsApprovedByAnother p.approved_by p.created_by

-- Every released payment was approved by another user, and every invoice is accounted for.
pub record IsRight (s : PaymentStore) : Type 0 where
  pub payments : All (λ (x : ℕ × Payment). IsReleasedByAnother x.1) s.payments
  pub books : AllAccounted s.books

abbrev Post : {A : Type 0} → PaymentStore → Result A × PaymentStore → Type 0
Post s (r, s') = IsRight s → IsRight s'

kept :
    {A : Type 0} (s : PaymentStore) (r : Result A) (s' : PaymentStore)
    → IsRight s
    → IsRight s'
    → IsRight (keep_numbers s (r, s')).1
kept s (ok a) s' h h' = h'
kept s (err e) s' h h' = record { payments = h.payments; books = record { at = h.books.at } }

transaction-Does :
    {A : Type 0} (m : Action PaymentStore A) (s : PaymentStore)
    → Does Post s m
    → Does Post s (payment_transaction m)
transaction-Does m s d = record { at = λ h. kept s (m s).0 (m s).1 h (d.at h) }

existing_payment-Does :
    {A : Type 0} (id : ℕ) (m : Payment → Action PaymentStore A) (s : PaymentStore)
    → ((p : Payment) → find_unique id s.payments ≡ some p → Does Post s (m p))
    → Does Post s (existing_payment id >>= m)
existing_payment-Does id m s h = record {
  at = (or_throw-Does Post (λ s e h. h) (business not_found) (find_unique id s.payments) m s h).at;
}

change_payment_lem :
    (id : ℕ) (f : Payment → Payment) (s : PaymentStore)
    → (change_payment id f s).1 ≡ record s { payments = update id f s.payments }
change_payment_lem id f s = ground arith

change_payment-Does :
    (id : ℕ) (f : Payment → Payment) (p : Payment) (s : PaymentStore)
    → find_unique id s.payments ≡ some p
    → (IsReleasedByAnother p → IsReleasedByAnother (f p))
    → Does Post s (change_payment id f)
change_payment-Does id f p s found step = record {
  at = λ h. rw (change_payment_lem id f s) (record {
    payments = All-update IsReleasedByAnother id f s.payments h.payments (λ r e a.
        subst (λ q. IsReleasedByAnother q → IsReleasedByAnother (f q))
          (some-injective _ _ (sym found ∙ e)) step a);
    books = h.books;
  });
}

-- A status that is not a release needs no approver.
plain-Does :
    (id : ℕ) (f : Payment → Payment) (s : PaymentStore)
    → ((p : Payment) → is_released (f p).status ≡ false)
    → Does Post s (change_payment id f)
plain-Does id f s plain = record {
  at = λ h. rw (change_payment_lem id f s) (record {
    payments =
        All-update IsReleasedByAnother id f s.payments h.payments
          (λ r e a released. cc (rw (plain r) at released));
    books = h.books;
  });
}

approve-step :
    (p : Payment) (now approver : ℕ)
    → (p.created_by == approver) ≡ false
    → IsReleasedByAnother p
    → IsReleasedByAnother
        (record p { status = approved; approved_by = some approver; approved_at = some now })
approve-step p now approver other h released = ground arith

post-step :
    (p : Payment) (now user : ℕ)
    → not (status_eq p.status approved) ≡ false
    → IsReleasedByAnother p
    → IsReleasedByAnother
        (record p { status = posted; posted_by = some user; posted_at = some now })
post-step p now user is_approved h released = h (was_released p.status is_approved)
  where
    was_released : (c : PaymentStatus) → not (status_eq c approved) ≡ false → is_released c ≡ true
    was_released approved e = refl
    was_released _ e = cc

insert_payment-Does :
    (id : ℕ) (p : CreatePayment) (user : Option ℕ) (number : Text) (s : PaymentStore)
    → Does Post s (insert_payment id (new_payment p user number))
insert_payment-Does id p user number s = record {
  at = elim (Option-cases (find_unique id s.payments)) [
    | inl e ↦
        rw (e, insert_payment)
          λ h. record { payments = ((λ released. cc), h.payments); books = h.books }
    | inr (q, e) ↦ rw (e, insert_payment) λ h. h
  ];
}

after :
    {A B : Type 0} (r : Result A) (t : PaymentStore) (k : A → Action PaymentStore B)
    (s : PaymentStore)
    → ((a : A) (u : PaymentStore) → Does Post u (k a))
    → (IsRight s → IsRight t)
    → Post s (((λ (x : PaymentStore). (r, t)) >>= k) s)
after (ok a) t k s next h = λ right. (next a t).at (h right)
after (err e) t k s next h = h

bind-Does :
    {A B : Type 0} (m : Action PaymentStore A) (k : A → Action PaymentStore B) (s : PaymentStore)
    → Does Post s m
    → ((a : A) (u : PaymentStore) → Does Post u (k a))
    → Does Post s (m >>= k)
bind-Does m k s d next = record { at = after (m s).0 (m s).1 k s next d.at }

in_ledger-Does : {A : Type 0} (m : Action Ledger A) (s : PaymentStore) → Does Post s (in_ledger m)
in_ledger-Does m s = record {
  at = λ h. record { payments = h.payments; books = record { at = h.books.at } };
}

number-Does :
    {A : Type 0} (m : Action Sequences A) (s : PaymentStore)
    → Does Post s (on_part (λ (s : PaymentStore). s.books.ledger.sequences) set_sequences m)
number-Does m s = record {
  at = λ h. record { payments = h.payments; books = record { at = h.books.at } };
}

when_ledger-Does :
    (b : Bool) (m : Action Ledger (Unit {0})) (s : PaymentStore)
    → Does Post s (when b (in_ledger m))
when_ledger-Does true m s = in_ledger-Does m s
when_ledger-Does false m s = record { at = λ h. h }

allocate_all-Does :
    (now id user : ℕ) (list : List Allocation) (s : PaymentStore)
    → Does Post s
        (on_part (λ (s : PaymentStore). s.books) set_books (allocate_all now id user list))
allocate_all-Does now id user list s = record {
  at = λ h. record {
    payments = h.payments;
    books = (allocate_all-Keeps now id user list).at s.books h.books;
  };
}

pure-Does : {A : Type 0} (a : A) (s : PaymentStore) → Does Post s (pure {S = PaymentStore} a)
pure-Does a s = record { at = λ h. h }

throws_nothing : (A : Type 0) (s : PaymentStore) (e : Error) → Post {A = A} s (err e, s)
throws_nothing A s e h = h

ruleset payment_rules = (transaction-Does, throw_if-Does, existing_payment-Does, throws_nothing)

pub create_payment-Does :
    (env : Env) (has_method : Bool) (p : CreatePayment) (user : Option ℕ) (s : PaymentStore)
    → Does Post s (Payment.create_payment env has_method p user)
unfolding Payment.create_payment
create_payment-Does env has_method p user s =
    search (payment_rules, bind-Does, number-Does, insert_payment-Does) depth 10

pub approve-Does :
    (now id approver : ℕ) (s : PaymentStore) → Does Post s (Payment.approve now id approver)
unfolding Payment.approve
approve-Does now id approver s = search (payment_rules, change_payment-Does, approve-step) depth 10

pub post-Does :
    (env : Env) (id user : ℕ) (s : PaymentStore) → Does Post s (Payment.post env id user)
unfolding Payment.post
post-Does env id user s =
    search
      (
        payment_rules, gets-Does, or_throw-Does, bind-Does, change_payment-Does, post-step,
        in_ledger-Does, pure-Does,
      )
      depth 12

pub allocate_to_invoices-Does :
    (now id : ℕ) (list : List Allocation) (s : PaymentStore)
    → Does Post s (allocate_to_invoices now id list)
unfolding allocate_to_invoices
allocate_to_invoices-Does now id list s =
    search (payment_rules, gets-Does, allocate_all-Does) depth 10

pub reverse-Does :
    (env : Env) (id user : ℕ) (reason : Text) (s : PaymentStore)
    → Does Post s (Payment.reverse env id user reason)
unfolding Payment.reverse
reverse-Does env id user reason s =
    search (payment_rules, bind-Does, when_ledger-Does, plain-Does) depth 10

pub reconcile-Does : (id : ℕ) (s : PaymentStore) → Does Post s (Payment.reconcile id)
unfolding Payment.reconcile
reconcile-Does id s = search (payment_rules, plain-Does) depth 10
