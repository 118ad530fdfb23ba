-- ===== src/Invoicing/Payment/Allocate.antt =====
-- `allocateToInvoices` of payment.service.ts: the limit of a payment, and the balances of the invoices.
use mathlib.Core.Option.{some-injective}
use inventory_pos.Common.{ℕ, ◌≡◌, sym, ap, ◌∙◌, inl, inr, false, some, List, [], ◌∷◌, arith}
use inventory_pos.Common.Effects.{Result, ok, err, Error, ◌>>◌, modify}
use inventory_pos.Common.Does.{Does, throw_if-Does, or_throw-Does, gets-Does}
use inventory_pos.Common.Keeps.{Keeps, Keeps-then, Keeps-pure}
use inventory_pos.Common.Int.{ℤ, pos, ◌+ℤ◌, ◌-ℤ◌, ◌≤ℤ◌, ltb_ℤ, +ℤ_parts, -ℤ_parts, eq_of_parts}
use inventory_pos.Common.Table.{find_unique, update, find_unique-update_inv}
use inventory_pos.Invoicing.Store.{Payment, Invoice, InvoiceAllocation, InvoiceStore, PaymentStore}
use inventory_pos.Invoicing.Invoice.Accounts.{allocated_to, AllAccounted}
use inventory_pos.Invoicing.Invoice.Calls.{
  allocated_to_self, allocated_to-other, left_nonneg, +ℤ_comm,
}
use inventory_pos.Invoicing.Payment.{allocate_to_invoices}
use inventory_pos.Invoicing.Allocations.{
  Allocation, allocated_by, asked_for, settle, new_row, allocate_one, allocate_all,
}

sub_twice : (t p a : ℤ) → t -ℤ p -ℤ a ≡ t -ℤ (p +ℤ a)
sub_twice t p a =
    eq_of_parts (t -ℤ p -ℤ a) (t -ℤ (p +ℤ a))
      (omega (arith, -ℤ_parts t p, -ℤ_parts (t -ℤ p) a, +ℤ_parts p a, -ℤ_parts t (p +ℤ a)))

-- A step keeps the balances.
abbrev Post : InvoiceStore → Result (Unit {0}) × InvoiceStore → Type 0
Post s (r, s') = AllAccounted s → AllAccounted s'

abbrev throws_nothing : (s : InvoiceStore) (e : Error) → Post s (err e, s)
throws_nothing s e h = h

modify-Does :
    (now id user : ℕ) (a : Allocation) (existing : Invoice) (s : InvoiceStore)
    → find_unique a.invoice_id s.invoices ≡ some existing
    → ltb_ℤ existing.outstanding_amount a.amount ≡ false
    → Does Post s (
        modify λ (s : InvoiceStore). record s {
          allocations = new_row now id user a ∷ s.allocations;
          invoices = update a.invoice_id (settle a.amount existing) s.invoices;
        })
modify-Does now id user a existing s found enough = record {
  at = λ h. record {
    at = λ j i e.
        elim (find_unique-update_inv j a.invoice_id (settle a.amount existing) s.invoices e) [
          | inl (apart, old) ↦
              let k = h.at j i old in
              record {
                paid_sum =
                    k.paid_sum
                    ∙ sym (allocated_to-other j (new_row now id user a) s.allocations apart);
                left = k.left;
                nonneg = k.nonneg;
              }
          | inr (same, (q, old, new)) ↦
              let k = h.at a.invoice_id existing found in
              let made : i ≡ settle a.amount existing existing =
                new ∙ ap (settle a.amount existing) (some-injective _ _ (sym old ∙ found)) in
              let rest : existing.outstanding_amount -ℤ a.amount
                  ≡ existing.total_amount -ℤ (existing.paid_amount +ℤ a.amount) =
                ap (λ x. x -ℤ a.amount) k.left
                ∙ sub_twice existing.total_amount existing.paid_amount a.amount in
              record {
                paid_sum =
                    rw (made, same)
                      (ap (λ x. x +ℤ a.amount) k.paid_sum
                        ∙ +ℤ_comm (allocated_to a.invoice_id s.allocations) a.amount
                        ∙ sym (allocated_to_self (new_row now id user a) s.allocations));
                left = rw made rest;
                nonneg =
                    rw (made, rest)
                      (left_nonneg existing.total_amount existing.paid_amount
                        existing.outstanding_amount a.amount k.left enough);
              }
        ];
  };
}

allocate_one-Does :
    (now id user : ℕ) (a : Allocation) (s : InvoiceStore) → Does Post s (allocate_one now id user a)
allocate_one-Does now id user a s =
    search (throw_if-Does, or_throw-Does, gets-Does, throws_nothing, modify-Does) depth 10

pub allocate_all-Keeps :
    (now id user : ℕ) (list : List Allocation) → Keeps AllAccounted (allocate_all now id user list)
unfolding allocate_all
allocate_all-Keeps now id user [] = Keeps-pure AllAccounted tt
allocate_all-Keeps now id user (a ∷ rest) =
    Keeps-then AllAccounted (allocate_one now id user a) (allocate_all now id user rest)
      (record { at = λ s h. (allocate_one-Does now id user a s).at h })
      (allocate_all-Keeps now id user rest)

-- A step adds its amount to what the payment has allocated.
abbrev Adds : ℕ → ℤ → InvoiceStore → Result (Unit {0}) × InvoiceStore → Type 0
Adds id amount s (ok u, s') =
    allocated_by id s'.allocations ≡ amount +ℤ allocated_by id s.allocations
Adds id amount s (err e, s') = Unit

allocated_by_self :
    (now id user : ℕ) (a : Allocation) (rows : List InvoiceAllocation)
    → allocated_by id (new_row now id user a ∷ rows) ≡ a.amount +ℤ allocated_by id rows
unfolding allocated_by
allocated_by_self now id user a rows = ground arith

record-Does :
    (now id user : ℕ) (a : Allocation) (existing : Invoice) (s : InvoiceStore)
    → Does (Adds id a.amount) s (
        modify λ (s : InvoiceStore). record s {
          allocations = new_row now id user a ∷ s.allocations;
          invoices = update a.invoice_id (settle a.amount existing) s.invoices;
        })
record-Does now id user a existing s = record { at = allocated_by_self now id user a s.allocations }

allocate_one-Adds :
    (now id user : ℕ) (a : Allocation) (s : InvoiceStore)
    → Does (Adds id a.amount) s (allocate_one now id user a)
allocate_one-Adds now id user a s =
    search (throw_if-Does, or_throw-Does, gets-Does, nothing, record-Does) depth 10
  where
    nothing : (s : InvoiceStore) (e : Error) → Adds id a.amount s (err e, s)
    nothing s e = tt

+ℤ_shift : (r a b before x : ℤ) → x ≡ a +ℤ before → r ≡ x +ℤ b → r ≡ before +ℤ (a +ℤ b)
+ℤ_shift r a b before x e f =
    f
    ∙ ap (λ y. y +ℤ b) e
    ∙ eq_of_parts (a +ℤ before +ℤ b) (before +ℤ (a +ℤ b)) (
        omega (
          arith,
          +ℤ_parts a before,
          +ℤ_parts (a +ℤ before) b,
          +ℤ_parts a b,
          +ℤ_parts before (a +ℤ b),
        ))

+ℤ_zero : (a : ℤ) → a ≡ a +ℤ pos 0
+ℤ_zero a = eq_of_parts a (a +ℤ pos 0) (omega (arith, +ℤ_parts a (pos 0)))

allocate_all-Adds :
    (now id user : ℕ) (list : List Allocation) (s : InvoiceStore)
    → (allocate_all now id user list s).0 ≡ ok tt
    → allocated_by id (allocate_all now id user list s).1.allocations
      ≡ allocated_by id s.allocations +ℤ asked_for list
unfolding allocate_all asked_for
allocate_all-Adds now id user [] s e = +ℤ_zero (allocated_by id s.allocations)
allocate_all-Adds now id user (a ∷ rest) s e =
    after (allocate_one now id user a s).0 (allocate_one now id user a s).1
      (λ t f. allocate_all-Adds now id user rest t f) (allocate_one-Adds now id user a s).at e
  where
    after :
        (r : Result (Unit {0})) (t : InvoiceStore)
        → ((t : InvoiceStore)
            → (allocate_all now id user rest t).0 ≡ ok tt
            → allocated_by id (allocate_all now id user rest t).1.allocations
              ≡ allocated_by id t.allocations +ℤ asked_for rest)
        → Adds id a.amount s (r, t)
        → (((λ (x : InvoiceStore). (r, t)) >> allocate_all now id user rest) s).0 ≡ ok tt
        → allocated_by id
            (((λ (x : InvoiceStore). (r, t)) >> allocate_all now id user rest) s).1.allocations
          ≡ allocated_by id s.allocations +ℤ (a.amount +ℤ asked_for rest)
    after (ok u) t more h f =
        +ℤ_shift _ a.amount (asked_for rest) (allocated_by id s.allocations)
          (allocated_by id t.allocations) h (more t f)
    after (err x) t more h f = cc

-- The limit of a payment, with what the loop leaves.
within_limit :
    (now id : ℕ) (list : List Allocation) (s : PaymentStore) (p : Payment)
    → find_unique id s.payments ≡ some p
    → (allocate_to_invoices now id list s).0 ≡ ok tt
    → (ltb_ℤ (pos p.amount) (allocated_by id s.books.allocations +ℤ asked_for list) ≡ false)
      × (((allocate_all now id p.created_by list s.books).0 ≡ ok tt)
          × ((allocate_to_invoices now id list s).1.books
              ≡ (allocate_all now id p.created_by list s.books).1))
unfolding allocate_to_invoices
within_limit now id list s p found e = ground arith

-- If the call returns, the payment is there, and all that has been allocated from it, earlier calls and
-- those of the invoice service included, is at most its amount.
pub allocate_to_invoices-limit :
    (now id : ℕ) (list : List Allocation) (s : PaymentStore) (p : Payment)
    → find_unique id s.payments ≡ some p
    → (allocate_to_invoices now id list s).0 ≡ ok tt
    → allocated_by id (allocate_to_invoices now id list s).1.books.allocations ≤ℤ pos p.amount
allocate_to_invoices-limit now id list s p found e =
    let (limit, (done, books)) = within_limit now id list s p found e in
    rw (books, allocate_all-Adds now id p.created_by list s.books done)
      (at_most (allocated_by id s.books.allocations +ℤ asked_for list) (pos p.amount) limit)
  where
    at_most : (x y : ℤ) → ltb_ℤ y x ≡ false → x ≤ℤ y
    at_most x y h = ground arith
