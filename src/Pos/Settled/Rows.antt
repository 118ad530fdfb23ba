-- ===== src/Pos/Settled/Rows.antt =====
-- Changes of one row by pos.service.ts, which leave it settled.
use mathlib.Core.Path.{subst}
use mathlib.Core.Option.{some-injective}
use inventory_pos.Common.{
  ℕ, ◌+◌, ◌≡◌, refl, sym, ◌∙◌, ap, ◌≢◌, true, false, not, ◌&&◌, Option, none, some, Bool-cases, inl,
  inr, List, [], ◌∷◌, arith, All, sum_of, ltb, ◌==◌,
}
use inventory_pos.Common.Table.{Table}
use inventory_pos.Common.Text.{Text}
use inventory_pos.Pos
use inventory_pos.Pos.Store.{
  SaleStatus, open_, held, completed, voided, cancelled, SaleLine, PosPayment, PosTransaction,
  Shift, status_eq,
}
use inventory_pos.Pos.{
  PosEnv, OpenShift, open_shift, create_transaction, check_customer, change_sale, with_status, move,
  hold_transaction, resume_transaction, insert_shift, next_number,
}
use inventory_pos.Pos.Item.{with_line}
use inventory_pos.Pos.Payment.{Tender, payment_of, add_payments, total_tendered, paid_with}
use inventory_pos.Pos.Void.{voided_row}
use inventory_pos.Pos.Closing.{cancel_open, cancel_all}
use inventory_pos.Pos.Settled.{tendered, Settlement, IsSettled}

pub new_transaction-IsSettled :
    (env : PosEnv) (id : ℕ) (shift : Shift) (customer : Option ℕ) (number : Text)
    → IsSettled (Pos.new_transaction env id shift customer number)
new_transaction-IsSettled env id shift customer number = ((refl, refl, refl), refl)

pub is_open : (c : SaleStatus) → status_eq c open_ ≡ true → c ≡ open_
is_open open_ h = refl
is_open held h = cc
is_open completed h = cc
is_open voided h = cc
is_open cancelled h = cc

pub is_held : (c : SaleStatus) → status_eq c held ≡ true → c ≡ held
is_held open_ h = cc
is_held held h = refl
is_held completed h = cc
is_held voided h = cc
is_held cancelled h = cc

-- The row that is changed is the one that was read.
pub row_status :
    (c : SaleStatus) (o : Option PosTransaction) (t r : PosTransaction)
    → with_status c o ≡ some t
    → o ≡ some r
    → status_eq r.status c ≡ true
row_status c none t r h e = cc
row_status c (some x) t r h e =
    let alike : x ≡ r = some-injective _ _ e in
    subst (λ (y : PosTransaction). status_eq y.status c ≡ true) alike (ground arith)

-- A transaction that is open has been paid nothing, and one that is held neither.
pub unpaid_open : (t : PosTransaction) → t.status ≡ open_ → IsSettled t → tendered t ≡ 0
unpaid_open t e h = rw e at h.1

pub unpaid_held : (t : PosTransaction) → t.status ≡ held → IsSettled t → tendered t ≡ 0
unpaid_held t e h = rw e at h.1

-- What is read of a row that is there.
pub open_row :
    (o : Option PosTransaction) (sale r : PosTransaction)
    → o ≡ some sale
    → not (status_eq sale.status open_) ≡ false
    → o ≡ some r
    → (r ≡ sale) × (r.status ≡ open_)
open_row o sale r found guard e =
    let alike : r ≡ sale = some-injective _ _ (sym e ∙ found) in
    (alike, ap (λ (t : PosTransaction). t.status) alike ∙ is_open sale.status (ground arith))

settled_open : (r : PosTransaction) → r.status ≡ open_ → tendered r ≡ 0 → Settlement r.status r
settled_open r e h = rw e h

pub with_line-IsSettled :
    (l : SaleLine) (r : PosTransaction) → r.status ≡ open_ → IsSettled r → IsSettled (with_line l r)
with_line-IsSettled l r e h = (
  (omega (arith, h.0.0), omega (arith, h.0.1), omega (arith, h.0.2)),
  settled_open (with_line l r) e (unpaid_open r e h),
)

tendered-add_payments :
    (ps : List Tender) (old : List PosPayment)
    → sum_of (λ (p : PosPayment). p.amount) (add_payments ps old)
      ≡ total_tendered ps + sum_of (λ (p : PosPayment). p.amount) old
tendered-add_payments [] old = omega arith
tendered-add_payments (p ∷ ps) old = omega (arith, tendered-add_payments ps (payment_of p ∷ old))

pub paid_with-IsSettled :
    (ps : List Tender) (sale r : PosTransaction)
    → r ≡ sale
    → r.status ≡ open_
    → ltb (total_tendered ps) sale.total_amount ≡ false
    → IsSettled r
    → IsSettled (paid_with ps sale r)
paid_with-IsSettled ps sale r alike e enough h =
    let none_before = unpaid_open r e h in
    let total = ap (λ (t : PosTransaction). t.total_amount) alike in
    (
      h.0,
      (
        omega (arith, tendered-add_payments ps r.payments, none_before),
        ground (arith, total, enough),
      ),
    )

pub voided_row-IsSettled :
    (now user : ℕ) (reason : Text) (r : PosTransaction)
    → user ≢ r.cashier_id
    → IsSettled r
    → IsSettled (voided_row now user reason r)
voided_row-IsSettled now user reason r apart h = (h.0, (user, refl, apart))

cancel_open-IsSettled : (id : ℕ) (t : PosTransaction) → IsSettled t → IsSettled (cancel_open id t)
cancel_open-IsSettled id t h = elim (Bool-cases ((t.shift_id == id) && status_eq t.status open_)) [
  | inl here ↦ rw here (h.0, tt)
  | inr other ↦ rw other h
]

pub cancel_all-keeps :
    (id : ℕ) (rows : Table PosTransaction)
    → All (λ (x : ℕ × PosTransaction). IsSettled x.1) rows
    → All (λ (x : ℕ × PosTransaction). IsSettled x.1) (cancel_all id rows)
cancel_all-keeps id [] h = tt
cancel_all-keeps id ((j, t) ∷ rows) (h, hs) =
    (cancel_open-IsSettled id t h, cancel_all-keeps id rows hs)
