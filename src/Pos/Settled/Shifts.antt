-- ===== src/Pos/Settled/Shifts.antt =====
-- Shifts, and the life of a transaction but for its items, payment and voiding, keep every transaction
-- of pos.service.ts settled.
use inventory_pos.Common.{ℕ, ◌+◌, ◌≡◌, Bool, true, false, Option, none, some, ◌∷◌, if◌then◌else◌}
use inventory_pos.Common.Effects.{internal, Result, Action, ok, err}
use inventory_pos.Common.Int.{ℤ}
use inventory_pos.Common.Does.{Does, throw_if-Does, or_throw-Does, gets-Does}
use inventory_pos.Common.Keeps.{Keeps, keeps_rules}
use inventory_pos.Common.Table.{find_unique}
use inventory_pos.Pos
use inventory_pos.Pos.Store.{SaleStatus, open_, held, PosTransaction, PosStore, Shift, status_eq}
use inventory_pos.Pos.{
  PosEnv, OpenShift, open_shift, create_transaction, check_customer, change_sale, with_status, move,
  pos_transaction, hold_transaction, resume_transaction, insert_shift, next_number,
}
use inventory_pos.Pos.Closing.{ClosingUser, check_user, cancel_all, close_shift, force_close_shift}
use inventory_pos.Pos.Kept.{pos_transaction-Keeps}
use inventory_pos.Pos.Settled.{
  IsSettled, AllSettled, same, books, Post, throws, insert_transaction-Keeps, pos_transaction-Does,
  change_sale-Does, change_last-Does,
}
use inventory_pos.Pos.Settled.Rows.{
  new_transaction-IsSettled, is_open, is_held, row_status, unpaid_open, unpaid_held,
  cancel_all-keeps,
}

pub settled_transaction :
    {A : Type 0} (m : Action PosStore A) → Keeps AllSettled m → Keeps AllSettled (pos_transaction m)
settled_transaction = pos_transaction-Keeps AllSettled books

pub ruleset still = (keeps_rules, same, settled_transaction, insert_transaction-Keeps)

insert_shift-Keeps : (id : ℕ) (shift : Shift) → Keeps AllSettled (insert_shift id shift)
insert_shift-Keeps id shift = record {
  at = λ s h. by_key s (Pos.is_there (find_unique id s.shifts)) h;
}
  where
    by_key :
        (s : PosStore) (b : Bool)
        → AllSettled s
        → let out : Result Shift × PosStore =
            if b
            then (err internal, s)
            else (ok shift, record s { shifts = (id, shift) ∷ s.shifts }) in
          AllSettled out.1
    by_key s true h = h
    by_key s false h = h

pub open_shift-Keeps : (env : PosEnv) (data_ : OpenShift) → Keeps AllSettled (open_shift env data_)
unfolding open_shift
open_shift-Keeps env data_ = search (still, insert_shift-Keeps) depth 10

check_customer-Keeps : (customer : Option ℕ) → Keeps AllSettled (check_customer customer)
check_customer-Keeps none = search still
check_customer-Keeps (some id) = search still depth 8

pub create_transaction-Keeps :
    (env : PosEnv) (id : ℕ) (customer : Option ℕ)
    → Keeps AllSettled (create_transaction env id customer)
unfolding create_transaction
create_transaction-Keeps env id customer =
    search (still, check_customer-Keeps, new_transaction-IsSettled) depth 12

module _ (from to : SaleStatus) (id version : ℕ)
    (step : (r : PosTransaction)
      → status_eq r.status from ≡ true
      → IsSettled r
      → IsSettled (record r { status = to; version = r.version + 1 })) where
  moved :
      (sale : PosTransaction) (s : PosStore)
      → with_status from (find_unique id s.sales) ≡ some sale
      → Does Post s (change_sale id λ t. record t { status = to; version = t.version + 1 })
  moved sale s found =
      change_last-Does id (λ t. record t { status = to; version = t.version + 1 }) s
        λ r e. step r (row_status from (find_unique id s.sales) sale r found e)

  move-Does : (s : PosStore) → Does Post s (move from to id version)
  move-Does s =
      search
        (
          pos_transaction-Does,
          gets-Does Post (throws (Unit {0})),
          or_throw-Does Post (throws (Unit {0})),
          throw_if-Does Post (throws (Unit {0})),
          moved,
        )
        depth 10

pub hold_transaction-Keeps : (id version : ℕ) → Keeps AllSettled (hold_transaction id version)
unfolding hold_transaction
hold_transaction-Keeps id version = record {
  at = λ s.
      (move-Does open_ held id version (λ r e h. (h.0, unpaid_open r (is_open r.status e) h)) s).at;
}

pub resume_transaction-Keeps : (id version : ℕ) → Keeps AllSettled (resume_transaction id version)
unfolding resume_transaction
resume_transaction-Keeps id version = record {
  at = λ s.
      (move-Does held open_ id version (λ r e h. (h.0, unpaid_held r (is_held r.status e) h)) s).at;
}

check_user-Keeps :
    (user : Option ClosingUser) (shift : Shift) → Keeps AllSettled (check_user user shift)
check_user-Keeps none shift = search still
check_user-Keeps (some user) shift = search still

pub close_shift-Keeps :
    (now id : ℕ) (closing : ℤ) (user : Option ClosingUser)
    → Keeps AllSettled (close_shift now id closing user)
unfolding close_shift
close_shift-Keeps now id closing user = search (still, check_user-Keeps) depth 12

all_cancelled :
    (id : ℕ) (s : PosStore) → AllSettled s → AllSettled (record s { sales = cancel_all id s.sales })
all_cancelled id s h = cancel_all-keeps id s.sales h

pub force_close_shift-Keeps :
    (now id : ℕ) (closing : ℤ) → Keeps AllSettled (force_close_shift now id closing)
unfolding force_close_shift
force_close_shift-Keeps now id closing = search (still, all_cancelled) depth 12
