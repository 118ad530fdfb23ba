-- ===== src/Pos/Calls.antt =====
-- The calls of pos.service.ts in any order.
use inventory_pos.Common.{ℕ, Option, List, [], ◌∷◌}
use inventory_pos.Common.Int.{ℤ}
use inventory_pos.Common.Text.{Text}
use inventory_pos.Pos.Store.{PosStore}
use inventory_pos.Pos.{
  PosEnv, OpenShift, open_shift, create_transaction, hold_transaction, resume_transaction,
}
use inventory_pos.Pos.Item.{LineItem, add_item}
use inventory_pos.Pos.Payment.{Tender, apply_payment}
use inventory_pos.Pos.Void.{void_transaction}
use inventory_pos.Pos.Closing.{ClosingUser, close_shift, force_close_shift}
use inventory_pos.Pos.Settled.{AllSettled}
use inventory_pos.Pos.Settled.Shifts.{
  open_shift-Keeps, create_transaction-Keeps, hold_transaction-Keeps, resume_transaction-Keeps,
  close_shift-Keeps, force_close_shift-Keeps,
}
use inventory_pos.Pos.Settled.Keep.{add_item-Keeps, apply_payment-Does, void_transaction-Keeps}

-- A call, with what it reads from outside.
pub data Call : Type 0 where
  shift_opened : PosEnv → OpenShift → Call
  sale_created : PosEnv → ℕ → Option ℕ → Call
  item_added : PosEnv → ℕ → LineItem → Call
  sale_held sale_resumed : (id version : ℕ) → Call
  sale_paid : PosEnv → ℕ → List Tender → Call
  sale_voided : PosEnv → (id user : ℕ) → Text → Option ℕ → Call
  shift_closed : (now id : ℕ) → ℤ → Option ClosingUser → Call
  shift_forced : (now id : ℕ) → ℤ → Call

-- The tables after a call.
unfoldable pub perform : Call → PosStore → PosStore
unfolding open_shift create_transaction add_item hold_transaction resume_transaction apply_payment
    void_transaction close_shift force_close_shift
perform (shift_opened env data_) s = (open_shift env data_ s).1
perform (sale_created env id customer) s = (create_transaction env id customer s).1
perform (item_added env id item) s = (add_item env id item s).1
perform (sale_held id version) s = (hold_transaction id version s).1
perform (sale_resumed id version) s = (resume_transaction id version s).1
perform (sale_paid env id ps) s = (apply_payment env id ps s).1
perform (sale_voided env id user reason version) s =
    (void_transaction env id user reason version s).1
perform (shift_closed now id closing user) s = (close_shift now id closing user s).1
perform (shift_forced now id closing) s = (force_close_shift now id closing s).1

unfoldable pub run : List Call → PosStore → PosStore
unfolding perform
run [] s = s
run (c ∷ cs) s = run cs (perform c s)

perform-AllSettled : (c : Call) (s : PosStore) → AllSettled s → AllSettled (perform c s)
unfolding perform
perform-AllSettled (shift_opened env data_) s h = (open_shift-Keeps env data_).at s h
perform-AllSettled (sale_created env id customer) s h =
    (create_transaction-Keeps env id customer).at s h
perform-AllSettled (item_added env id item) s h = (add_item-Keeps env id item).at s h
perform-AllSettled (sale_held id version) s h = (hold_transaction-Keeps id version).at s h
perform-AllSettled (sale_resumed id version) s h = (resume_transaction-Keeps id version).at s h
perform-AllSettled (sale_paid env id ps) s h = (apply_payment-Does env id ps s).at h
perform-AllSettled (sale_voided env id user reason version) s h =
    (void_transaction-Keeps env id user reason version).at s h
perform-AllSettled (shift_closed now id closing user) s h =
    (close_shift-Keeps now id closing user).at s h
perform-AllSettled (shift_forced now id closing) s h =
    (force_close_shift-Keeps now id closing).at s h

-- Whatever calls are made, in whatever order: the subtotal and the tax of every transaction are the sums
-- over its lines and the total is their sum, an open or held one has been paid nothing, a completed one
-- is paid by its payments to its total and its change, and no cashier has voided a transaction of the
-- same cashier.
pub run-AllSettled : (cs : List Call) (s : PosStore) → AllSettled s → AllSettled (run cs s)
unfolding run
run-AllSettled [] s h = h
run-AllSettled (c ∷ cs) s h = run-AllSettled cs (perform c s) (perform-AllSettled c s h)
