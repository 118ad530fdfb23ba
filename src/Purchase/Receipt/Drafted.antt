-- ===== src/Purchase/Receipt/Drafted.antt =====
-- A draft receipt that a call has written, and its confirmation by goods-receipt.service.ts.
use mathlib.Core.Path.{subst}
use mathlib.Core.Option.{some-injective}
use inventory_pos.Common.{ℕ, ◌+◌, ◌≡◌, sym, ◌∙◌, ap, Option, none, some, arith}
use inventory_pos.Common.Effects.{Result, ok, err}
use inventory_pos.Common.Table.{find_unique}
use inventory_pos.Common.Text.{Text}
use inventory_pos.Purchase.Store.{PurchaseOrder, GoodsReceipt, PurchaseStore}
use inventory_pos.Purchase.Order.{live}
use inventory_pos.Purchase.Order.Receive.{ReceiptRequest, new_receipt}
use inventory_pos.Purchase.Order.Receive.Quantities.{received_on, brought_for}
use inventory_pos.Purchase.Receipt
use inventory_pos.Purchase.Receipt.{ReceiptStore}
use inventory_pos.Purchase.Receipt.Confirm.{ConfirmEnv, rows_of, order_rows, confirmed_row, confirm}
use inventory_pos.Purchase.Receipt.Confirm.Totals.{Confirmed, Post, confirm-Post}

-- The row is there as it was requested for the order.
pub record Drafted (key id user : ℕ) (request : ReceiptRequest) (s : PurchaseStore)
    (gr : GoodsReceipt) : Type 0 where
  pub order : PurchaseOrder
  pub number : Text
  pub is_there : find_unique key s.receipts ≡ some gr
  pub is_new : gr ≡ new_receipt id order user request number

pub live_order :
    (id : ℕ) (o : Option PurchaseOrder) (po : PurchaseOrder)
    → live o ≡ some po
    → rows_of o ≡ po.lines
live_order id none po h = cc
live_order id (some row) po h = ground arith

pub confirmed :
    (env : ConfirmEnv) (id user : ℕ) (s : ReceiptStore) (out : Result GoodsReceipt × ReceiptStore)
    (gr : GoodsReceipt)
    → Post env id user s out
    → out.0 ≡ ok gr
    → Confirmed env id user s out.1 gr
confirmed env id user s (ok g, s') gr h e =
    let same : g ≡ gr = cc in subst (Confirmed env id user s s') same h
confirmed env id user s (err x, s') gr h e = cc

pub received_on-confirm :
    (env : ConfirmEnv) (key id user drafter j : ℕ) (request : ReceiptRequest) (s : ReceiptStore)
    (gr gr' : GoodsReceipt)
    → Drafted key id drafter request s.purchase gr
    → (confirm env key user s).0 ≡ ok gr'
    → received_on j (order_rows id (confirm env key user s).1.purchase)
      ≡ received_on j (order_rows id s.purchase) + brought_for j request.lines
received_on-confirm env key id user drafter j request s gr gr' d e =
    let c = confirmed env key user s (confirm env key user s) gr' (confirm-Post env key user s) e in
    let same : c.row ≡ new_receipt id d.order drafter request d.number =
      some-injective _ _ (sym c.was_there ∙ ap Receipt.live (d.is_there ∙ ap some d.is_new)) in
    let final : gr'
        ≡ confirmed_row user env.journal.now (new_receipt id d.order drafter request d.number) =
      c.is_confirmed ∙ ap (confirmed_row user env.journal.now) same in
    rw final at (c.received j)
