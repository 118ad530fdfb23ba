-- ===== src/Purchase/Receipt/Twice.antt =====
-- `receiveGoods` of purchase-order.service.ts, and then `confirm` of goods-receipt.service.ts.
use mathlib.Core.Path.{subst}
use inventory_pos.Common.{
  ℕ, ◌+◌, ◌*◌, ◌≡◌, refl, sym, ◌∙◌, ap, Bool, true, false, Option, none, some, ◌∷◌, arith, any,
  if◌then◌else◌,
}
use inventory_pos.Common.Effects.{
  Error, Result, Action, internal, missing, rollback, transaction, ok, err, ◌>>=◌, ◌>>◌, on_part,
}
use inventory_pos.Common.Does.{Does, throw_if-Does, or_throw-Does}
use inventory_pos.Common.Table.{find_unique, find_unique-update_self}
use inventory_pos.Common.Text.{Text}
use inventory_pos.Purchase.Store.{PurchaseOrder, GoodsReceipt, PurchaseStore, set_sequences}
use inventory_pos.Numbering.{Sequences}
use inventory_pos.Purchase.Order.{find_by_id, existing_order, live, is_found}
use inventory_pos.Purchase.Order.Receive.{
  refers_nowhere, insert_receipt, receive_lines, ReceiptRequest, new_receipt, Env, count_goods,
  write_receipt, receive_goods,
}
use inventory_pos.Purchase.Order.Receive.Quantities.{received_on, brought_for, IsUnrepeated}
use inventory_pos.Purchase.Order.Receive.Conserve.{receive_lines_conserves}
use inventory_pos.Purchase.Receipt.{ReceiptStore, in_purchase}
use inventory_pos.Purchase.Receipt.Confirm.{ConfirmEnv, rows_of, order_rows, confirm}
use inventory_pos.Purchase.Receipt.Drafted.{Drafted, received_on-confirm}

module _ (env : Env) (id user : ℕ) (request : ReceiptRequest) where
  record Received (s s' : PurchaseStore) (gr : GoodsReceipt) : Type 0 where
    pub drafted : Drafted env.new_id id user request s' gr
    pub counted :
        (j : ℕ)
        → IsUnrepeated request.lines
        → received_on j (order_rows id s')
          ≡ received_on j (order_rows id s) + brought_for j request.lines

  abbrev Post : PurchaseStore → Result GoodsReceipt × PurchaseStore → Type 0
  Post s (err e, s') = Unit
  Post s (ok gr, s') = Received s s' gr

  throws : (s : PurchaseStore) (e : Error) → Post s (err e, s)
  throws s e = tt

  number-Does :
      (m : Action Sequences Text) (k : Text → Action PurchaseStore GoodsReceipt) (s : PurchaseStore)
      → ((q : Sequences) (number : Text) → Does Post (set_sequences q s) (k number))
      → Does Post s (on_part (λ (s : PurchaseStore). s.sequences) set_sequences m >>= k)
  number-Does m k s h = record { at = by_result (m s.sequences) }
    where
      same :
          (q : Sequences) (out : Result GoodsReceipt × PurchaseStore)
          → Post (set_sequences q s) out
          → Post s out
      same q (ok gr, s') h = record { drafted = h.drafted; counted = h.counted }
      same q (err e, s') h = tt

      by_result :
          (out : Result Text × Sequences)
          → Post s (((λ (t : PurchaseStore). (out.0, set_sequences out.1 t)) >>= k) s)
      by_result (ok number, q) = same q _ (h q number).at
      by_result (err e, q) = tt

  order_row : (o : Option PurchaseOrder) (po : PurchaseOrder) → live o ≡ some po → o ≡ some po
  order_row none po h = cc
  order_row (some row) po h = ground arith

  existing_order-Does :
      (k : PurchaseOrder → Action PurchaseStore GoodsReceipt) (s : PurchaseStore)
      → ((po : PurchaseOrder) → find_by_id id s ≡ some po → Does Post s (k po))
      → Does Post s (existing_order id >>= k)
  existing_order-Does k s next = record {
    at = (or_throw-Does Post throws missing (find_by_id id s) k s next).at;
  }

  insert_receipt-Does :
      (gr : GoodsReceipt) (k : Action PurchaseStore GoodsReceipt) (s : PurchaseStore)
      → Post s (rollback s (k (record s { receipts = (env.new_id, gr) ∷ s.receipts })))
      → Does Post s (transaction (insert_receipt env.new_id gr >> k))
  insert_receipt-Does gr k s h = record {
    at = by_key (is_found (find_unique env.new_id s.receipts));
  }
    where
      by_key :
          (b : Bool)
          → Post s (
              rollback s (
                ((λ (t : PurchaseStore).
                      if b
                      then (err internal, t)
                      else (ok tt, record t { receipts = (env.new_id, gr) ∷ t.receipts }))
                    >> k)
                  s))
      by_key true = tt
      by_key false = h

  write_receipt-Does :
      (po : PurchaseOrder) (number : Text) (s : PurchaseStore)
      → find_by_id id s ≡ some po
      → any (refers_nowhere po.lines) request.lines ≡ false
      → Does Post s (write_receipt env id po user request number)
  write_receipt-Does po number s there valid =
      insert_receipt-Does (new_receipt id po user request number)
        (count_goods env id po user request number) s
        (record {
          drafted = record { order = po; number = number; is_there = ground arith; is_new = refl };
          counted = λ j once.
              let row = order_row (find_unique id s.orders) po there in
              ap (λ o. received_on j (rows_of o))
                (find_unique-update_self id
                  (λ (r : PurchaseOrder). record r {
                    lines = receive_lines po.lines request.lines r.lines;
                  })
                  s.orders row)
              ∙ receive_lines_conserves j po.lines request.lines once valid
              ∙ ap (λ o. received_on j (rows_of o) + brought_for j request.lines) (sym row);
        })

  receive_goods-Does : (s : PurchaseStore) → Does Post s (receive_goods env id request user)
  unfolding receive_goods
  receive_goods-Does s =
      search (throw_if-Does Post throws, existing_order-Does, number-Does, write_receipt-Does) depth
        12

  result_of :
      (s : PurchaseStore) (out : Result GoodsReceipt × PurchaseStore) (gr : GoodsReceipt)
      → Post s out
      → out.0 ≡ ok gr
      → Received s out.1 gr
  result_of s (ok g, s') gr h e = let same : g ≡ gr = cc in subst (Received s s') same h
  result_of s (err x, s') gr h e = cc

-- Goods that the order service has received and whose receipt is then confirmed count twice on the order:
-- each line has received double what the receipt brings for it, if the receipt names it once at most.
pub receive_goods-confirm :
    (env : Env) (id user : ℕ) (request : ReceiptRequest) (later : ConfirmEnv) (confirmer j : ℕ)
    (s : ReceiptStore) (gr gr' : GoodsReceipt)
    → IsUnrepeated request.lines
    → let received = in_purchase (receive_goods env id request user) s in
      received.0 ≡ ok gr
      → let confirmed = confirm later env.new_id confirmer received.1 in
        confirmed.0 ≡ ok gr'
        → received_on j (order_rows id confirmed.1.purchase)
          ≡ received_on j (order_rows id s.purchase) + 2 * brought_for j request.lines
receive_goods-confirm env id user request later confirmer j s gr gr' once e e' =
    let first =
      result_of env id user request s.purchase (receive_goods env id request user s.purchase) gr
        (receive_goods-Does env id user request s.purchase).at e in
    omega (
      arith,
      first.counted j once,
      received_on-confirm later env.new_id id confirmer user j request
          (in_purchase (receive_goods env id request user) s).1 gr gr' first.drafted e',
    )
