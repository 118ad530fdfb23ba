-- ===== src/Purchase/Receipt/Bounds.antt =====
-- A receipt that goods-receipt.service.ts creates and then confirms, against the ordered quantities.
use mathlib.Core.Path.{subst}
use inventory_pos.Common.{
  ℕ, ◌+◌, ◌≤◌, ◌≡◌, refl, sym, ◌∙◌, ap, ◌≢◌, true, false, Option, none, some, Bool-cases, inl, inr,
  List, [], ◌∷◌, ◌==◌, arith, any, map, All,
}
use inventory_pos.Common.Effects.{ok}
use inventory_pos.Common.Table.{find_unique}
use inventory_pos.Master.{MasterData}
use inventory_pos.Master.Counts.{IsKeyed, IsDistinct}
use inventory_pos.Purchase.Store.{PoLine, ReceiptLine, GoodsReceipt}
use inventory_pos.Purchase.Order.{is_found}
use inventory_pos.Purchase.Order.Receive.{find_line, refers_nowhere, ReceiptRequest, Env}
use inventory_pos.Purchase.Order.Receive.Quantities.{
  received_on, ordered_on, brought_for, IsUnrepeated,
}
use inventory_pos.Purchase.Receipt.{ReceiptStore, create}
use inventory_pos.Purchase.Receipt.Confirm.{ConfirmEnv, rows_of, order_rows, confirm}
use inventory_pos.Purchase.Receipt.Drafted.{live_order, received_on-confirm}
use inventory_pos.Purchase.Receipt.Checks.{Agrees}
use inventory_pos.Purchase.Receipt.Created.{created, create-Post}

abbrev Matches : List PoLine → ReceiptLine → Type 0
Matches rows l = Agrees l (find_line l.po_line_id rows)

-- Lines for one row of the order are for one product.
one_product :
    (rows : List PoLine) (l m : ReceiptLine) (o : Option PoLine)
    → find_line l.po_line_id rows ≡ o
    → is_found o ≡ true
    → m.po_line_id ≡ l.po_line_id
    → Matches rows l
    → Matches rows m
    → m.product_id ≡ l.product_id
one_product rows l m none e found same a b = cc
one_product rows l m (some row) e found same a b =
    let x = rw e at a in let y = rw (same, e) at b in y.1 ∙ sym x.1

apart :
    (rows : List PoLine) (l : ReceiptLine) (ms : List ReceiptLine)
    → is_found (find_line l.po_line_id rows) ≡ true
    → Matches rows l
    → All (Matches rows) ms
    → any (λ k. k == l.product_id) (map (λ (m : ReceiptLine). m.product_id) ms) ≡ false
    → All (λ (m : ReceiptLine). m.po_line_id ≢ l.po_line_id) ms
apart rows l [] found a bs once = tt
apart rows l (m ∷ ms) found a (b, bs) once = (
  (λ same.
      let alike = one_product rows l m (find_line l.po_line_id rows) refl found same a b in
      absurd (ground (arith, alike))),
  apart rows l ms found a bs (ground arith),
)

-- A receipt with one line for each product names each line of the order at most once.
pub unrepeated :
    (rows : List PoLine) (ls : List ReceiptLine)
    → any (refers_nowhere rows) ls ≡ false
    → All (Matches rows) ls
    → IsDistinct (map (λ (l : ReceiptLine). l.product_id) ls)
    → IsUnrepeated ls
unrepeated rows [] valid bs once = tt
unrepeated rows (l ∷ ls) valid (a, bs) (here, once) =
    (apart rows l ls (ground arith) a bs here, unrepeated rows ls (ground arith) bs once)

nothing_for :
    (j : ℕ) (ls : List ReceiptLine)
    → All (λ (m : ReceiptLine). m.po_line_id ≢ j) ls
    → brought_for j ls ≡ 0
nothing_for j [] h = refl
nothing_for j (l ∷ ls) (ne, h) = ground (arith, nothing_for j ls h)

within :
    (l : ReceiptLine) (rows : List PoLine) (o : Option PoLine)
    → find_line l.po_line_id rows ≡ o
    → is_found o ≡ true
    → Matches rows l
    → received_on l.po_line_id rows + l.qty_received ≤ ordered_on l.po_line_id rows
within l rows none e found a = cc
within l rows (some row) e found a = rw e (rw e at a).0

fits :
    (j : ℕ) (rows : List PoLine) (ls : List ReceiptLine)
    → any (refers_nowhere rows) ls ≡ false
    → All (Matches rows) ls
    → IsUnrepeated ls
    → received_on j rows ≤ ordered_on j rows
    → received_on j rows + brought_for j ls ≤ ordered_on j rows
fits j rows [] valid bs once h = omega (arith, h)
fits j rows (l ∷ ls) valid (a, bs) (other, once) h = elim (Bool-cases (l.po_line_id == j)) [
  | inl here ↦
      let same : l.po_line_id ≡ j = ground arith in
      let none_left = nothing_for l.po_line_id ls other in
      let enough = within l rows (find_line l.po_line_id rows) refl (ground arith) a in
      subst (λ k. received_on k rows + brought_for k (l ∷ ls) ≤ ordered_on k rows) same
        (ground (arith, none_left, enough))
  | inr there ↦ ground (arith, fits j rows ls (ground arith) bs once h)
]

-- A receipt that is created and confirmed with nothing in between takes no line of the order over what
-- was ordered, if the ids of the products and units are pairwise different and the line was not over
-- before.
pub create-confirm-IsBounded :
    (master : MasterData)
    → IsKeyed master.products
    → IsKeyed master.units
    → (env : Env) (id user : ℕ) (request : ReceiptRequest) (later : ConfirmEnv) (confirmer j : ℕ)
      (s : ReceiptStore) (gr gr' : GoodsReceipt)
    → received_on j (order_rows id s.purchase) ≤ ordered_on j (order_rows id s.purchase)
    → let created = create master env id request user s in
      created.0 ≡ ok gr
      → let confirmed = confirm later env.new_id confirmer created.1 in
        confirmed.0 ≡ ok gr'
        → received_on j (order_rows id confirmed.1.purchase)
          ≤ ordered_on j (order_rows id s.purchase)
create-confirm-IsBounded master pk uk env id user request later confirmer j s gr gr' bounded e e' =
    let c =
      created master pk uk env id user request s (create master env id request user s) gr
        (create-Post master pk uk env id user request s) e in
    let rows : order_rows id s.purchase ≡ c.order.lines =
      live_order id (find_unique id s.purchase.orders) c.order c.was_there in
    let kept = ap (λ orders. received_on j (rows_of (find_unique id orders))) c.orders_kept in
    let once = unrepeated c.order.lines request.lines c.are_found c.agree c.products_differ in
    let total =
      received_on-confirm later env.new_id id confirmer user j request
        (create master env id request user s).1 gr gr' c.drafted e' in
    let below =
      fits j c.order.lines request.lines c.are_found c.agree once
        (subst (λ ls. received_on j ls ≤ ordered_on j ls) rows bounded) in
    let before = ap (received_on j) rows in
    let limit = ap (ordered_on j) rows in omega (arith, total, kept, below, before, limit)
