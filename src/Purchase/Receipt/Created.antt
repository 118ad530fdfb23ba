-- ===== src/Purchase/Receipt/Created.antt =====
-- What `create` of goods-receipt.service.ts asks of a receipt before it writes its draft.
use mathlib.Core.Path.{subst}
use inventory_pos.Common.{
  ℕ, ◌≡◌, refl, Bool, true, false, not, Option, none, some, inl, inr, List, ◌∷◌, arith, any, map,
  All, length, if◌then◌else◌,
}
use inventory_pos.Common.Effects.{
  Error, Result, Action, ok, err, internal, missing, rollback, transaction, or_throw, modify, pure,
  ◌>>=◌, ◌>>◌,
}
use inventory_pos.Common.Does.{Does, throw_if-Does, gets-Does, >>=-ok, >>=-err}
use inventory_pos.Common.Table.{Table, find_unique}
use inventory_pos.Common.Text.{Text}
use inventory_pos.Numbering.{DocumentType, Sequences, generate}
use inventory_pos.Master.{Party, MasterData, invalid, count_found, verify_all}
use inventory_pos.Master.Counts.{IsKeyed, IsDistinct, count_found-IsDistinct}
use inventory_pos.Purchase.Store.{
  PoLine, ReceiptLine, PurchaseOrder, GoodsReceipt, PurchaseStore, AuditAction, set_sequences, log,
}
use inventory_pos.Purchase.Order.{find_by_id, existing_order, is_found}
use inventory_pos.Purchase.Order.Create.{is_active_product, is_active_unit}
use inventory_pos.Purchase.Order.Receive.{
  can_receive, find_line, refers_nowhere, ReceiptRequest, new_receipt, insert_receipt, Env,
}
use inventory_pos.Purchase.Receipt.{
  ReceiptStore, set_purchase, check_lines, in_purchase, write_draft, next_number, create,
}
use inventory_pos.Inventory.Stock.{is_locked}
use inventory_pos.Purchase.Receipt.Drafted.{Drafted}
use inventory_pos.Purchase.Receipt.Checks.{Agrees, check_lines-cases}

module _ (master : MasterData) (products_keyed : IsKeyed master.products)
    (units_keyed : IsKeyed master.units) (env : Env) (id user : ℕ) (request : ReceiptRequest) where
  -- A draft has been created: each line agrees with its line of the order, no two lines are for the same
  -- product or in the same unit, and the order and its quantities are as they were.
  pub record Created (s s' : ReceiptStore) (gr : GoodsReceipt) : Type 0 where
    pub order : PurchaseOrder
    pub was_there : find_by_id id s.purchase ≡ some order
    pub was_approved : can_receive order.status ≡ true
    pub was_free : is_locked (find_unique order.warehouse_id s.warehouses) ≡ false
    pub are_found : any (refers_nowhere order.lines) request.lines ≡ false
    pub agree :
        All (λ (l : ReceiptLine). Agrees l (find_line l.po_line_id order.lines)) request.lines
    pub products_differ : IsDistinct (map (λ (l : ReceiptLine). l.product_id) request.lines)
    pub units_differ : IsDistinct (map (λ (l : ReceiptLine). l.uom_id) request.lines)
    pub drafted : Drafted env.new_id id user request s'.purchase gr
    pub orders_kept : s'.purchase.orders ≡ s.purchase.orders
    pub stock_kept : s'.inventory ≡ s.inventory

  abbrev pub Post : ReceiptStore → Result GoodsReceipt × ReceiptStore → Type 0
  Post s (err e, s') =
      (s'.purchase.orders ≡ s.purchase.orders) × (s'.purchase.receipts ≡ s.purchase.receipts)
  Post s (ok gr, s') = Created s s' gr

  throws : (s : ReceiptStore) (e : Error) → Post s (err e, s)
  throws s e = (refl, refl)

  existing_order-Does :
      (k : PurchaseOrder → Action ReceiptStore GoodsReceipt) (s : ReceiptStore)
      → ((po : PurchaseOrder) → find_by_id id s.purchase ≡ some po → Does Post s (k po))
      → Does Post s (in_purchase (existing_order id) >>= k)
  existing_order-Does k s next = record {
    at = by_row (find_by_id id s.purchase) λ po there. (next po there).at;
  }
    where
      by_row :
          (o : Option PurchaseOrder)
          → ((po : PurchaseOrder) → o ≡ some po → Post s (k po s))
          → Post s ((in_purchase (or_throw missing o) >>= k) s)
      by_row none h = (refl, refl)
      by_row (some po) h = h po refl

  check_lines-Does :
      (rows : List PoLine) (ls : List ReceiptLine) (k : Action ReceiptStore GoodsReceipt)
      (s : ReceiptStore)
      → (All (λ (l : ReceiptLine). Agrees l (find_line l.po_line_id rows)) ls → Does Post s k)
      → Does Post s (check_lines rows ls >> k)
  check_lines-Does rows ls k s next = elim (check_lines-cases s rows ls) [
    | inr (e, h) ↦ record {
      at = >>=-err (Post s) (check_lines rows ls) (λ _. k) s e s h (refl, refl);
    }
    | inl (agree, h) ↦ record {
      at = >>=-ok (Post s) (check_lines rows ls) (λ _. k) s tt s h (next agree).at;
    }
  ]

  verify_all-Does :
      (p : Party → Bool) (rows : Table Party) (ids : List ℕ) (k : Action ReceiptStore GoodsReceipt)
      (s : ReceiptStore)
      → (count_found p ids rows ≡ length ids → Does Post s k)
      → Does Post s (verify_all p rows ids >> k)
  unfolding verify_all
  verify_all-Does p rows ids k s next =
      throw_if-Does Post throws _ invalid k s λ e. next (ground arith)

  number-Does :
      (k : Text → Action ReceiptStore GoodsReceipt) (s : ReceiptStore)
      → ((q : Sequences) (number : Text)
          → Does Post (set_purchase (set_sequences q s.purchase) s) (k number))
      → Does Post s (in_purchase (next_number env) >>= k)
  number-Does k s h = record {
    at = by_result (generate env.db DocumentType.gr env.today s.purchase.sequences);
  }
    where
      same :
          (q : Sequences) (out : Result GoodsReceipt × ReceiptStore)
          → Post (set_purchase (set_sequences q s.purchase) s) out
          → Post s out
      same q (ok gr, s') h = record {
        order = h.order;
        was_there = h.was_there;
        was_approved = h.was_approved;
        was_free = h.was_free;
        are_found = h.are_found;
        agree = h.agree;
        products_differ = h.products_differ;
        units_differ = h.units_differ;
        drafted = h.drafted;
        orders_kept = h.orders_kept;
        stock_kept = h.stock_kept;
      }
      same q (err e, s') h = h

      by_result :
          (out : Result Text × Sequences)
          → Post s (
              ((λ (t : ReceiptStore). (out.0, set_purchase (set_sequences out.1 t.purchase) t))
                  >>= k)
                s)
      by_result (ok number, q) = same q _ (h q number).at
      by_result (err e, q) = (refl, refl)

  insert_receipt-Does :
      (gr : GoodsReceipt) (k : Action PurchaseStore GoodsReceipt) (s : ReceiptStore)
      → Post s (
          in_purchase
            (λ (p : PurchaseStore).
              rollback p (k (record p { receipts = (env.new_id, gr) ∷ p.receipts })))
            s)
      → Does Post s (in_purchase (transaction (insert_receipt env.new_id gr >> k)))
  insert_receipt-Does gr k s h = record {
    at = by_key (is_found (find_unique env.new_id s.purchase.receipts));
  }
    where
      by_key :
          (b : Bool)
          → Post s (
              in_purchase
                (λ (p : PurchaseStore). rollback p (
                  ((λ (t : PurchaseStore).
                        if b
                        then (err internal, t)
                        else (ok tt, record t { receipts = (env.new_id, gr) ∷ t.receipts }))
                      >> k)
                    p))
                s)
      by_key true = (refl, refl)
      by_key false = h

  write_draft-Does :
      (po : PurchaseOrder) (number : Text) (s : ReceiptStore)
      → find_by_id id s.purchase ≡ some po
      → not (can_receive po.status) ≡ false
      → is_locked (find_unique po.warehouse_id s.warehouses) ≡ false
      → any (refers_nowhere po.lines) request.lines ≡ false
      → All (λ (l : ReceiptLine). Agrees l (find_line l.po_line_id po.lines)) request.lines
      → count_found is_active_product
          (map (λ (l : ReceiptLine). l.product_id) request.lines)
          master.products
        ≡ length (map (λ (l : ReceiptLine). l.product_id) request.lines)
      → count_found is_active_unit (map (λ (l : ReceiptLine). l.uom_id) request.lines) master.units
        ≡ length (map (λ (l : ReceiptLine). l.uom_id) request.lines)
      → Does Post s (in_purchase (write_draft env id po user request number))
  write_draft-Does po number s there approved free valid agree products units =
      insert_receipt-Does (new_receipt id po user request number)
        (modify (log user AuditAction.create env.new_id)
          >> pure (new_receipt id po user request number))
        s
        (record {
          order = po;
          was_there = there;
          was_approved = ground arith;
          was_free = free;
          are_found = valid;
          agree = agree;
          products_differ =
              count_found-IsDistinct is_active_product _ master.products products_keyed products;
          units_differ = count_found-IsDistinct is_active_unit _ master.units units_keyed units;
          drafted = record { order = po; number = number; is_there = ground arith; is_new = refl };
          orders_kept = refl;
          stock_kept = refl;
        })

  create-Does : (s : ReceiptStore) → Does Post s (create master env id request user)
  unfolding create
  create-Does s =
      search
        (
          throw_if-Does Post throws,
          gets-Does Post throws,
          existing_order-Does,
          check_lines-Does,
          verify_all-Does,
          number-Does,
          write_draft-Does,
        )
        depth 16

  -- A receipt that is created is a new draft for an order that can be received, into a warehouse that is
  -- not locked. Each of its lines agrees in product and unit with its line of the order and stays within
  -- what is left to receive; no two lines are for one product, and no two in one unit, if the ids of the
  -- master data are pairwise different. The orders and the stock are as they were; a call that throws
  -- changes neither the orders nor the receipts.
  pub create-Post : (s : ReceiptStore) → Post s (create master env id request user s)
  create-Post s = (create-Does s).at

  pub created :
      (s : ReceiptStore) (out : Result GoodsReceipt × ReceiptStore) (gr : GoodsReceipt)
      → Post s out
      → out.0 ≡ ok gr
      → Created s out.1 gr
  created s (ok g, s') gr h e = let same : g ≡ gr = cc in subst (Created s s') same h
  created s (err x, s') gr h e = cc
