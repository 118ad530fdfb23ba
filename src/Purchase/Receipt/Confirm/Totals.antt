-- ===== src/Purchase/Receipt/Confirm/Totals.antt =====
-- What `confirm` of goods-receipt.service.ts leaves, whether it returns or throws.
use mathlib.Core.Path.{subst}
use inventory_pos.Common.{
  ℕ, ◌+◌, ◌≡◌, refl, sym, ◌∙◌, ap, false, not, Option, none, some, List, ◌==◌, arith, if◌then◌else◌,
}
use inventory_pos.Common.Effects.{
  not_found, business, Error, Result, ok, err, Action, ◌>>=◌, ◌>>◌, missing, or_throw,
}
use inventory_pos.Common.Does.{Does, throw_if-Does, or_throw-Does, gets-Does, Silent, check-Does}
use inventory_pos.Common.Table.{find_unique, find_unique-update_self, find_first}
use inventory_pos.Purchase.Store.{PoLine, ReceiptStatus, draft, GoodsReceipt, PurchaseOrder}
use inventory_pos.Purchase.Order.Receive.Quantities.{received_on, brought_for}
use inventory_pos.Inventory.{total_in, total_out}
use inventory_pos.Accounting.Store.{FiscalPeriod, JournalEntry, Ledger}
use inventory_pos.Accounting.Period.{is_inside, get_period_for_date}
use inventory_pos.Accounting.Journal.Numbered.{validate_period_open-Silent}
use inventory_pos.Accounting.Journal.{process_event}
use inventory_pos.Purchase.Receipt.{
  ReceiptStore, set_purchase, set_ledger, in_purchase, live, existing_receipt, is_draft,
}
use inventory_pos.Purchase.Receipt.Confirm.{
  ConfirmEnv, add_lines, rows_of, order_rows, received_order, receipt_event, confirmed_row,
  in_ledger, keep_numbers, mark_confirmed, add_stock, change_order, write_confirmation, confirm,
}
use inventory_pos.Purchase.Receipt.Confirm.Lines.{
  received_on-add_lines, brought, total_in-stock_lines, total_out-stock_lines,
}

module _ (env : ConfirmEnv) (id user : ℕ) where
  -- The receipt `gr` has been confirmed: it was a draft, its quantities are on the lines of the order and
  -- in the stock, and its journal entry is what the engine makes of its event.
  pub record Confirmed (s s' : ReceiptStore) (gr : GoodsReceipt) : Type 0 where
    pub row : GoodsReceipt
    pub was_there : live (find_unique id s.purchase.receipts) ≡ some row
    pub was_draft : row.status ≡ draft
    pub is_confirmed : gr ≡ confirmed_row user env.journal.now row
    pub is_there : find_unique id s'.purchase.receipts ≡ some gr
    pub received :
        (j : ℕ)
        → received_on j (order_rows gr.po_id s'.purchase)
          ≡ received_on j (order_rows gr.po_id s.purchase) + brought_for j gr.lines
    pub came_in :
        (product warehouse : ℕ)
        → total_in product warehouse s'.inventory
          ≡ (if gr.warehouse_id == warehouse then brought product gr.lines else 0)
            + total_in product warehouse s.inventory
    pub went_out :
        (product warehouse : ℕ)
        → total_out product warehouse s'.inventory ≡ total_out product warehouse s.inventory
    pub period : ℕ × FiscalPeriod
    pub entry : JournalEntry
    pub in_period : find_first (λ p. is_inside p gr.receipt_date) s.ledger.periods ≡ some period
    pub journalled :
        process_event env.journal (receipt_event env.columns id gr period.0 user) s.ledger
        ≡ (ok entry, s'.ledger)

  abbrev pub Post : ReceiptStore → Result GoodsReceipt × ReceiptStore → Type 0
  Post s (err e, s') = s' ≡ set_ledger (record s.ledger { sequences = s'.ledger.sequences }) s
  Post s (ok gr, s') = Confirmed s s' gr

  throws : (s : ReceiptStore) (e : Error) → Post s (err e, s)
  throws s e = refl

  live_row : (o : Option GoodsReceipt) (row : GoodsReceipt) → live o ≡ some row → o ≡ some row
  live_row none row h = cc
  live_row (some gr) row h = ground arith

  draft_status : (c : ReceiptStatus) → not (is_draft c) ≡ false → c ≡ draft
  draft_status draft h = refl
  draft_status ReceiptStatus.confirmed h = cc
  draft_status ReceiptStatus.cancelled h = cc

  -- A step in the ledger, by how it ends.
  in_ledger-ends :
      (m : Action Ledger JournalEntry) (k : Action ReceiptStore GoodsReceipt) (s x : ReceiptStore)
      (out : Result JournalEntry × Ledger)
      → m x.ledger ≡ out
      → Post s (keep_numbers s (((λ (y : ReceiptStore). (out.0, set_ledger out.1 y)) >> k) x))
      → Post s (keep_numbers s ((in_ledger m >> k) x))
  in_ledger-ends m k s x out e h =
      subst
        (λ (o : Result JournalEntry × Ledger).
          Post s (keep_numbers s (((λ (y : ReceiptStore). (o.0, set_ledger o.1 y)) >> k) x)))
        (sym e) h

  write_confirmation-Post :
      (gr : GoodsReceipt) (po : PurchaseOrder) (period : ℕ × FiscalPeriod) (s : ReceiptStore)
      → live (find_unique id s.purchase.receipts) ≡ some gr
      → gr.status ≡ draft
      → find_unique gr.po_id s.purchase.orders ≡ some po
      → find_first (λ p. is_inside p gr.receipt_date) s.ledger.periods ≡ some period
      → (o : Option (List PoLine)) → add_lines gr.lines (order_rows gr.po_id s.purchase) ≡ o
      → (out : Result JournalEntry × Ledger)
      → process_event env.journal (receipt_event env.columns id gr period.0 user) s.ledger ≡ out
      → Post s (write_confirmation env id gr po.status period.0 user s)
  write_confirmation-Post gr po period s there drafted ordered dated none a out j = rw a refl
  write_confirmation-Post gr po period s there drafted ordered dated (some rows) a (err e, l) j =
      rw a (
        in_ledger-ends (process_event env.journal (receipt_event env.columns id gr period.0 user))
          (mark_confirmed env id gr user) s
          (add_stock env id gr user
            (set_purchase (change_order gr.po_id (received_order rows po.status) s.purchase) s))
          (err e, l) j refl)
  write_confirmation-Post gr po period s there drafted ordered dated (some rows) a (ok je, l) j =
      rw a (
        in_ledger-ends (process_event env.journal (receipt_event env.columns id gr period.0 user))
          (mark_confirmed env id gr user) s
          (add_stock env id gr user
            (set_purchase (change_order gr.po_id (received_order rows po.status) s.purchase) s))
          (ok je, l) j
          (record {
            row = gr;
            was_there = there;
            was_draft = drafted;
            is_confirmed = refl;
            is_there =
                find_unique-update_self id (confirmed_row user env.journal.now) s.purchase.receipts
                  (live_row (find_unique id s.purchase.receipts) gr there);
            received = λ k.
                ap (λ o. received_on k (rows_of o))
                  (find_unique-update_self gr.po_id (received_order rows po.status)
                    s.purchase.orders ordered)
                ∙ received_on-add_lines k gr.lines (order_rows gr.po_id s.purchase) rows a;
            came_in = λ product warehouse.
                total_in-stock_lines env.columns id gr user product warehouse gr.lines s.inventory;
            went_out = λ product warehouse.
                total_out-stock_lines env.columns id gr user product warehouse gr.lines s.inventory;
            period = period;
            entry = je;
            in_period = dated;
            journalled = j;
          }))

  existing_receipt-Does :
      (k : GoodsReceipt → Action ReceiptStore GoodsReceipt) (s : ReceiptStore)
      → ((gr : GoodsReceipt)
          → live (find_unique id s.purchase.receipts) ≡ some gr
          → Does Post s (k gr))
      → Does Post s (in_purchase (existing_receipt id) >>= k)
  existing_receipt-Does k s next = record {
    at = by_row (live (find_unique id s.purchase.receipts)) λ gr there. (next gr there).at;
  }
    where
      by_row :
          (o : Option GoodsReceipt)
          → ((gr : GoodsReceipt) → o ≡ some gr → Post s (k gr s))
          → Post s ((in_purchase (or_throw missing o) >>= k) s)
      by_row none h = refl
      by_row (some gr) h = h gr refl

  in_ledger-Silent : {A : Type 0} (m : Action Ledger A) → Silent m → Silent (in_ledger m)
  in_ledger-Silent m k = record { at = λ s. ap (λ l. set_ledger l s) (k.at s.ledger) }

  period-Does :
      (date : ℕ) (k : ℕ × FiscalPeriod → Action ReceiptStore GoodsReceipt) (s : ReceiptStore)
      → ((period : ℕ × FiscalPeriod)
          → find_first (λ p. is_inside p date) s.ledger.periods ≡ some period
          → Does Post s (k period))
      → Does Post s (in_ledger (get_period_for_date date) >>= k)
  unfolding get_period_for_date
  period-Does date k s next = record {
    at =
        by_row (find_first (λ p. is_inside p date) s.ledger.periods)
          λ period there. (next period there).at;
  }
    where
      by_row :
          (o : Option (ℕ × FiscalPeriod))
          → ((period : ℕ × FiscalPeriod) → o ≡ some period → Post s (k period s))
          → Post s ((in_ledger (or_throw (business not_found) o) >>= k) s)
      by_row none h = refl
      by_row (some period) h = h period refl

  write_confirmation-Does :
      (gr : GoodsReceipt) (po : PurchaseOrder) (period : ℕ × FiscalPeriod) (s : ReceiptStore)
      → live (find_unique id s.purchase.receipts) ≡ some gr
      → not (is_draft gr.status) ≡ false
      → find_unique gr.po_id s.purchase.orders ≡ some po
      → find_first (λ p. is_inside p gr.receipt_date) s.ledger.periods ≡ some period
      → Does Post s (write_confirmation env id gr po.status period.0 user)
  write_confirmation-Does gr po period s there drafted ordered dated = record {
    at =
        write_confirmation-Post gr po period s there (draft_status gr.status drafted) ordered dated
          _ refl _ refl;
  }

  confirm-Does : (s : ReceiptStore) → Does Post s (confirm env id user)
  unfolding confirm
  confirm-Does s =
      search
        (
          existing_receipt-Does,
          gets-Does Post throws,
          or_throw-Does Post throws,
          throw_if-Does Post throws,
          period-Does,
          check-Does Post throws,
          in_ledger-Silent,
          validate_period_open-Silent,
          write_confirmation-Does,
        )
        depth 16

  -- A confirmation that throws gives back everything but the numbering's counters. One that returns has
  -- confirmed a draft: each line of the order has received what the receipt brings for it, the stock of
  -- the receipt's warehouse has grown by it and no other stock has changed, and the journal is as the
  -- engine leaves it after the receipt's event in the period of the receipt's date.
  pub confirm-Post : (s : ReceiptStore) → Post s (confirm env id user s)
  confirm-Post s = (confirm-Does s).at
