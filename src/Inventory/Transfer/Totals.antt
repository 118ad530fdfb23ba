-- ===== src/Inventory/Transfer/Totals.antt =====
-- What a transfer of inventory.service.ts moves.
use mathlib.Core.Path.{subst}
use inventory_pos.Common.{
  ℕ, ◌+◌, ◌≤◌, ◌<◌, ◌≡◌, refl, sym, ◌∙◌, ap, ◌≢◌, ◌⊎◌, inl, inr, false, List, [], ◌∷◌, ◌==◌, arith,
  sum_of, if◌then◌else◌, Bool-cases,
}
use inventory_pos.Common.Does.{>>=-all}
use inventory_pos.Common.Effects.{
  ◌>>=◌, ◌>>◌, Result, ok, err, Error, business, internal, insufficient_stock,
}
use inventory_pos.Common.Int.{sub_ℕ, pos, ltb_ℤ, eqb_ℤ, ◌+ℤ◌, ◌-ℤ◌}
use inventory_pos.Common.Text.{Text}
use inventory_pos.Inventory.{InventoryLedger, Columns, total_in, total_out, qty_available}
use inventory_pos.Numbering
use inventory_pos.Inventory.Stock.{next_number, TransferLine, StockTransfer, StockStore, StockEnv}
use inventory_pos.Inventory.Stock.Retry.{retry_from-all}
use inventory_pos.Inventory.Transfer.{
  TransferRequest, transfer_of, out_entry, in_entry, transfer_line, transfer_lines,
  transfer_attempt, write_transfer, transfer_stock,
}

-- How much of a product the lines name.
abbrev pub moved : ℕ → List TransferLine → ℕ
moved product lines =
    sum_of (λ (l : TransferLine). if l.product_id == product then l.qty else 0) lines

-- The lines have come out of one warehouse and into the other, and nothing else has moved; the source
-- had enough of every product.
pub record Moved (from to : ℕ) (lines : List TransferLine) (es es' : InventoryLedger) : Type 0 where
  pub came_in :
      (product warehouse : ℕ)
      → total_in product warehouse es'
        ≡ (if to == warehouse then moved product lines else 0) + total_in product warehouse es
  pub went_out :
      (product warehouse : ℕ)
      → total_out product warehouse es'
        ≡ (if from == warehouse then moved product lines else 0) + total_out product warehouse es
  pub covered :
      (product : ℕ)
      → 0 < moved product lines
      → total_out product from es' ≤ total_in product from es'

nothing : (from to : ℕ) (es : InventoryLedger) → Moved from to [] es es
nothing from to es = record {
  came_in = λ product warehouse. ground arith;
  went_out = λ product warehouse. ground arith;
  covered = λ product h. absurd (omega arith);
}

stock_le : (i o q : ℕ) → ltb_ℤ (sub_ℕ i o) (pos q) ≡ false → o + q ≤ i
stock_le i o q h = ground arith

one :
    (columns : Columns) (id : ℕ) (t : StockTransfer) (line : TransferLine) (es : InventoryLedger)
    → t.from_warehouse_id ≢ t.to_warehouse_id
    → ltb_ℤ (qty_available line.product_id t.from_warehouse_id es) (pos line.qty) ≡ false
    → Moved t.from_warehouse_id t.to_warehouse_id
        (line ∷ [])
        es
        (in_entry columns id t line es ∷ (out_entry columns id t line es ∷ es))
unfolding qty_available
one columns id t line es apart enough = record {
  came_in = λ product warehouse. ground arith;
  went_out = λ product warehouse. ground arith;
  covered = λ product h. elim (Bool-cases (line.product_id == product)) [
    | inl same ↦
        let e : line.product_id ≡ product = ground arith in
        let bound = rw e at (stock_le _ _ line.qty enough) in ground (arith, bound)
    | inr other ↦ ground arith
  ];
}

more :
    (from to : ℕ) (line : TransferLine) (lines : List TransferLine) (a b c : InventoryLedger)
    → from ≢ to
    → Moved from to (line ∷ []) a b
    → Moved from to lines b c
    → Moved from to (line ∷ lines) a c
more from to line lines a b c apart h k = record {
  came_in =
      λ product warehouse. ground (arith, h.came_in product warehouse, k.came_in product warehouse);
  went_out = λ product warehouse.
      ground (arith, h.went_out product warehouse, k.went_out product warehouse);
  covered = λ product n. ground (
    arith,
    h.covered product,
    k.covered product,
    k.came_in product from,
    k.went_out product from,
  );
}

-- A round throws before it writes, or there was enough and it wrote both entries.
transfer_line-cases :
    (columns : Columns) (id : ℕ) (t : StockTransfer) (line : TransferLine) (es : InventoryLedger)
    → ((e : Error) × (transfer_line columns id t line es ≡ (err e, es)))
      ⊎ ((ltb_ℤ (qty_available line.product_id t.from_warehouse_id es) (pos line.qty) ≡ false)
          × (transfer_line columns id t line es
              ≡ (ok tt, in_entry columns id t line es ∷ (out_entry columns id t line es ∷ es))))
unfolding transfer_line
transfer_line-cases columns id t line es =
    let source = qty_available line.product_id t.from_warehouse_id es in
    let target = qty_available line.product_id t.to_warehouse_id es in
    elim (Bool-cases (ltb_ℤ source (pos line.qty))) [
      | inl short ↦ inl (business insufficient_stock, ground arith)
      | inr enough ↦
          elim (Bool-cases
            (eqb_ℤ (source -ℤ pos line.qty +ℤ (target +ℤ pos line.qty)) (source +ℤ target))) [
              | inl same ↦ inr (enough, ground arith)
              | inr other ↦ inl (internal, ground arith)
            ]
    ]

-- The loop over the lines, when it ends without a throw.
transfer_lines-Moved :
    (columns : Columns) (id : ℕ) (t : StockTransfer) (lines : List TransferLine)
    (es es' : InventoryLedger)
    → t.from_warehouse_id ≢ t.to_warehouse_id
    → transfer_lines columns id t lines es ≡ (ok tt, es')
    → Moved t.from_warehouse_id t.to_warehouse_id lines es es'
unfolding transfer_lines
transfer_lines-Moved columns id t [] es es' apart =
    λ h. rw (← ap (λ out. out.1) h) (nothing t.from_warehouse_id t.to_warehouse_id es)
transfer_lines-Moved columns id t (line ∷ lines) es es' apart =
    >>=-all
      (λ out.
        out ≡ (ok tt, es') → Moved t.from_warehouse_id t.to_warehouse_id (line ∷ lines) es es')
      (transfer_line columns id t line) (λ u. transfer_lines columns id t lines) es
      (λ e t' thrown h. cc)
      (λ u b wrote h. round b wrote (transfer_lines-Moved columns id t lines b es' apart h))
  where
    round :
        (b : InventoryLedger)
        → transfer_line columns id t line es ≡ (ok tt, b)
        → Moved t.from_warehouse_id t.to_warehouse_id lines b es'
        → Moved t.from_warehouse_id t.to_warehouse_id (line ∷ lines) es es'
    round b wrote rest = elim (transfer_line-cases columns id t line es) [
      | inl (e, thrown) ↦ cc
      | inr (enough, both) ↦
          more t.from_warehouse_id t.to_warehouse_id line lines es b es' apart
            (rw (ap (λ out. out.1) (sym wrote ∙ both)) (one columns id t line es apart enough)) rest
    ]

-- What a call leaves: the stock moved, or everything but the counters as it was.
abbrev pub Post : TransferRequest → StockStore → Result StockTransfer × StockStore → Type 0
Post request s (err e, s') = (s'.ledger ≡ s.ledger) × (s'.transfers ≡ s.transfers)
Post request s (ok t, s') =
    Moved request.from_warehouse_id request.to_warehouse_id request.lines s.ledger s'.ledger

module _ (env : StockEnv) (request : TransferRequest)
    (apart : request.from_warehouse_id ≢ request.to_warehouse_id) where
  write_transfer-Post :
      (attempt : ℕ) (number : Text) (s : StockStore) (out : Result (Unit {0}) × InventoryLedger)
      → transfer_lines env.columns env.new_id (transfer_of request number) request.lines s.ledger
        ≡ out
      → Post request s (write_transfer env request attempt number s)
  write_transfer-Post attempt number s (err e, es') h = ground (arith, h)
  write_transfer-Post attempt number s (ok u, es') h =
      let m =
        transfer_lines-Moved env.columns env.new_id (transfer_of request number) request.lines
          s.ledger es' apart h in
      ground (arith, h)

  after :
      (s t : StockStore) (e : Error) (out : Result StockTransfer × StockStore)
      → Post request s (err e, t)
      → Post request t out
      → Post request s out
  after s t e (err x, u) (l, m) (l', m') = (l' ∙ l, m' ∙ m)
  after s t e (ok x, u) (l, m) h =
      subst
        (λ (es : InventoryLedger).
          Moved request.from_warehouse_id request.to_warehouse_id request.lines es u.ledger)
        l h

  attempt-Post :
      (attempt : ℕ) (s : StockStore) → Post request s (transfer_attempt env request attempt s)
  attempt-Post attempt s =
      >>=-all (Post request s)
        (next_number env attempt Numbering.DocumentType.to request.transfer_date)
        (write_transfer env request attempt) s
        (λ e t h. rw (ap (λ out. out.1) (sym h)) (refl, refl))
        (λ number t h.
          after s t internal _ (rw (ap (λ out. out.1) (sym h)) (refl, refl))
            (write_transfer-Post attempt number t _ refl))

-- A transfer that returns has moved its lines from one warehouse to the other: for every product, what
-- has come into the target and gone out of the source grew by the sum of the lines of the product, in
-- every other warehouse and for every other product nothing changed, and no source is left below zero
-- for a product that moved. A transfer that throws, in the last attempt or before, changes neither the
-- ledger nor the transfers.
pub transfer_stock-Post :
    (env : StockEnv) (request : TransferRequest) (s : StockStore)
    → Post request s (transfer_stock env request s)
unfolding transfer_stock
transfer_stock-Post env request s =
    elim (Bool-cases (request.from_warehouse_id == request.to_warehouse_id)) [
      | inl same ↦ rw (◌>>◌, ◌>>=◌, same) (refl, refl)
      | inr other ↦
          let apart : request.from_warehouse_id ≢ request.to_warehouse_id = ground arith in
          rw (◌>>◌, ◌>>=◌, other)
            (retry_from-all (Post request) (after env request apart) env
              (transfer_attempt env request) (attempt-Post env request apart) 2 1 s)
    ]
