-- ===== src/Inventory/Adjust/Totals.antt =====
-- What an adjustment of inventory.service.ts changes.
use mathlib.Core.Path.{subst}
use inventory_pos.Common.{
  ℕ, ◌+◌, ◌≤◌, ◌≡◌, refl, sym, ◌∙◌, ap, ◌⊎◌, inl, inr, true, false, List, [], ◌∷◌, ◌==◌, arith,
  sum_of, if◌then◌else◌, ltb, Bool-cases,
}
use inventory_pos.Common.Does.{>>=-all}
use inventory_pos.Common.Effects.{
  Result, ok, err, Error, business, internal, insufficient_stock, ◌>>=◌, ◌>>◌,
}
use inventory_pos.Common.Int.{sub_ℕ, pos, ltb_ℤ}
use inventory_pos.Common.Text.{Text}
use inventory_pos.Numbering
use inventory_pos.Inventory.{InventoryLedger, Columns, total_in, total_out, qty_available}
use inventory_pos.Inventory.Stock.{
  next_number, AdjustmentLine, StockAdjustment, StockStore, StockEnv,
}
use inventory_pos.Inventory.Stock.Retry.{retry_from-all}
use inventory_pos.Inventory.Adjust.{
  AdjustmentRequest, adjustment_of, gain, loss, adjustment_entry, is_too_much, adjust_line,
  adjust_lines, write_adjustment, adjustment_attempt, is_empty, adjust_stock,
}

-- What the lines add to a product, and what they take from it.
abbrev pub gained : ℕ → List AdjustmentLine → ℕ
gained product lines =
    sum_of (λ (l : AdjustmentLine). if l.product_id == product then gain l else 0) lines

abbrev pub lost : ℕ → List AdjustmentLine → ℕ
lost product lines =
    sum_of (λ (l : AdjustmentLine). if l.product_id == product then loss l else 0) lines

-- The differences have come into the warehouse and gone out of it, and nothing else has moved.
pub record Adjusted (at : ℕ) (lines : List AdjustmentLine) (es es' : InventoryLedger) : Type 0 where
  pub came_in :
      (product warehouse : ℕ)
      → total_in product warehouse es'
        ≡ (if at == warehouse then gained product lines else 0) + total_in product warehouse es
  pub went_out :
      (product warehouse : ℕ)
      → total_out product warehouse es'
        ≡ (if at == warehouse then lost product lines else 0) + total_out product warehouse es
  -- No product goes below zero that was not there already.
  pub covered :
      (product : ℕ)
      → total_out product at es ≤ total_in product at es
      → total_out product at es' ≤ total_in product at es'

unchanged : (at : ℕ) (es : InventoryLedger) → Adjusted at [] es es
unchanged at es = record {
  came_in = λ product warehouse. ground arith;
  went_out = λ product warehouse. ground arith;
  covered = λ product h. h;
}

passed_over :
    (at : ℕ) (l : AdjustmentLine) (es : InventoryLedger)
    → (l.qty_actual == l.qty_system) ≡ true
    → Adjusted at (l ∷ []) es es
passed_over at l es same = record {
  came_in = λ product warehouse. ground arith;
  went_out = λ product warehouse. ground arith;
  covered = λ product h. h;
}

stock_le : (i o q : ℕ) → ltb_ℤ (sub_ℕ i o) (pos q) ≡ false → o + q ≤ i
stock_le i o q h = ground arith

loss_le :
    (at : ℕ) (l : AdjustmentLine) (es : InventoryLedger)
    → is_too_much at l es ≡ false
    → total_out l.product_id at es ≤ total_in l.product_id at es
    → total_out l.product_id at es + loss l ≤ total_in l.product_id at es + gain l
unfolding qty_available
loss_le at l es enough h = elim (Bool-cases (ltb 0 (gain l))) [
  | inl up ↦ ground arith
  | inr down ↦ omega (
    arith,
    stock_le (total_in l.product_id at es) (total_out l.product_id at es) (loss l)
        (rw (down) at enough),
  )
]

one :
    (columns : Columns) (id : ℕ) (a : StockAdjustment) (l : AdjustmentLine) (es : InventoryLedger)
    → is_too_much a.warehouse_id l es ≡ false
    → Adjusted a.warehouse_id (l ∷ []) es (adjustment_entry columns id a l es ∷ es)
one columns id a l es enough = record {
  came_in = λ product warehouse. ground arith;
  went_out = λ product warehouse. ground arith;
  covered = λ product h. elim (Bool-cases (l.product_id == product)) [
    | inl same ↦
        let e : l.product_id ≡ product = ground arith in
        let bound = loss_le a.warehouse_id l es enough (rw e h) in
        let bound' = rw e at bound in ground (arith, bound')
    | inr other ↦ ground arith
  ];
}

more :
    (at : ℕ) (l : AdjustmentLine) (ls : List AdjustmentLine) (a b c : InventoryLedger)
    → Adjusted at (l ∷ []) a b
    → Adjusted at ls b c
    → Adjusted at (l ∷ ls) a c
more at l ls a b c h k = record {
  came_in =
      λ product warehouse. ground (arith, h.came_in product warehouse, k.came_in product warehouse);
  went_out = λ product warehouse.
      ground (arith, h.went_out product warehouse, k.went_out product warehouse);
  covered = λ product n. k.covered product (h.covered product n);
}

-- A round throws before it writes, or it leaves the ledger adjusted.
adjust_line-cases :
    (columns : Columns) (id : ℕ) (a : StockAdjustment) (l : AdjustmentLine) (es : InventoryLedger)
    → ((e : Error) × (adjust_line columns id a l es ≡ (err e, es)))
      ⊎ ((es' : InventoryLedger) × (adjust_line columns id a l es ≡ (ok tt, es'))
          × Adjusted a.warehouse_id (l ∷ []) es es')
unfolding adjust_line
adjust_line-cases columns id a l es = elim (Bool-cases (l.qty_actual == l.qty_system)) [
  | inl same ↦ inr (es, rw same refl, passed_over a.warehouse_id l es same)
  | inr other ↦ elim (Bool-cases (is_too_much a.warehouse_id l es)) [
    | inl short ↦ inl (business insufficient_stock, ground arith)
    | inr enough ↦
        inr (adjustment_entry columns id a l es ∷ es, ground arith, one columns id a l es enough)
  ]
]

-- The loop over the lines, when it ends without a throw.
adjust_lines-Adjusted :
    (columns : Columns) (id : ℕ) (a : StockAdjustment) (lines : List AdjustmentLine)
    (es es' : InventoryLedger)
    → adjust_lines columns id a lines es ≡ (ok tt, es')
    → Adjusted a.warehouse_id lines es es'
unfolding adjust_lines
adjust_lines-Adjusted columns id a [] es es' =
    λ h. rw (← ap (λ out. out.1) h) (unchanged a.warehouse_id es)
adjust_lines-Adjusted columns id a (l ∷ ls) es es' =
    >>=-all (λ out. out ≡ (ok tt, es') → Adjusted a.warehouse_id (l ∷ ls) es es')
      (adjust_line columns id a l) (λ u. adjust_lines columns id a ls) es (λ e t thrown h. cc)
      (λ u b wrote h. round b wrote (adjust_lines-Adjusted columns id a ls b es' h))
  where
    round :
        (b : InventoryLedger)
        → adjust_line columns id a l es ≡ (ok tt, b)
        → Adjusted a.warehouse_id ls b es'
        → Adjusted a.warehouse_id (l ∷ ls) es es'
    round b wrote rest = elim (adjust_line-cases columns id a l es) [
      | inl (e, thrown) ↦ cc
      | inr (c, left, first) ↦
          more a.warehouse_id l ls es b es' (rw (ap (λ out. out.1) (sym wrote ∙ left)) first) rest
    ]

-- What a call leaves: the stock adjusted, or everything but the counters as it was.
abbrev pub Post : AdjustmentRequest → StockStore → Result StockAdjustment × StockStore → Type 0
Post request s (err e, s') = (s'.ledger ≡ s.ledger) × (s'.adjustments ≡ s.adjustments)
Post request s (ok a, s') = Adjusted request.warehouse_id request.lines s.ledger s'.ledger

module _ (env : StockEnv) (request : AdjustmentRequest) (user : ℕ) where
  write_adjustment-Post :
      (attempt : ℕ) (number : Text) (s : StockStore) (out : Result (Unit {0}) × InventoryLedger)
      → adjust_lines env.columns env.new_id
          (adjustment_of env.columns request user number)
          request.lines
          s.ledger
        ≡ out
      → Post request s (write_adjustment env request user attempt number s)
  write_adjustment-Post attempt number s (err e, es') h = ground (arith, h)
  write_adjustment-Post attempt number s (ok u, es') h =
      let a =
        adjust_lines-Adjusted env.columns env.new_id (adjustment_of env.columns request user number)
          request.lines s.ledger es' h in
      ground (arith, h)

  after :
      (s t : StockStore) (e : Error) (out : Result StockAdjustment × StockStore)
      → Post request s (err e, t)
      → Post request t out
      → Post request s out
  after s t e (err x, u) (l, m) (l', m') = (l' ∙ l, m' ∙ m)
  after s t e (ok x, u) (l, m) h =
      subst (λ (es : InventoryLedger). Adjusted request.warehouse_id request.lines es u.ledger) l h

  attempt-Post :
      (attempt : ℕ) (s : StockStore)
      → Post request s (adjustment_attempt env request user attempt s)
  attempt-Post attempt s =
      >>=-all (Post request s)
        (next_number env attempt Numbering.DocumentType.sa request.adjustment_date)
        (write_adjustment env request user attempt) s
        (λ e t h. rw (ap (λ out. out.1) (sym h)) (refl, refl))
        (λ number t h.
          after s t internal _ (rw (ap (λ out. out.1) (sym h)) (refl, refl))
            (write_adjustment-Post attempt number t _ refl))

-- An adjustment that returns has changed the stock by the differences of its lines: in its warehouse what
-- has come in grew by the gains of a product and what has gone out by its losses, all else is as it
-- was, and a product that was not below zero is not below zero now. An adjustment that throws, in the
-- last attempt or before, changes neither the ledger nor the adjustments.
pub adjust_stock-Post :
    (env : StockEnv) (request : AdjustmentRequest) (user : ℕ) (s : StockStore)
    → Post request s (adjust_stock env request user s)
unfolding adjust_stock
adjust_stock-Post env request user s = elim (Bool-cases (is_empty request.reason)) [
  | inl empty ↦ rw (◌>>◌, ◌>>=◌, empty) (refl, refl)
  | inr given ↦
      rw (◌>>◌, ◌>>=◌, given)
        (retry_from-all (Post request) (after env request user) env
          (adjustment_attempt env request user) (attempt-Post env request user) 2 1 s)
]
