-- ===== src/Inventory/Refines.antt =====
-- The stock ledger of inventory.service.ts, its transfers and adjustments, against the stock that they
-- stand for: a number for every product and warehouse.
use mathlib.Core.Path.{fun_ext}
use inventory_pos.Common.{
  ℕ, ◌+◌, ◌*◌, ◌≡◌, refl, ap, ◌∙◌, Bool, true, false, ◌&&◌, List, [], ◌∷◌, ◌==◌, arith,
  if◌then◌else◌,
}
use inventory_pos.Common.Effects.{Result, ok, err}
use inventory_pos.Common.Int.{ℤ, pos, pos_part, neg_part, sub_ℕ, ◌+ℤ◌, ◌-ℤ◌, int_laws}
use inventory_pos.Inventory.{
  StockMovement, InventoryEntry, InventoryLedger, rate_of, Columns, new_entry, record_movement,
  total_in, total_out, latest, qty_available,
}
use inventory_pos.Inventory.Balance.{Records, record_movement-Does}
use inventory_pos.Inventory.Stock.{StockTransfer, StockAdjustment, StockStore, StockEnv, set_ledger}
use inventory_pos.Inventory.Transfer.{TransferRequest, transfer_stock}
use inventory_pos.Inventory.Transfer.Totals
use inventory_pos.Inventory.Transfer.Totals.{moved, Moved, transfer_stock-Post}
use inventory_pos.Inventory.Adjust.{AdjustmentRequest, adjust_stock}
use inventory_pos.Inventory.Adjust.Totals as AdjustTotals
use inventory_pos.Inventory.Adjust.Totals.{gained, lost, Adjusted, adjust_stock-Post}

-- The abstract stock: how much of a product is in a warehouse.
abbrev pub StockLevels : Type 0
StockLevels = ℕ → ℕ → ℤ

-- What a ledger stands for.
abbrev pub levels : InventoryLedger → StockLevels
levels es product warehouse = qty_available product warehouse es

pub data StockCall : Type 0 where
  movement : StockMovement → StockCall
  transfer : TransferRequest → StockCall
  adjust : AdjustmentRequest → ℕ → StockCall

-- What comes in by a call, and what goes out.
abbrev pub incoming : StockCall → ℕ → ℕ → ℕ
incoming (movement m) product warehouse =
    if m.product_id == product && m.warehouse_id == warehouse
    then pos_part m.qty_in * rate_of m.conversion_rate
    else 0
incoming (transfer r) product warehouse =
    if r.to_warehouse_id == warehouse then moved product r.lines else 0
incoming (adjust r user) product warehouse =
    if r.warehouse_id == warehouse then gained product r.lines else 0

abbrev pub outgoing : StockCall → ℕ → ℕ → ℕ
outgoing (movement m) product warehouse =
    if m.product_id == product && m.warehouse_id == warehouse
    then pos_part m.qty_out * rate_of m.conversion_rate
    else 0
outgoing (transfer r) product warehouse =
    if r.from_warehouse_id == warehouse then moved product r.lines else 0
outgoing (adjust r user) product warehouse =
    if r.warehouse_id == warehouse then lost product r.lines else 0

-- The specification of a call that returns.
abbrev pub specified : StockCall → StockLevels → StockLevels
specified c old product warehouse =
    old product warehouse
    +ℤ pos (incoming c product warehouse)
    -ℤ pos (outgoing c product warehouse)

abbrev pub has_returned : {A : Type 0} → Result A → Bool
has_returned (ok a) = true
has_returned (err e) = false

-- A call at a time, on a machine; whether it returned, and the tables.
unfoldable pub perform : StockEnv → StockCall → StockStore → Bool × StockStore
perform env (movement m) s =
    let (r, es) = record_movement env.columns env.now m s.ledger in
    (has_returned r, set_ledger es s)
perform env (transfer request) s =
    let (r, s') = transfer_stock env request s in (has_returned r, s')
perform env (adjust request user) s =
    let (r, s') = adjust_stock env request user s in (has_returned r, s')

-- What a call did is what is specified for it, or nothing.
abbrev pub Refines : StockCall → StockStore → Bool × StockStore → Type 0
Refines c s (true, s') = levels s'.ledger ≡ specified c (levels s.ledger)
Refines c s (false, s') = levels s'.ledger ≡ levels s.ledger

sub_parts : (a b : ℕ) → pos_part (sub_ℕ a b) + b ≡ neg_part (sub_ℕ a b) + a
sub_parts a b = ground arith

sums : (i o i' o' x y : ℕ) → i' ≡ x + i → o' ≡ y + o → sub_ℕ i' o' ≡ sub_ℕ i o +ℤ pos x -ℤ pos y
sums i o i' o' x y hi ho = let a = sub_parts i o in let b = sub_parts i' o' in omega int_laws

-- From the totals to the levels.
by_totals :
    (c : StockCall) (es es' : InventoryLedger)
    → ((product warehouse : ℕ)
        → total_in product warehouse es'
          ≡ incoming c product warehouse + total_in product warehouse es)
    → ((product warehouse : ℕ)
        → total_out product warehouse es'
          ≡ outgoing c product warehouse + total_out product warehouse es)
    → levels es' ≡ specified c (levels es)
unfolding qty_available
by_totals c es es' ins outs = fun_ext λ p. fun_ext λ w.
    sums (total_in p w es) (total_out p w es) (total_in p w es') (total_out p w es') _ _ (ins p w)
      (outs p w)

perform_movement :
    (columns : Columns) (m : StockMovement) (s : StockStore) (r : Result InventoryEntry)
    (es : InventoryLedger)
    → Records columns m s.ledger (r, es)
    → Refines (movement m) s (has_returned r, set_ledger es s)
perform_movement columns m s (ok e) es (next, made, enough) =
    rw (next, made)
      (by_totals (movement m) s.ledger
        (new_entry columns m (latest m.product_id m.warehouse_id s.ledger) ∷ s.ledger) (λ p w. refl)
        (λ p w. refl))
perform_movement columns m s (err e) es same = rw same refl

perform_transfer :
    (request : TransferRequest) (s : StockStore) (out : Result StockTransfer × StockStore)
    → Totals.Post request s out
    → Refines (transfer request) s (has_returned out.0, out.1)
perform_transfer request s (ok t, s') m =
    by_totals (transfer request) s.ledger s'.ledger m.came_in m.went_out
perform_transfer request s (err e, s') (same, rest) = rw same refl

perform_adjust :
    (request : AdjustmentRequest) (user : ℕ) (s : StockStore)
    (out : Result StockAdjustment × StockStore)
    → AdjustTotals.Post request s out
    → Refines (adjust request user) s (has_returned out.0, out.1)
perform_adjust request user s (ok t, s') m =
    by_totals (adjust request user) s.ledger s'.ledger m.came_in m.went_out
perform_adjust request user s (err e, s') (same, rest) = rw same refl

perform-Refines : (env : StockEnv) (c : StockCall) (s : StockStore) → Refines c s (perform env c s)
unfolding perform
perform-Refines env (movement m) s =
    perform_movement env.columns m s _ _ (record_movement-Does env.columns env.now m s.ledger).at
perform-Refines env (transfer request) s =
    perform_transfer request s (transfer_stock env request s) (transfer_stock-Post env request s)
perform-Refines env (adjust request user) s =
    perform_adjust request user s (adjust_stock env request user s)
      (adjust_stock-Post env request user s)

-- A row of calls, each on a machine of its own, and those of them that returned.
unfoldable pub run : List (StockEnv × StockCall) → StockStore → StockStore
unfolding perform
run [] s = s
run ((env, c) ∷ cs) s = run cs (perform env c s).1

unfoldable pub returned : List (StockEnv × StockCall) → StockStore → List StockCall
unfolding perform
returned [] s = []
returned ((env, c) ∷ cs) s =
    let (b, s') = perform env c s in let rest = returned cs s' in if b then c ∷ rest else rest

abbrev pub specified_all : List StockCall → StockLevels → StockLevels
specified_all [] old = old
specified_all (c ∷ cs) old = specified_all cs (specified c old)

module _ (c : StockCall) (s : StockStore) (goal : StockLevels) (rest : List StockCall) where
  one_more :
      (b : Bool) (s' : StockStore)
      → Refines c s (b, s')
      → goal ≡ specified_all rest (levels s'.ledger)
      → goal ≡ specified_all (if b then c ∷ rest else rest) (levels s.ledger)
  one_more true s' r h = h ∙ ap (specified_all rest) r
  one_more false s' r h = h ∙ ap (specified_all rest) r

-- The services refine the abstract stock: whatever movements, transfers and adjustments are asked for,
-- in whatever order and on whatever answers of the machine, the ledger stands for the levels that the
-- calls that returned make of the levels before, and those that threw do not show.
pub run-levels :
    (cs : List (StockEnv × StockCall)) (s : StockStore)
    → levels (run cs s).ledger ≡ specified_all (returned cs s) (levels s.ledger)
unfolding run returned
run-levels [] s = refl
run-levels ((env, c) ∷ cs) s =
    let out = perform env c s in
    one_more c s (levels (run cs out.1).ledger) (returned cs out.1) out.0 out.1
      (perform-Refines env c s) (run-levels cs out.1)
