-- ===== src/Inventory/Balance.antt =====
-- The running quantities of inventory.service.ts against the sums of the movements.
use mathlib.Core.Path.{subst}
use inventory_pos.Common.{
  Option, ℕ, ◌+◌, ◌≤◌, ◌<◌, ◌≡◌, refl, inl, inr, true, false, some, List, [], ◌∷◌, arith,
  Bool-cases,
}
use inventory_pos.Common.Effects.{Result, ok, err, Error}
use inventory_pos.Common.Does.{Does}
use inventory_pos.Common.Int.{ℤ, pos, negsuc, sub_ℕ, pos_part, neg_part, ◌≤ℤ◌, int_laws, ◌+ℤ◌, ◌-ℤ◌}
use inventory_pos.Inventory.{
  StockMovement, InventoryEntry, InventoryLedger, is_of, latest, running_qty_of, is_short, Columns,
  new_entry, record_movement, total_in, total_out, qty_available,
}
use inventory_pos.Inventory.Latest.{
  NoneAfter, latest_self, latest_other, is_of_self, NoneAfter-mono, NoneNegative,
  latest-NoneNegative,
}

-- A movement that is recorded is a new entry, made from the last one, and there was enough stock; one
-- that is refused leaves no trace.
abbrev pub Records :
    Columns → StockMovement → InventoryLedger → Result InventoryEntry × InventoryLedger → Type 0
Records columns m s (err e, s') = s' ≡ s
Records columns m s (ok e, s') =
    let last = latest m.product_id m.warehouse_id s in
    (s' ≡ e ∷ s) × (e ≡ new_entry columns m last) × (is_short m last ≡ false)

throws_nothing :
    (columns : Columns) (m : StockMovement) (s : InventoryLedger) (e : Error)
    → Records columns m s (err e, s)
throws_nothing columns m s e = refl

pub record_movement-Does :
    (columns : Columns) (now : ℕ) (m : StockMovement) (s : InventoryLedger)
    → Does (Records columns m) s (record_movement columns now m)
unfolding record_movement
record_movement-Does columns now m s = record { at = ground arith }

-- The running quantity of the latest entry is what has come in less what has gone out.
abbrev pub IsTrackedAt : InventoryLedger → ℕ → ℕ → Type 0
IsTrackedAt s product warehouse =
    let q = running_qty_of (latest product warehouse s) in
    pos_part q + total_out product warehouse s ≡ neg_part q + total_in product warehouse s

abbrev pub IsTracked : InventoryLedger → Type 0
IsTracked s = (product warehouse : ℕ) → IsTrackedAt s product warehouse

-- A running quantity that follows the sums goes on doing so.
grows :
    (q : ℤ) (i o x y : ℕ)
    → pos_part q + o ≡ neg_part q + i
    → let q' = q +ℤ pos x -ℤ pos y in pos_part q' + (y + o) ≡ neg_part q' + (x + i)
grows q i o x y h = omega int_laws

tracked_self :
    (columns : Columns) (m : StockMovement) (s : InventoryLedger) (e : InventoryEntry)
    → NoneAfter m.movement_date s
    → IsTracked s
    → e ≡ new_entry columns m (latest m.product_id m.warehouse_id s)
    → is_short m (latest m.product_id m.warehouse_id s) ≡ false
    → IsTrackedAt (e ∷ s) m.product_id m.warehouse_id
tracked_self columns m s e h tracked made enough =
    let n = new_entry columns m (latest m.product_id m.warehouse_id s) in
    rw (made, latest_self n s h, is_of_self n)
      (grows (running_qty_of (latest m.product_id m.warehouse_id s)) _ _ n.qty_in n.qty_out
        (tracked m.product_id m.warehouse_id))

IsTracked-new :
    (columns : Columns) (m : StockMovement) (s : InventoryLedger) (e : InventoryEntry)
    → NoneAfter m.movement_date s
    → IsTracked s
    → e ≡ new_entry columns m (latest m.product_id m.warehouse_id s)
    → is_short m (latest m.product_id m.warehouse_id s) ≡ false
    → IsTracked (e ∷ s)
IsTracked-new columns m s e h tracked made enough product warehouse =
    elim (Bool-cases (is_of product warehouse e)) [
      | inl same ↦
          let (p, w) = keys (rw made at same) in
          subst (λ x. IsTrackedAt (e ∷ s) x warehouse) p
            (subst (λ x. IsTrackedAt (e ∷ s) m.product_id x) w
              (tracked_self columns m s e h tracked made enough))
      | inr other ↦
          let before = tracked product warehouse in
          rw (latest_other product warehouse e s other) (ground arith)
    ]
  where
    keys :
        is_of product warehouse (new_entry columns m (latest m.product_id m.warehouse_id s)) ≡ true
        → (m.product_id ≡ product) × (m.warehouse_id ≡ warehouse)
    keys same = ground arith

-- A movement with the time of its call.
pub record Call : Type 0 where
  pub now : ℕ
  pub movement : StockMovement

unfoldable pub run : Columns → List Call → InventoryLedger → InventoryLedger
run columns [] s = s
run columns (c ∷ cs) s = run columns cs (record_movement columns c.now c.movement s).1

-- No movement is dated before one that was asked for earlier.
abbrev pub IsInOrder : ℕ → List Call → Type 0
IsInOrder date [] = Unit
IsInOrder date (c ∷ cs) = (date ≤ c.movement.movement_date) × IsInOrder c.movement.movement_date cs

enough_stock :
    (columns : Columns) (m : StockMovement) (last : Option InventoryEntry)
    → is_short m last ≡ false
    → neg_part (new_entry columns m last).running_qty ≡ 0
enough_stock columns m last h = ground arith

-- What a row of calls keeps, with the date of the last one.
pub record IsKept (date : ℕ) (s : InventoryLedger) : Type 0 where
  pub none_after : NoneAfter date s
  pub tracked : IsTracked s
  pub none_negative : NoneNegative s

step :
    (columns : Columns) (m : StockMovement) (s : InventoryLedger) (r : Result InventoryEntry)
    (s' : InventoryLedger)
    → Records columns m s (r, s')
    → IsKept m.movement_date s
    → IsKept m.movement_date s'
step columns m s (err e) s' same h = rw same h
step columns m s (ok e) s' (next, made, enough) h = rw next record {
  none_after = (rw made (omega arith), h.none_after);
  tracked = IsTracked-new columns m s e h.none_after h.tracked made enough;
  none_negative = (
    rw made (enough_stock columns m (latest m.product_id m.warehouse_id s) enough),
    h.none_negative,
  );
}

run-IsKept :
    (columns : Columns) (cs : List Call) (date : ℕ) (s : InventoryLedger)
    → IsInOrder date cs
    → IsKept date s
    → (last : ℕ) × IsKept last (run columns cs s)
unfolding run
run-IsKept columns [] date s o h = (date, h)
run-IsKept columns (c ∷ cs) date s (o, os) h =
    let m = c.movement in
    let out = record_movement columns c.now m s in
    let h' : IsKept m.movement_date s = record {
      none_after = NoneAfter-mono date m.movement_date s o h.none_after;
      tracked = h.tracked;
      none_negative = h.none_negative;
    } in
    run-IsKept columns cs m.movement_date out.1 os
      (step columns m s out.0 out.1 (record_movement-Does columns c.now m s).at h')

nothing-IsKept : IsKept 0 []
unfolding latest
nothing-IsKept = record { none_after = tt; tracked = λ product warehouse. refl; none_negative = tt }

balance_of :
    (q : ℤ) (i o : ℕ)
    → pos_part q + o ≡ neg_part q + i
    → neg_part q ≡ 0
    → (sub_ℕ i o ≡ q) × (pos 0 ≤ℤ q)
balance_of (pos q) i o h n = (ground arith, omega arith)
balance_of (negsuc q) i o h n = absurd (omega arith)

-- As long as movements are recorded in the order of their dates, the running quantity of the latest
-- entry is the stock balance, all that came in less all that went out, for every product and warehouse:
-- whatever the movements are, refused ones included, and however costs are rounded, from an empty
-- ledger on. The balance is not negative.
pub run-qty_available :
    (columns : Columns) (cs : List Call) (product warehouse : ℕ)
    → IsInOrder 0 cs
    → let s = run columns cs [] in
      (qty_available product warehouse s ≡ running_qty_of (latest product warehouse s))
      × (pos 0 ≤ℤ running_qty_of (latest product warehouse s))
unfolding qty_available
run-qty_available columns cs product warehouse o =
    let s = run columns cs [] in
    let (last, k) = run-IsKept columns cs 0 [] o nothing-IsKept in
    balance_of (running_qty_of (latest product warehouse s)) (total_in product warehouse s)
      (total_out product warehouse s) (k.tracked product warehouse)
      (latest-NoneNegative product warehouse s k.none_negative)

-- A movement that is dated before the latest one of its product and warehouse is not seen by the next:
-- it is recorded, and added to the sums, but the latest entry, whose running quantity the next movement
-- starts from, stays the same.
pub record_movement-latest :
    (columns : Columns) (now : ℕ) (m : StockMovement) (s : InventoryLedger)
    (last e : InventoryEntry)
    → latest m.product_id m.warehouse_id s ≡ some last
    → m.movement_date < last.movement_date
    → (record_movement columns now m s).0 ≡ ok e
    → let s' = (record_movement columns now m s).1 in
      (latest m.product_id m.warehouse_id s' ≡ some last)
      × (total_in m.product_id m.warehouse_id s'
          ≡ e.qty_in + total_in m.product_id m.warehouse_id s)
      × (total_out m.product_id m.warehouse_id s'
          ≡ e.qty_out + total_out m.product_id m.warehouse_id s)
unfolding record_movement latest
record_movement-latest columns now m s last e found before done = ground arith
