-- ===== src/Inventory/Tests.antt =====
-- Stock movements at concrete inputs.
use inventory_pos.Common.{ℕ, ◌+◌, ◌≡◌, refl, none, some, List, [], ◌∷◌, arith}
use inventory_pos.Common.Effects.{ok}
use inventory_pos.Common.Int.{pos, ◌≤ℤ◌}
use inventory_pos.Common.Text.{codes}
use inventory_pos.Inventory.{
  StockMovement, InventoryEntry, latest, running_qty_of, Columns, record_movement, total_in,
  total_out, qty_available,
}
use inventory_pos.Inventory.Balance.{Call, run, run-qty_available, record_movement-latest}

-- Columns that cut off.
abbrev columns : Columns
columns = record { cost = λ n d. n; unit = λ n d. n }

abbrev movement : (date qty_in qty_out : ℕ) → StockMovement
movement date qty_in qty_out = record {
  product_id = 5;
  warehouse_id = 2;
  transaction_type = codes "PURCHASE";
  reference_type = codes "GR";
  reference_id = 1;
  reference_number = codes "GR-1";
  movement_date = date;
  qty_in = pos qty_in;
  qty_out = pos qty_out;
  unit_cost = pos 100;
  conversion_rate = some 12;
  notes = none;
  created_by = 7;
}

abbrev call : (date qty_in qty_out : ℕ) → Call
call date qty_in qty_out = record { now = 1000; movement = movement date qty_in qty_out }

abbrev calls : List Call
calls = call 10 40 0 ∷ call 20 0 15 ∷ call 20 0 30 ∷ call 30 5 0 ∷ []

run-qty_available_example :
    (qty_available 5 2 (run columns calls []) ≡ running_qty_of (latest 5 2 (run columns calls [])))
    × (pos 0 ≤ℤ running_qty_of (latest 5 2 (run columns calls [])))
run-qty_available_example =
    run-qty_available columns calls 5 2
      (omega arith, (omega arith, (omega arith, (omega arith, tt))))

-- The third call asks for more than there is.
calls-run : qty_available 5 2 (run columns calls []) ≡ pos 360
unfolding qty_available run record_movement
calls-run = refl

abbrev stored : InventoryEntry
stored = record {
  product_id = 5;
  warehouse_id = 2;
  transaction_type = codes "PURCHASE";
  reference_type = codes "GR";
  reference_id = 1;
  reference_number = codes "GR-1";
  movement_date = 20;
  qty_in = 480;
  qty_out = 0;
  unit_cost = 100;
  total_cost = 4000;
  running_qty = pos 480;
  running_cost = 4000;
  batch_number = none;
  serial_number = none;
  notes = none;
  created_by = 7;
}

abbrev backdated : InventoryEntry
backdated = record {
  product_id = 5;
  warehouse_id = 2;
  transaction_type = codes "PURCHASE";
  reference_type = codes "GR";
  reference_id = 1;
  reference_number = codes "GR-1";
  movement_date = 10;
  qty_in = 0;
  qty_out = 480;
  unit_cost = 100;
  total_cost = 0;
  running_qty = pos 0;
  running_cost = 0;
  batch_number = none;
  serial_number = none;
  notes = none;
  created_by = 7;
}

backdated-ok : (record_movement columns 1000 (movement 10 0 40) (stored ∷ [])).0 ≡ ok backdated
unfolding record_movement
backdated-ok = refl

record_movement-latest_example :
    let s' = (record_movement columns 1000 (movement 10 0 40) (stored ∷ [])).1 in
    (latest 5 2 s' ≡ some stored)
    × (total_in 5 2 s' ≡ 0 + total_in 5 2 (stored ∷ []))
    × (total_out 5 2 s' ≡ 480 + total_out 5 2 (stored ∷ []))
unfolding latest
record_movement-latest_example =
    record_movement-latest columns 1000 (movement 10 0 40) (stored ∷ []) stored backdated refl
      (omega arith) backdated-ok
