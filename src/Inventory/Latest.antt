-- ===== src/Inventory/Latest.antt =====
-- The latest entry of inventory.service.ts for a product and a warehouse.
use inventory_pos.Common.{
  ℕ, ◌≤◌, ◌≡◌, refl, inl, inr, true, false, some, [], ◌∷◌, arith, All, All-imp, Option-cases,
}
use inventory_pos.Common.Int.{neg_part}
use inventory_pos.Inventory.{InventoryEntry, InventoryLedger, is_of, latest, running_qty_of}

abbrev pub NoneAfter : ℕ → InventoryLedger → Type 0
NoneAfter date s = All (λ (e : InventoryEntry). e.movement_date ≤ date) s

latest_date :
    (product warehouse date : ℕ) (s : InventoryLedger) (e : InventoryEntry)
    → NoneAfter date s
    → latest product warehouse s ≡ some e
    → e.movement_date ≤ date
unfolding latest
latest_date product warehouse date [] e h f = cc
latest_date product warehouse date (x ∷ s) e (h, hs) f =
    elim (Option-cases (latest product warehouse s)) [
      | inl none_yet ↦ ground arith
      | inr (q, found) ↦ let older = latest_date product warehouse date s q hs found in ground arith
    ]

pub latest_self :
    (e : InventoryEntry) (s : InventoryLedger)
    → NoneAfter e.movement_date s
    → latest e.product_id e.warehouse_id (e ∷ s) ≡ some e
unfolding latest
latest_self e s h = elim (Option-cases (latest e.product_id e.warehouse_id s)) [
  | inl none_yet ↦ ground arith
  | inr (q, found) ↦
      let older = latest_date e.product_id e.warehouse_id e.movement_date s q h found in
      ground arith
]

pub latest_other :
    (product warehouse : ℕ) (e : InventoryEntry) (s : InventoryLedger)
    → is_of product warehouse e ≡ false
    → latest product warehouse (e ∷ s) ≡ latest product warehouse s
unfolding latest
latest_other product warehouse e s h = ground arith

pub is_of_self : (e : InventoryEntry) → is_of e.product_id e.warehouse_id e ≡ true
is_of_self e = ground arith

pub NoneAfter-mono : (a b : ℕ) (s : InventoryLedger) → a ≤ b → NoneAfter a s → NoneAfter b s
NoneAfter-mono a b s h n = All-imp _ _ (λ e k. omega (arith, k, h)) s n

-- No entry has a negative running quantity.
abbrev pub NoneNegative : InventoryLedger → Type 0
NoneNegative s = All (λ (e : InventoryEntry). neg_part e.running_qty ≡ 0) s

pub latest-NoneNegative :
    (product warehouse : ℕ) (s : InventoryLedger)
    → NoneNegative s
    → neg_part (running_qty_of (latest product warehouse s)) ≡ 0
unfolding latest
latest-NoneNegative product warehouse [] h = refl
latest-NoneNegative product warehouse (e ∷ s) (h, hs) =
    let older = latest-NoneNegative product warehouse s hs in
    elim (Option-cases (latest product warehouse s)) [
      | inl f ↦ ground arith
      | inr (q, f) ↦ ground arith
    ]
