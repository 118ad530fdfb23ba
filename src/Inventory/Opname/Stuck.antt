-- ===== src/Inventory/Opname/Stuck.antt =====
-- A count of stock-opname.service.ts from its start to the attempt to end it.
use mathlib.Core.Option.{some-injective}
use inventory_pos.Common.{
  ℕ, ◌≡◌, ◌⊎◌, refl, ap, inl, inr, true, some, List, [], ◌∷◌, ◌∙◌, sym, any, arith, Bool-cases,
  Option-cases,
}
use inventory_pos.Common.Effects.{Result, ok, err}
use inventory_pos.Common.Table.{
  find_unique, update, find_unique-update_self, find_unique-update_inv,
}
use inventory_pos.Common.Text.{Text}
use inventory_pos.Numbering
use inventory_pos.Numbering.{Sequences, generate}
use inventory_pos.Inventory.Stock.{completed, Warehouse, StockOpname, StockStore, StockEnv}
use inventory_pos.Inventory.Opname
use inventory_pos.Inventory.Opname.{
  insert_opname, new_opname, lock_for, count_opname, status_eq, initiate, finalize,
}
use inventory_pos.Inventory.CountLines.{CountItem, differs}
use inventory_pos.Inventory.Opname.Locked.{IsLockedAt, Refused, finalize-Refused}

-- The count is stored, and its warehouse is locked.
pub record IsCounting (id : ℕ) (o : StockOpname) (s : StockStore) : Type 0 where
  pub stored : find_unique id s.opnames ≡ some o
  pub locked : IsLockedAt o.warehouse_id s

stored_new :
    (env : StockEnv) (warehouse user : ℕ) (number : Text) (s s' : StockStore) (o : StockOpname)
    → IsLockedAt warehouse s
    → insert_opname env.new_id (new_opname env warehouse user s.ledger number) s ≡ (ok o, s')
    → IsCounting env.new_id o s'
stored_new env warehouse user number s s' o locked h =
    elim (Option-cases (find_unique env.new_id s.opnames)) [
      | inl free ↦ record { stored = ground (arith, free); locked = ground (arith, free, locked) }
      | inr (other, taken) ↦ ground (arith, taken)
    ]

initiate-IsCounting :
    (env : StockEnv) (warehouse user : ℕ) (s s' : StockStore) (o : StockOpname)
    → initiate env warehouse user s ≡ (ok o, s')
    → IsCounting env.new_id o s'
unfolding initiate
initiate-IsCounting env warehouse user s s' o h =
    elim (Option-cases (find_unique warehouse s.warehouses)) [
      | inl gone ↦ ground (arith, gone)
      | inr (w, found) ↦
          numbered w found
            (generate (env.db 1) Numbering.DocumentType.sop (env.local_day env.now) s.sequences)
            refl
    ]
  where
    numbered :
        (w : Warehouse)
        → find_unique warehouse s.warehouses ≡ some w
        → (out : Result Text × Sequences)
        → generate (env.db 1) Numbering.DocumentType.sop (env.local_day env.now) s.sequences ≡ out
        → IsCounting env.new_id o s'
    numbered w found (err e, q) g = ground (arith, found, g)
    numbered w found (ok number, q) g =
        let s1 = record s {
          warehouses = update warehouse (lock_for env user) s.warehouses;
          sequences = q;
        } in
        let locked : IsLockedAt warehouse s1 =
          rw (find_unique-update_self warehouse (lock_for env user) s.warehouses found) refl in
        stored_new env warehouse user number s1 s' o locked (ground (arith, found, g))

-- The calls that count, of any opname; `finalize` and the unlocking of a warehouse are not among them.
pub data CountCall : Type 0 where
  record_count : ℕ → List CountItem → CountCall
  request_recount : ℕ → List ℕ → CountCall

unfoldable perform : CountCall → StockStore → StockStore
unfolding Opname.record_count Opname.request_recount
perform (record_count id items) s = (Opname.record_count id items s).1
perform (request_recount id products) s = (Opname.request_recount id products s).1

unfoldable pub run : List CountCall → StockStore → StockStore
unfolding perform
run [] s = s
run (c ∷ cs) s = run cs (perform c s)

-- A count of an opname that is gone or completed is refused.
counted :
    (id : ℕ) (items : List CountItem) (s : StockStore)
    → let s' = (Opname.record_count id items s).1 in
      (s' ≡ s)
      ⊎ ((o : StockOpname) × (s'
            ≡ record s { opnames = update id (count_opname o items) s.opnames }))
unfolding Opname.record_count
counted id items s = elim (Option-cases (find_unique id s.opnames)) [
  | inl gone ↦ inl (ground (arith, gone))
  | inr (o, found) ↦ elim (Bool-cases (status_eq o.status completed)) [
    | inl over ↦ inl (ground (arith, found))
    | inr going ↦ inr (o, ground (arith, found))
  ]
]

-- The warehouse is locked, and the opname, if it is there, is one of that warehouse.
record IsHeld (id warehouse : ℕ) (s : StockStore) : Type 0 where
  locked : IsLockedAt warehouse s
  of_warehouse : (o : StockOpname) → find_unique id s.opnames ≡ some o → o.warehouse_id ≡ warehouse

module _ (id warehouse : ℕ) where
  IsHeld-change :
      (k : ℕ) (f : StockOpname → StockOpname) (s : StockStore)
      → ((o : StockOpname) → (f o).warehouse_id ≡ o.warehouse_id)
      → IsHeld id warehouse s
      → IsHeld id warehouse (record s { opnames = update k f s.opnames })
  IsHeld-change k f s same h = record {
    locked = h.locked;
    of_warehouse = λ o e. elim (find_unique-update_inv id k f s.opnames e) [
      | inl (apart, old) ↦ h.of_warehouse o old
      | inr (here, (q, old, new)) ↦
          let mine : find_unique id s.opnames ≡ some q = rw here old in
          rw (new, same q) (h.of_warehouse q mine)
    ];
  }

  perform-IsHeld :
      (c : CountCall) (s : StockStore) → IsHeld id warehouse s → IsHeld id warehouse (perform c s)
  unfolding perform Opname.request_recount
  perform-IsHeld (request_recount k products) s h = IsHeld-change k _ s (λ o. refl) h
  perform-IsHeld (record_count k items) s h = elim (counted k items s) [
    | inl same ↦ rw same h
    | inr (o, changed) ↦ rw changed (IsHeld-change k (count_opname o items) s (λ q. refl) h)
  ]

  run-IsHeld :
      (cs : List CountCall) (s : StockStore)
      → IsHeld id warehouse s
      → IsHeld id warehouse (run cs s)
  unfolding run
  run-IsHeld [] s h = h
  run-IsHeld (c ∷ cs) s h = run-IsHeld cs (perform c s) (perform-IsHeld c s h)

-- A count that `initiate` began is not ended while a line of it differs: when counts and recounts have
-- followed, of this opname or of others, in any order, and nothing else has unlocked the warehouse, a
-- call of `finalize` throws and changes nothing but the counters, whatever the numbering and the row
-- locks answer.
pub initiate-run-finalize :
    (env later : StockEnv) (warehouse user other : ℕ) (cs : List CountCall) (s s1 : StockStore)
    (o now : StockOpname)
    → initiate env warehouse user s ≡ (ok o, s1)
    → find_unique env.new_id (run cs s1).opnames ≡ some now
    → any differs now.lines ≡ true
    → Refused (run cs s1) (finalize later env.new_id other (run cs s1))
initiate-run-finalize env later warehouse user other cs s s1 o now begun found d =
    let c = initiate-IsCounting env warehouse user s s1 o begun in
    let held : IsHeld env.new_id o.warehouse_id (run cs s1) =
      run-IsHeld env.new_id o.warehouse_id cs s1 record {
        locked = c.locked;
        of_warehouse =
            λ q e. ap (λ (x : StockOpname). x.warehouse_id) (some-injective _ _ (sym e ∙ c.stored));
      } in
    finalize-Refused later env.new_id other (run cs s1) now found
      (rw (held.of_warehouse now found) held.locked) d
